-- ===== src/Config.antt =====
-- internal/config/config.go. Go's `int` and `int64` are integers here, and the products that make
-- durations wrap at 64 bits as they do there. The YAML reader, the file system and the
-- environment are parameters.
pub mod Laws
use redis_dns.Prelude.{
  ℕ, Bool, true, false, List, [], ◌∷◌, Option, none, some, if◌then◌else◌, length, ltb, ◌==◌,
}
use redis_dns.Prelude.Bytes.{Bytes, ascii}
use redis_dns.Prelude.Int.{ℤ, pos, ltb_ℤ, nonpos, ◌*64◌}
use redis_dns.Net.{is_nil}

pub record Redis : Type 0 where
  pub addr : Bytes
  pub username : Bytes
  pub password : Bytes
  pub db : ℤ
  pub pool_size : ℤ
  pub tls : Bool
  pub server_name : Bytes

pub record Upstream : Type 0 where
  pub addr : Bytes
  pub network : Bytes
  pub timeout : ℤ

pub record FollowBackend : Type 0 where
  pub addr : Bytes
  pub sni : Bytes

pub record Follow : Type 0 where
  pub api : Bytes
  pub token : Bytes
  pub group : Bytes
  pub interval : ℤ
  pub backends : List (Bytes × FollowBackend)

pub record Prefetch : Type 0 where
  pub interval : ℤ
  pub topn : ℤ
  pub decay_hours : ℤ

-- A nil pointer to a Boolean is `none`.
pub record Race : Type 0 where
  pub enabled : Option Bool
  pub ports : List ℤ
  pub timeout : ℤ
  pub tcp_deadline : ℤ
  pub icmp : Option Bool
  pub pref_ttl : ℤ
  pub pref_neg_ttl : ℤ
  pub recheck_hits : ℤ
  pub recheck_age : ℤ

pub record Config : Type 0 where
  pub redis : Redis
  pub upstream : Upstream
  pub listen : Bytes
  pub doh_listen : Bytes
  pub local_ttl : ℤ
  pub block_time : ℤ
  pub group : Bytes
  pub consumer : Bytes
  pub cache_ttl : ℤ
  pub neg_ttl : ℤ
  pub resp_max : ℤ
  pub workers : ℤ
  pub prefetch : Prefetch
  pub race : Race
  pub follow : Follow

abbrev pub millisecond : ℕ
millisecond = 1000000

abbrev pub second : ℕ
second = 1000000000

abbrev pub hour : ℕ
hour = 3600000000000

abbrev positive : ℤ → Bool
positive a = ltb_ℤ (pos 0) a

unfoldable pub topnn : Prefetch → ℤ
topnn p = if positive p.topn then p.topn else pos 50

unfoldable pub decay_dur : Prefetch → ℤ
decay_dur p = if positive p.decay_hours then p.decay_hours *64 hour else pos 86400000000000

abbrev pub unless_false : Option Bool → Bool
unless_false none = true
unless_false (some v) = v

unfoldable pub is_enabled : Race → Bool
is_enabled r = unless_false r.enabled

unfoldable pub port_list : Race → List ℤ
port_list r = if ltb 0 (length r.ports) then r.ports else pos 443 ∷ pos 80 ∷ []

unfoldable pub timeout_dur : Race → ℤ
timeout_dur r = if positive r.timeout then r.timeout *64 millisecond else pos second

unfoldable pub tcp_deadline_dur : Race → ℤ
tcp_deadline_dur r =
    if positive r.tcp_deadline then r.tcp_deadline *64 millisecond else pos 200000000

unfoldable pub icmp_enabled : Race → Bool
icmp_enabled r = unless_false r.icmp

unfoldable pub pref_ttl_dur : Race → ℤ
pref_ttl_dur r = if positive r.pref_ttl then r.pref_ttl *64 second else pos 86400000000000

unfoldable pub pref_neg_ttl_dur : Race → ℤ
pref_neg_ttl_dur r = if positive r.pref_neg_ttl then r.pref_neg_ttl *64 second else pos 600000000000

unfoldable pub recheck_hits_n : Race → ℤ
recheck_hits_n r = if positive r.recheck_hits then r.recheck_hits else pos 100

unfoldable pub recheck_age_dur : Race → ℤ
recheck_age_dur r = if positive r.recheck_age then r.recheck_age *64 second else pos 21600000000000

-- `Default`, with Go's zero values for the fields that it leaves out.
unfoldable pub default : Config
default = record {
  redis = record {
    addr = ascii "127.0.0.1:6379";
    username = [];
    password = [];
    db = pos 0;
    pool_size = pos 0;
    tls = false;
    server_name = [];
  };
  upstream = record { addr = ascii "8.8.8.8:53"; network = ascii "udp"; timeout = pos 5 };
  listen = ascii "0.0.0.0:53";
  doh_listen = ascii "127.0.0.1:5354";
  local_ttl = pos 300;
  block_time = pos 5;
  group = ascii "dns";
  consumer = ascii "resolver";
  cache_ttl = pos 300;
  neg_ttl = pos 60;
  resp_max = pos 1000;
  workers = pos 0;
  prefetch = record { interval = pos 0; topn = pos 0; decay_hours = pos 0 };
  race = record {
    enabled = none;
    ports = [];
    timeout = pos 0;
    tcp_deadline = pos 0;
    icmp = none;
    pref_ttl = pos 0;
    pref_neg_ttl = pos 0;
    recheck_hits = pos 0;
    recheck_age = pos 0;
  };
  follow = record { api = []; token = []; group = []; interval = pos 0; backends = [] };
}

-- A variable that is not set reads as the empty text.
abbrev override : Bytes → Bytes → Bytes
override v old = if is_nil v then old else v

unfoldable pub apply_env : (Bytes → Bytes) → Config → Config
apply_env getenv cfg = record cfg {
  redis = record redis {
    addr = override (getenv (ascii "REDIS_ADDR")) redis.addr;
    password = override (getenv (ascii "REDIS_PASSWORD")) redis.password;
  };
  upstream = record upstream { addr = override (getenv (ascii "UPSTREAM_ADDR")) upstream.addr };
  listen = override (getenv (ascii "LISTEN")) listen;
}
  where
    open cfg use {redis, upstream, listen}

abbrev if_nonpos : ℤ → ℤ → ℤ
if_nonpos n d = if nonpos n then d else n

abbrev if_empty : Bytes → Bytes → Bytes
if_empty s d = if is_nil s then d else s

unfoldable pub finalize : Config → Config
finalize cfg = record cfg {
  local_ttl = if_nonpos local_ttl (pos 300);
  block_time = if_nonpos block_time (pos 5);
  neg_ttl = if ltb_ℤ neg_ttl (pos 0) then pos 0 else neg_ttl;
  resp_max = if_nonpos resp_max (pos 1000);
  upstream = record upstream {
    timeout = if_nonpos upstream.timeout (pos 5);
    network = if_empty upstream.network (ascii "udp");
  };
  group = if_empty group (ascii "dns");
  consumer = if_empty consumer (ascii "resolver");
}
  where
    open cfg use {local_ttl, block_time, neg_ttl, resp_max, upstream, group, consumer}

-- The result of `Load`.
pub data Loaded : Type 0 where
  loaded : Config → Loaded
  read_failed : Loaded
  parse_failed : Loaded

module _ (getenv : Bytes → Bytes) (read_file : Bytes → Option Bytes)
    (unmarshal : Bytes → Config → Option Config) where
  finish : Config → Loaded
  finish cfg = loaded (finalize (apply_env getenv cfg))

  unfoldable pub load : Bytes → Loaded
  unfolding finish
  load path = if is_nil path then finish default else elim (read_file path) [
    | none ↦ read_failed
    | some text ↦ elim (unmarshal text default) [ none ↦ parse_failed | some cfg ↦ finish cfg ]
  ]
