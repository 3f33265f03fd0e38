-- ===== src/Tests/Commanding.antt =====
-- The two commands at a concrete start, and the worker and the sweeps behind them.
use redis_dns.Prelude.{subst, ap, ◌≡◌, refl, List, [], ◌∷◌, Option, none, some, arith, All, map}
use mathlib.Core.List.{Perm}
use mathlib.Core.List.Perm
use redis_dns.Prelude.Bytes.{Bytes, ascii, bytes_eq, insert, empty, Map, contains, has_prefix}
use redis_dns.Prelude.Int.{ℤ, pos, ◌<ℤ◌}
use redis_dns.Config.{Config, loaded, load, default, finalize, apply_env}
use redis_dns.Proto.{Request, Response, Update, Json}
use redis_dns.Server.{Server}
use redis_dns.Server.Handle.{Scene, answered}
use redis_dns.Server.Handle.Responding.{acks_in}
use redis_dns.Server.Prefetch.{Sweep, run_prefetch}
use redis_dns.Server.Prefetch.Fixed.{name_of}
use redis_dns.Server.Prefetch.Rounds.{without, IsBefore, IsFixed, hot_domain_waits}
use redis_dns.Server.Worker.{Message, Fetch, cancelled, failed, nil, fetched, worker, ensure_group}
use redis_dns.Server.Worker.Backoff.{
  slept_in, started_in, creations_in, waits_of, messages_of, lost_groups, worker-Works,
}
use redis_dns.Server.Worker.Acks.{run_jobs, worker_acks_all}
use redis_dns.Commands.{pong, waited, ServerUp, up, server_main}
use redis_dns.Commands.Startup.{IsInRange, IsSoundServer}
use redis_dns.Commands.Running.{server_main_starts}
use redis_dns.Tests.Samples.{name, lib, two_ips}

abbrev getenv : Bytes → Bytes
getenv v = []

abbrev read_file : Bytes → Option Bytes
read_file path = none

abbrev unmarshal : Bytes → Config → Option Config
unmarshal text cfg = some cfg

abbrev host : Bytes → Option Bytes
host addr = none

loads : load getenv read_file unmarshal [] ≡ loaded default
unfolding load default finalize apply_env
loads = refl

in_range : IsInRange default
unfolding default
in_range = record {
  timeout = omega arith;
  neg_ttl = omega arith;
  race = record {
    timeout = omega arith;
    tcp_deadline = omega arith;
    pref_ttl = omega arith;
    pref_neg_ttl = omega arith;
    recheck_age = omega arith;
  };
}

exists : ensure_group (some (ascii "BUSYGROUP")) ≡ none
unfolding ensure_group contains has_prefix
exists = refl

server_main_starts_example :
    (u : ServerUp) × (server_main host
        (load getenv read_file unmarshal [])
        (waited ∷ pong ∷ [])
        (some (ascii "BUSYGROUP"))
      ≡ some (up u))
    × IsSoundServer default u
server_main_starts_example =
    server_main_starts getenv read_file unmarshal host [] default loads in_range (waited ∷ []) []
      (refl, tt) (omega arith) (some (ascii "BUSYGROUP")) exists

-- A worker that loses the group, gets two messages and fails once more.
abbrev first : Message
first = record { id = ascii "1-1"; payload = some (ascii "{}") }

abbrev broken : Message
broken = record { id = ascii "1-2"; payload = none }

abbrev lost_group : Bytes
lost_group = ascii "NOGROUP"

abbrev reads : List Fetch
reads =
    failed lost_group none
    ∷ nil
    ∷ fetched (first ∷ broken ∷ [])
    ∷ failed (ascii "EOF") none
    ∷ cancelled
    ∷ []

worker-Works_example :
    (slept_in (worker reads) ≡ waits_of 0 reads)
    × (started_in (worker reads) ≡ messages_of reads)
    × (creations_in (worker reads) ≡ lost_groups reads)
worker-Works_example = worker-Works reads

abbrev server : Server
server = record {
  group = ascii "dns";
  consumer = ascii "resolver";
  cache_ttl = pos 300000000000;
  neg_ttl = pos 60000000000;
  resp_max = pos 1000;
  workers = pos 1;
  prefetch = pos 60000000000;
  top_n = pos 0;
  half_life = pos 86400000000000;
}

abbrev requests : Json Request
requests = record {
  marshal = λ r. r.id;
  unmarshal = λ b. some (record { id = ascii "r1"; name = name; qtype = 1 });
}

abbrev replies : Json Response
replies = record { marshal = λ r. r.id; unmarshal = λ b. none }

abbrev updates : Json Update
updates = record { marshal = λ u. u.name; unmarshal = λ b. none }

abbrev scene : Scene
scene = record {
  cached = λ k. none;
  upstream = λ n t. answered two_ips;
  pack_error = λ m. [];
  now = pos 5;
}

abbrev jobs : List (Message × Scene)
jobs = (broken, scene) ∷ (first, scene) ∷ []

either_order : Perm (map (λ j. j.0) jobs) (started_in (worker reads))
either_order = rw (worker-Works reads).1 (Perm.swap _ _ [])

worker_acks_all_example :
    Perm
      (acks_in (run_jobs lib requests replies updates server [] jobs))
      (map (λ m. m.id) (messages_of reads))
worker_acks_all_example =
    worker_acks_all lib requests replies updates server reads [] jobs either_order

-- Two sweeps before a domain's time.
abbrev sweep : Sweep
sweep = record {
  trim = λ t. t;
  domains = some ((name, ascii "60") ∷ (ascii "b.", ascii "60") ∷ []);
  top = none;
  upstream = λ n t. answered two_ips;
  looked_at = λ d. pos 5;
  ranked_at = pos 5;
  stamped = λ d. pos 5;
  finished = λ d. pos 6;
}

abbrev planned : Map ℤ
planned = insert name (pos 100) empty

name-IsFixed : IsFixed lib requests replies updates server name
unfolding bytes_eq
name-IsFixed m = refl

planned_at : planned name ≡ some (pos 100)
unfolding bytes_eq
planned_at = refl

abbrev listed : Option (List (Bytes × Bytes)) → List (Bytes × Bytes)
listed none = []
listed (some ds) = ds

early : IsBefore lib requests replies updates server name (pos 100) sweep
early ds h =
    subst
      (All (λ d.
        name_of lib requests replies updates server sweep d.0 ≡ name
        → sweep.looked_at d.0 <ℤ pos 100))
      (ap listed h) (λ e. omega arith, (λ e. omega arith, tt))

hot_domain_waits_example :
    run_prefetch lib requests replies updates server planned (sweep ∷ sweep ∷ [])
    ≡ run_prefetch lib requests replies updates server planned
        (map (without lib requests replies updates server name) (sweep ∷ sweep ∷ []))
hot_domain_waits_example =
    hot_domain_waits lib requests replies updates server name (pos 100) name-IsFixed
      (sweep ∷ sweep ∷ []) planned planned_at (early, (early, tt))
