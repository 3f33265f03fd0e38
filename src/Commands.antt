-- ===== src/Commands.antt =====
-- cmd/server/main.go and cmd/client/main.go: how the parts are put together from a configuration.
-- Flags, signals and the log are left out.
pub mod Startup
pub mod Running
use redis_dns.Prelude.{
  ℕ, zero, suc, Bool, true, false, not, List, [], ◌∷◌, Option, none, some, if◌then◌else◌,
}
use redis_dns.Prelude.Bytes.{Bytes}
use redis_dns.Prelude.Int.{ℤ, pos, eq_ℤ, ◌*64◌}
use redis_dns.Net.{is_nil}
use redis_dns.Config.{
  Config, Loaded, loaded, read_failed, parse_failed, second, is_enabled, port_list, timeout_dur,
  tcp_deadline_dur, icmp_enabled, pref_ttl_dur, pref_neg_ttl_dur, recheck_hits_n, recheck_age_dur,
  topnn, decay_dur,
}
use redis_dns.Redisx.{Options, new_options}
use redis_dns.Resolver.Race.{enable_race}
use redis_dns.Resolver.Pref.{enable_pref}
use redis_dns.Resolver.Resolve.{Resolver}
use redis_dns.Resolver.Resolve
use redis_dns.Server.{Server}
use redis_dns.Server
use redis_dns.Server.Worker.{Started, run}
use redis_dns.Client.{Client}
use redis_dns.Client

-- A ping is answered, or it fails and then a second passes or the context ends.
pub data Attempt : Type 0 where
  pong : Attempt
  waited : Attempt
  cancelled : Attempt

-- The results of `ping`: no error, the context's error, or `redis unreachable after 10 attempts`.
pub data Ping : Type 0 where
  reachable : Ping
  interrupted : Ping
  unreachable : Ping

-- The loop, with so many turns left; `none` while it runs on.
unfoldable pub ping_from : ℕ → List Attempt → Option Ping
ping_from zero as' = some unreachable
ping_from (suc n) [] = none
ping_from (suc n) (pong ∷ as') = some reachable
ping_from (suc n) (cancelled ∷ as') = some interrupted
ping_from (suc n) (waited ∷ as') = ping_from n as'

unfoldable pub ping : List Attempt → Option Ping
ping as' = ping_from 10 as'

-- `n` is the command's default.
abbrev pub pool_of : ℕ → ℤ → ℤ
pool_of n size = if eq_ℤ size (pos 0) then pos n else size

abbrev pub redis_options : (Bytes → Option Bytes) → ℕ → Config → Options
redis_options split_host n cfg =
    new_options split_host redis.addr (pool_of n redis.pool_size) redis.tls redis.server_name
  where
    open cfg use {redis}

-- The resolver that the server gets.
unfoldable pub resolver_of : Config → Resolver
resolver_of cfg =
    if is_enabled race
    then record {
      race = some (
          enable_race (port_list race) (timeout_dur race) (tcp_deadline_dur race)
            (icmp_enabled race));
      pref = some (
          enable_pref (pref_ttl_dur race) (pref_neg_ttl_dur race) (recheck_hits_n race)
            (recheck_age_dur race));
    }
    else Resolve.new
  where
    open cfg use {race}

abbrev pub upstream_timeout : Config → ℤ
upstream_timeout cfg = cfg.upstream.timeout *64 second

unfoldable pub server_of : Config → Server
server_of cfg =
    Server.new group consumer (cache_ttl *64 second) (neg_ttl *64 second) resp_max workers
      (prefetch.interval *64 second) (topnn prefetch) (decay_dur prefetch)
  where
    open cfg use {group, consumer, cache_ttl, neg_ttl, resp_max, workers, prefetch}

unfoldable pub client_of : Config → Client
client_of cfg = Client.new (cfg.block_time *64 second) (cfg.local_ttl *64 second)

-- What runs after a start.
pub record ServerUp : Type 0 where
  pub options : Options
  pub timeout : ℤ
  pub resolver : Resolver
  pub server : Server
  pub started : Started

pub record ClientUp : Type 0 where
  pub options : Options
  pub keepalive : ℤ
  pub client : Client
  pub follows : Bool
  pub serves_doh : Bool

-- How a command goes on: it ends with an error, or its parts run.
pub data Start (A : Type 0) : Type 0 where
  bad_config : Start A
  no_redis : Start A
  no_group : Start A
  up : A → Start A

module _ (split_host : Bytes → Option Bytes) where
  -- `main` of cmd/server: what `Load` returns, the pings, and the error of XGROUP CREATE.
  unfoldable pub server_main : Loaded → List Attempt → Option Bytes → Option (Start ServerUp)
  server_main read_failed as' created = some bad_config
  server_main parse_failed as' created = some bad_config
  server_main (loaded cfg) as' created = elim (ping as') [
    | none ↦ none
    | some interrupted ↦ some no_redis
    | some unreachable ↦ some no_redis
    | some reachable ↦ elim (run (server_of cfg) created) [
      | none ↦ some no_group
      | some started ↦ some (
          up (record {
            options = redis_options split_host 32 cfg;
            timeout = upstream_timeout cfg;
            resolver = resolver_of cfg;
            server = server_of cfg;
            started = started;
          }))
    ]
  ]

  abbrev pub client_up : Config → ClientUp
  client_up cfg = record {
    options = redis_options split_host 8 cfg;
    keepalive = pos 15000000000;
    client = client_of cfg;
    follows = not (is_nil cfg.follow.api);
    serves_doh = not (is_nil cfg.doh_listen);
  }

  -- `main` of cmd/client.
  unfoldable pub client_main : Loaded → List Attempt → Option (Start ClientUp)
  client_main read_failed as' = some bad_config
  client_main parse_failed as' = some bad_config
  client_main (loaded cfg) as' = elim (ping as') [
    | none ↦ none
    | some interrupted ↦ some no_redis
    | some unreachable ↦ some no_redis
    | some reachable ↦ some (up (client_up cfg))
  ]
