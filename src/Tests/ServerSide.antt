-- ===== src/Tests/ServerSide.antt =====
-- The resolver's side at concrete requests.
use redis_dns.Prelude.{ℕ, ◌≡◌, ◌≤◌, ◌<◌, refl, ◌⊎◌, List, [], ◌∷◌, none, some, arith, All, length}
use redis_dns.Prelude.Bytes.{Bytes, ascii, Map, insert, empty}
use redis_dns.Prelude.Int.{ℤ, pos, ◌≤ℤ◌, ◌<ℤ◌}
use redis_dns.Proto.{Request, Response, Update, Json}
use redis_dns.Redisx.{cache_key}
use redis_dns.Server.{Server}
use redis_dns.Server.Stats.{
  count_member, dyn_key, prefetch_next_delay, Tick, member, tick, run_counter, batch_size,
}
use redis_dns.Server.Stats.Members.{IsNamedType}
use redis_dns.Server.Stats.Counting.{start, received, concat, run_counter_loses_none}
use redis_dns.Server.Handle.{Scene, Command, store, ack, answered, cache, cache_ceiling, process}
use redis_dns.Server.Handle.Caching.{HasCeiling, IsCached, cache-IsCached, zero_ttl_is_cached}
use redis_dns.Server.Handle.Responding.{IsForeign, Counted, AnswersOnce, process-AnswersOnce}
use redis_dns.Tests.Samples.{name, lib, two_ips, zero_ttl}

abbrev server : Server
server = record {
  group = ascii "dns";
  consumer = ascii "resolver";
  cache_ttl = pos 300000000000;
  neg_ttl = pos 60000000000;
  resp_max = pos 1000;
  workers = pos 1;
  prefetch = pos 60000000000;
  top_n = pos 50;
  half_life = pos 86400000000000;
}

abbrev ask : Request
ask = record { id = ascii "r1"; name = name; qtype = 1 }

abbrev requests : Json Request
requests = record { marshal = λ r. r.id; unmarshal = λ b. some ask }

abbrev replies : Json Response
replies = record { marshal = λ r. r.id; unmarshal = λ b. none }

abbrev updates : Json Update
updates = record { marshal = λ u. u.name; unmarshal = λ b. none }

abbrev scene : Scene
scene = record {
  cached = λ k. none;
  upstream = λ n t. answered two_ips;
  pack_error = λ m. [];
  now = pos 5;
}

abbrev outcome : List Bytes × List Command
outcome = process lib requests replies updates server scene [] (ascii "0-1") (some (ascii "{}"))

process-AnswersOnce_example :
    (IsForeign lib requests replies updates (some (ascii "{}"))
      × (outcome ≡ ([], ack (ascii "0-1") ∷ [])))
    ⊎ ((payload : Bytes) × (req : Request) × (some (ascii "{}") ≡ some payload)
        × (requests.unmarshal payload ≡ some req)
        × Counted (count_member lib req.name req.qtype) [] outcome.0
        × AnswersOnce lib requests replies updates req (ascii "0-1") outcome.1)
process-AnswersOnce_example =
    process-AnswersOnce lib requests replies updates server scene [] (ascii "0-1")
      (some (ascii "{}"))

cache-IsCached_example :
    (HasCeiling server two_ips (cache_ceiling server two_ips)
      × (cache_ceiling server two_ips ≤ℤ pos 0)
      × (cache server name 1 (7 ∷ []) two_ips ≡ (pos 0, [])))
    ⊎ IsCached server name 1
        (7 ∷ [])
        two_ips
        (cache_ceiling server two_ips)
        (cache server name 1 (7 ∷ []) two_ips)
cache-IsCached_example = cache-IsCached server name 1 (7 ∷ []) two_ips

open_ceiling : pos 0 <ℤ cache_ceiling server zero_ttl
unfolding cache_ceiling
open_ceiling = omega arith

zero_ttl_is_cached_example : cache server name 1 (7 ∷ []) zero_ttl ≡ (
  cache_ceiling server zero_ttl,
  store (cache_key name 1) (7 ∷ []) (cache_ceiling server zero_ttl) ∷ [],
)
zero_ttl_is_cached_example =
    zero_ttl_is_cached server name 1 (7 ∷ []) zero_ttl (refl, tt) open_ceiling

-- Counting and prefetching.
named_type : IsNamedType lib 1
named_type = record { reads_back = refl; no_bar = (omega arith, tt); not_empty = refl }

abbrev ranking : List Bytes
ranking = ascii "a.|A" ∷ ascii "junk" ∷ ascii "b.|A" ∷ []

abbrev planned : Map ℤ
planned = insert (dyn_key lib (ascii "b.|A")) (pos 9) empty

abbrev ttl : ℕ
ttl = 300000000000

abbrev delay : ℤ
delay = prefetch_next_delay (pos ttl) (pos 60000000000)

abbrev ticks : List Tick
ticks = member (ascii "a") ∷ tick ∷ tick ∷ member (ascii "b") ∷ []

run_counter_loses_none_example :
    (concat (run_counter start ticks).flushed ≡ received ticks)
    × ((run_counter start ticks).batch ≡ [])
    × All (λ b. (0 < length b) × (length b ≤ batch_size)) (run_counter start ticks).flushed
run_counter_loses_none_example = run_counter_loses_none ticks
