-- ===== src/Client/Local.antt =====
-- internal/client/client.go: the local cache, `localGet`, `localSet` and the part of `SwapRedis`
-- that clears it. Times are in nanoseconds.
pub mod Freshness
pub mod Versions
use redis_dns.Prelude.{ℕ, ◌*◌, Bool, Option, none, some, if◌then◌else◌, ltb, List, [], ◌∷◌}
use redis_dns.Prelude.Bytes.{Bytes, Map, empty, insert, erase}
use redis_dns.Prelude.Int.{ℤ, pos, ltb_ℤ, ◌+ℤ◌}
use redis_dns.Dns.{Msg}
use redis_dns.Resolver.Ttl.{min_ttl}

pub record LocalEntry : Type 0 where
  pub wire : Bytes
  pub expire : ℤ
  pub resolved_at : ℤ

-- `Client.local`
abbrev pub Local : Type 0
Local = Map LocalEntry

abbrev pub second : ℕ
second = 1000000000

unfoldable pub local_get : Local → ℤ → Bytes → Local × Option Bytes
local_get m now key = elim (m key) [
  | none ↦ (m, none)
  | some e ↦ if ltb_ℤ e.expire now then (erase key m, none) else (m, some e.wire)
]

-- What happens to the cache, in the order in which its lock is taken. A lookup that finds an
-- expired entry takes the lock twice; `get` is one with nothing in between, and `evict` is the
-- second half of one that another goroutine came between.
pub data Op : Type 0 where
  get : ℤ → Bytes → Op
  evict : Bytes → Op
  set : ℤ → Bytes → Bytes → ℤ → Op
  swap : Op

-- `unpack` is `dns.Msg.Unpack`, and `local_ttl` the fallback.
module _ (unpack : Bytes → Option Msg) (local_ttl : ℤ) where
  -- The lifetime at the top of `localSet`. A uint32 of seconds always fits in a duration.
  unfoldable pub lifetime : Bytes → ℤ
  lifetime wire = elim (unpack wire) [
    | none ↦ local_ttl
    | some m ↦ if ltb 0 (min_ttl m) then pos (min_ttl m * second) else local_ttl
  ]

  unfoldable pub local_set : Local → ℤ → Bytes → Bytes → ℤ → Local
  local_set m now key wire resolved_at =
      let fresh : LocalEntry = record {
        wire = wire;
        expire = now +ℤ lifetime wire;
        resolved_at = resolved_at;
      } in
      elim (m key) [
        | none ↦ insert key fresh m
        | some e ↦ if ltb_ℤ resolved_at e.resolved_at then m else insert key fresh m
      ]

  unfoldable pub apply : Local → Op → Local
  apply m (get now key) = (local_get m now key).0
  apply m (evict key) = erase key m
  apply m (set now key wire resolved_at) = local_set m now key wire resolved_at
  apply m swap = empty

  unfoldable pub run : Local → List Op → Local
  run m [] = m
  run m (op ∷ ops) = run (apply m op) ops
