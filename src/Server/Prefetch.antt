-- ===== src/Server/Prefetch.antt =====
-- internal/server/server.go: `prefetchSweep` and `prefetchDynamic`; Ranking has the decay. A
-- sweep is run against what Redis, the upstream and the clock say; times are in nanoseconds.
pub mod Spacing
pub mod Dynamic
pub mod Fixed
pub mod Rounds
use redis_dns.Prelude.{
  ℕ, Bool, true, false, ◌||◌, List, [], ◌∷◌, ◌++◌, Option, none, some, if◌then◌else◌,
}
use redis_dns.Prelude.Bytes.{Bytes, Map, insert, to_lower}
use redis_dns.Prelude.Decimal.{parse_int}
use redis_dns.Prelude.Int.{ℤ, pos, nonpos, quot, ◌+ℤ◌, ◌*64◌}
use redis_dns.Dns.{Msg, DnsLib, type_a}
use redis_dns.Proto.{Request, Response, Update, Json}
use redis_dns.Server.{Server}
use redis_dns.Server.Stats.{parse_member, dyn_key, is_scheduled, due_dynamic, prefetch_next_delay}
use redis_dns.Server.Handle.{Command, Resolved, answered, failed, cache, announce, second}

-- `trim` is `strings.TrimSpace`. `top` is what the ranking returns, highest first, with `none` for
-- an error. The clock is read where the code reads it: when a fixed domain is looked at, once for
-- all ranked members, when an answer is stamped, and when the next refresh is set; the names in
-- these are the fields of the hash and the members of the ranking.
pub record Sweep : Type 0 where
  pub trim : Bytes → Bytes
  pub domains : Option (List (Bytes × Bytes))
  pub top : Option (List Bytes)
  pub upstream : Bytes → ℕ → Resolved
  pub looked_at : Bytes → ℤ
  pub ranked_at : ℤ
  pub stamped : Bytes → ℤ
  pub finished : Bytes → ℤ

-- The map `next`, and what was sent so far.
pub record Progress : Type 0 where
  pub next : Map ℤ
  pub sent : List Command

-- What a refresh of one name comes to: the TTL that `cache` returned, and what was sent.
pub data Refresh : Type 0 where
  not_resolved : Refresh
  not_packed : Refresh
  refreshed : ℤ → List Command → Refresh

-- The interval of a fixed domain in seconds; `Seconds` of a whole number of seconds is exact.
unfoldable pub interval_of : Server → Sweep → Bytes → ℤ
interval_of s sweep text = elim (parse_int (sweep.trim text)) [
  | none ↦ quot s.prefetch second
  | some n ↦ if nonpos n then quot s.prefetch second else n
]

module _ (lib : DnsLib) (requests : Json Request) (responses : Json Response)
    (updates : Json Update) where
  open lib use {fqdn, pack}

  unfoldable pub refresh : Server → Sweep → Bytes → Bytes → ℕ → Refresh
  refresh s sweep key name qtype = elim (sweep.upstream name qtype) [
    | failed e ↦ not_resolved
    | answered m ↦ elim (pack m) [
      | none ↦ not_packed
      | some wire ↦
          let (ttl, stored) = cache s name qtype wire m in
          refreshed ttl (
            stored ++ announce lib requests responses updates name qtype wire m (sweep.stamped key))
    ]
  ]

  -- A turn of the loop over the fixed domains.
  unfoldable pub prefetch_domain : Server → Sweep → Progress → Bytes × Bytes → Progress
  prefetch_domain s sweep p (domain, text) =
      let name = to_lower (fqdn domain) in
      if is_scheduled lib (p.next name) (sweep.looked_at domain)
      then p
      else elim (refresh s sweep domain name type_a) [
        | not_resolved ↦ p
        | not_packed ↦ p
        | refreshed ttl sent ↦ record {
          next =
              insert name (sweep.finished domain +ℤ (interval_of s sweep text *64 second)) p.next;
          sent = p.sent ++ sent;
        }
      ]

  unfoldable pub prefetch_domains : Server → Sweep → Progress → List (Bytes × Bytes) → Progress
  prefetch_domains s sweep p [] = p
  prefetch_domains s sweep p (d ∷ ds) = prefetch_domains s sweep (prefetch_domain s sweep p d) ds

  -- A turn of the loop over the ranked members that are due.
  unfoldable pub prefetch_member : Server → Sweep → Progress → Bytes → Progress
  prefetch_member s sweep p m = elim (parse_member lib m) [
    | none ↦ p
    | some (name, qtype) ↦ elim (refresh s sweep m name qtype) [
      | not_resolved ↦ record p {
        next = insert (dyn_key lib m) (sweep.finished m +ℤ s.prefetch) p.next;
      }
      | not_packed ↦ p
      | refreshed ttl sent ↦ record {
        next =
            insert (dyn_key lib m) (sweep.finished m +ℤ prefetch_next_delay ttl s.prefetch) p.next;
        sent = p.sent ++ sent;
      }
    ]
  ]

  unfoldable pub prefetch_members : Server → Sweep → Progress → List Bytes → Progress
  prefetch_members s sweep p [] = p
  prefetch_members s sweep p (m ∷ ms) = prefetch_members s sweep (prefetch_member s sweep p m) ms

  unfoldable pub prefetch_dynamic : Server → Sweep → Progress → Progress
  prefetch_dynamic s sweep p = if nonpos s.top_n then p else elim sweep.top [
    | none ↦ p
    | some top ↦ prefetch_members s sweep p (due_dynamic lib top p.next sweep.ranked_at)
  ]

  unfoldable pub prefetch_sweep : Server → Sweep → Map ℤ → Progress
  prefetch_sweep s sweep next = elim sweep.domains [
    | none ↦ record { next = next; sent = [] }
    | some ds ↦
        prefetch_dynamic s sweep (prefetch_domains s sweep (record { next = next; sent = [] }) ds)
  ]

  -- The loop of `runPrefetch`: the ticks before the context is over.
  unfoldable pub run_prefetch : Server → Map ℤ → List Sweep → List Progress
  run_prefetch s next [] = []
  run_prefetch s next (sweep ∷ sweeps) =
      let p = prefetch_sweep s sweep next in p ∷ run_prefetch s p.next sweeps
