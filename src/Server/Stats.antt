-- ===== src/Server/Stats.antt =====
-- internal/server/stats.go: query counting, and the schedule of dynamic prefetching. Scores are
-- floating-point numbers there, of which nothing here depends but the order in which Redis
-- returns the members; a scored member is its name.
pub mod Members
pub mod Schedule
pub mod Counting
use redis_dns.Prelude.{
  ℕ, Bool, true, false, not, ◌||◌, List, [], ◌∷◌, ◌++◌, Option, none, some, if◌then◌else◌, ltb, leb,
  length,
}
use redis_dns.Prelude.Bytes.{Bytes, Map, ascii, to_lower, cut_last}
use redis_dns.Prelude.Int.{ℤ, pos, nonpos, ltb_ℤ, quot, ◌*64◌}
use redis_dns.Net.{is_nil}
use redis_dns.Dns.{DnsLib}

abbrev pub hour : ℕ
hour = 3600000000000

-- `countQueueSize`, and the size at which a batch is flushed.
abbrev pub count_queue_size : ℕ
count_queue_size = 4096

abbrev pub batch_size : ℕ
batch_size = 256

module _ (lib : DnsLib) where
  open lib use {fqdn, type_string, string_to_type}

  -- `countMember`
  unfoldable pub count_member : Bytes → ℕ → Bytes
  count_member name qtype = to_lower (fqdn name) ++ b'|' ∷ type_string qtype

  -- `parseMember`: `none` stands for `ok == false`. With the last `|` at the start, or none, there
  -- is no name, and with the last `|` at the end there is no type.
  unfoldable pub parse_member : Bytes → Option (Bytes × ℕ)
  parse_member m = elim (cut_last b'|' m) [
    | none ↦ none
    | some (name, qtype) ↦
        if is_nil name || is_nil qtype
        then none
        else elim (string_to_type qtype) [ none ↦ none | some t ↦ some (name, t) ]
  ]

  -- The key of a dynamic entry in the map `next`.
  abbrev pub dyn_key : Bytes → Bytes
  dyn_key member = ascii "dyn|" ++ member

  -- `ok && now.Before(t)`
  abbrev pub is_scheduled : Option ℤ → ℤ → Bool
  is_scheduled none now = false
  is_scheduled (some t) now = ltb_ℤ now t

  -- Whether the loop of `dueDynamic` appends a member.
  abbrev pub is_due : Map ℤ → ℤ → Bytes → Bool
  is_due next now m = elim (parse_member m) [
    | none ↦ false
    | some _ ↦ not (is_scheduled (next (dyn_key m)) now)
  ]

  unfoldable pub due_dynamic : List Bytes → Map ℤ → ℤ → List Bytes
  due_dynamic [] next now = []
  due_dynamic (m ∷ top) next now =
      if is_due next now m then m ∷ due_dynamic top next now else due_dynamic top next now

-- `prefetchNextDelay`
unfoldable pub prefetch_next_delay : ℤ → ℤ → ℤ
prefetch_next_delay ttl sweep =
    if nonpos ttl
    then sweep
    else let d = quot (ttl *64 4) 5 in
      let d' = (if ltb_ℤ d sweep then sweep else d) in if ltb_ℤ (pos hour) d' then pos hour else d'

-- `countQuery`: a send that does not block, into the queue of `runCounter`.
unfoldable pub count_query : Bytes → List Bytes → List Bytes
count_query member queue =
    if ltb (length queue) count_queue_size then queue ++ member ∷ [] else queue

-- The state of `runCounter`: the batch, and the batches that it has flushed, oldest first.
pub record Counter : Type 0 where
  pub batch : List Bytes
  pub flushed : List (List Bytes)

unfoldable pub flush_batch : List Bytes → List (List Bytes) → Counter
flush_batch [] flushed = record { batch = []; flushed = flushed }
flush_batch (m ∷ ms) flushed = record { batch = []; flushed = flushed ++ (m ∷ ms) ∷ [] }

abbrev pub flush : Counter → Counter
flush c = flush_batch c.batch c.flushed

-- What its `select` receives before the shutdown.
pub data Tick : Type 0 where
  member : Bytes → Tick
  tick : Tick

unfoldable pub count_step : Counter → Tick → Counter
count_step c (member m) =
    let d : Counter = record c { batch = c.batch ++ m ∷ [] } in
    if leb batch_size (length d.batch) then flush d else d
count_step c tick = flush c

-- The loop, up to the flush on shutdown.
unfoldable pub run_counter : Counter → List Tick → Counter
run_counter c [] = flush c
run_counter c (t ∷ ts) = run_counter (count_step c t) ts
