-- ===== src/Server/Stats/Counting.antt =====
-- internal/server/stats.go: the counter loses nothing that it has received.
use redis_dns.Prelude.{
  ◌≤◌, ◌<◌, ◌≡◌, refl, sym, ◌⊎◌, inl, inr, ◌∙◌, ap, List, [], ◌∷◌, ◌++◌, arith, length,
  length-append, Bool-cases, leb, All, All-append,
}
use mathlib.Core.List.{append_assoc, append-nil}
use redis_dns.Prelude.Bytes.{Bytes}
use redis_dns.Server.Stats.{
  Counter, Tick, member, tick, flush_batch, count_step, run_counter, count_query, count_queue_size,
  batch_size,
}

-- What is received, in order.
abbrev pub received : List Tick → List Bytes
received [] = []
received (member m ∷ ts) = m ∷ received ts
received (tick ∷ ts) = received ts

abbrev pub concat : List (List Bytes) → List Bytes
concat [] = []
concat (b ∷ bs) = b ++ concat bs

-- What the counter holds, flushed or not.
abbrev total : Counter → List Bytes
total c = concat c.flushed ++ c.batch

concat-append : (xs ys : List (List Bytes)) → concat (xs ++ ys) ≡ concat xs ++ concat ys
concat-append [] ys = refl
concat-append (x ∷ xs) ys = rw (concat-append xs ys) (sym (append_assoc x (concat xs) (concat ys)))

-- A flush empties the batch and keeps what the counter holds, in order.
flush_batch-total :
    (b : List Bytes) (fl : List (List Bytes)) → total (flush_batch b fl) ≡ concat fl ++ b
unfolding flush_batch
flush_batch-total [] fl = refl
flush_batch-total (m ∷ ms) fl =
    append-nil _
    ∙ concat-append fl ((m ∷ ms) ∷ [])
    ∙ ap (λ (x : List Bytes). concat fl ++ x) (append-nil (m ∷ ms))

flush_batch-batch : (b : List Bytes) (fl : List (List Bytes)) → (flush_batch b fl).batch ≡ []
unfolding flush_batch
flush_batch-batch [] fl = refl
flush_batch-batch (m ∷ ms) fl = refl

-- No batch that is flushed is empty or larger than the size at which a batch is flushed.
abbrev IsBatch : List Bytes → Type 0
IsBatch b = (0 < length b) × (length b ≤ batch_size)

record IsCounting (c : Counter) : Type 0 where
  small : length c.batch < batch_size
  batches : All IsBatch c.flushed

flush_batch-IsCounting :
    (b : List Bytes) (fl : List (List Bytes))
    → length b ≤ batch_size
    → All IsBatch fl
    → IsCounting (flush_batch b fl)
unfolding flush_batch
flush_batch-IsCounting [] fl h k = record { small = omega arith; batches = k }
flush_batch-IsCounting (m ∷ ms) fl h k = record {
  small = omega arith;
  batches = All-append IsBatch fl ((m ∷ ms) ∷ []) k ((omega arith, h), tt);
}

count_step-total : (c : Counter) (t : Tick) → total (count_step c t) ≡ total c ++ received (t ∷ [])
unfolding count_step
count_step-total c (member m) = elim (Bool-cases (leb batch_size (length (c.batch ++ m ∷ [])))) [
  | inl full ↦ rw full (
      flush_batch-total (c.batch ++ m ∷ []) c.flushed
      ∙ sym (append_assoc (concat c.flushed) c.batch (m ∷ [])))
  | inr room ↦ rw room (sym (append_assoc (concat c.flushed) c.batch (m ∷ [])))
]
count_step-total c tick = flush_batch-total c.batch c.flushed ∙ sym (append-nil (total c))

count_step-IsCounting : (c : Counter) (t : Tick) → IsCounting c → IsCounting (count_step c t)
unfolding count_step
count_step-IsCounting c (member m) h =
    elim (Bool-cases (leb batch_size (length (c.batch ++ m ∷ [])))) [
      | inl full ↦ rw full (
          flush_batch-IsCounting (c.batch ++ m ∷ []) c.flushed
            (omega (arith, length-append c.batch (m ∷ []), h.small)) h.batches)
      | inr room ↦ rw room (record { small = ground arith; batches = h.batches })
    ]
count_step-IsCounting c tick h =
    flush_batch-IsCounting c.batch c.flushed (omega (arith, h.small)) h.batches

received-cons : (t : Tick) (ts : List Tick) → received (t ∷ []) ++ received ts ≡ received (t ∷ ts)
received-cons (member m) ts = refl
received-cons tick ts = refl

run_counter-total :
    (c : Counter) (ts : List Tick) → total (run_counter c ts) ≡ total c ++ received ts
unfolding run_counter
run_counter-total c [] = flush_batch-total c.batch c.flushed ∙ sym (append-nil (total c))
run_counter-total c (t ∷ ts) =
    run_counter-total (count_step c t) ts
    ∙ ap (λ (x : List Bytes). x ++ received ts) (count_step-total c t)
    ∙ append_assoc (total c) (received (t ∷ [])) (received ts)
    ∙ ap (λ (x : List Bytes). total c ++ x) (received-cons t ts)

run_counter-IsCounting :
    (c : Counter) (ts : List Tick)
    → IsCounting c
    → IsCounting (run_counter c ts) × ((run_counter c ts).batch ≡ [])
unfolding run_counter
run_counter-IsCounting c [] h = (
  flush_batch-IsCounting c.batch c.flushed (omega (arith, h.small)) h.batches,
  flush_batch-batch c.batch c.flushed,
)
run_counter-IsCounting c (t ∷ ts) h =
    run_counter-IsCounting (count_step c t) ts (count_step-IsCounting c t h)

abbrev pub start : Counter
start = record { batch = []; flushed = [] }

-- On shutdown every member that the counter received has been flushed exactly once and in order,
-- whatever the ticks in between; no flush was empty, and none held more than 256 members.
pub run_counter_loses_none :
    (ts : List Tick)
    → let c = run_counter start ts in
      (concat c.flushed ≡ received ts)
      × (c.batch ≡ [])
      × All (λ b. (0 < length b) × (length b ≤ batch_size)) c.flushed
run_counter_loses_none ts =
    let (counting, empty) =
      run_counter-IsCounting start ts (record { small = omega arith; batches = tt }) in
    (
      sym (append-nil _)
          ∙ ap (λ (b : List Bytes). concat (run_counter start ts).flushed ++ b) (sym empty)
          ∙ run_counter-total start ts,
      empty,
      counting.batches,
    )

-- The queue between the query path and the counter is never longer than its size, and a full
-- queue drops the new member and nothing else.
pub count_query_bounded :
    (m : Bytes) (queue : List Bytes)
    → length queue ≤ count_queue_size
    → (length (count_query m queue) ≤ count_queue_size)
      × (((length queue < count_queue_size) × (count_query m queue ≡ queue ++ m ∷ []))
          ⊎ ((length queue ≡ count_queue_size) × (count_query m queue ≡ queue)))
unfolding count_query
count_query_bounded m queue h = ground (arith, length-append queue (m ∷ []))
