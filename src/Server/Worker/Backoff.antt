-- ===== src/Server/Worker/Backoff.antt =====
-- internal/server/server.go: what the worker's loop comes to, by kind of action.
use redis_dns.Prelude.{
  ℕ, zero, suc, ◌≡◌, refl, ap, ◌∙◌, inl, inr, List, [], ◌∷◌, ◌++◌, Bool-cases, map, if◌then◌else◌,
}
use redis_dns.Prelude.Bytes.{Bytes, ascii, contains}
use redis_dns.Prelude.Int.{ℤ, pos, ◌*64◌}
use redis_dns.Server.Worker.{
  Message, Fetch, cancelled, failed, nil, fetched, Action, create, sleep, start, longer, recover,
  worker_loop, worker, second,
}

-- The actions by kind.
unfoldable pub slept_in : List Action → List ℤ
slept_in [] = []
slept_in (create ∷ as') = slept_in as'
slept_in (sleep d ∷ as') = d ∷ slept_in as'
slept_in (start m ∷ as') = slept_in as'

unfoldable pub started_in : List Action → List Message
started_in [] = []
started_in (create ∷ as') = started_in as'
started_in (sleep d ∷ as') = started_in as'
started_in (start m ∷ as') = m ∷ started_in as'

unfoldable pub creations_in : List Action → ℕ
creations_in [] = 0
creations_in (create ∷ as') = suc (creations_in as')
creations_in (sleep d ∷ as') = creations_in as'
creations_in (start m ∷ as') = creations_in as'

-- The wait after `k` failures in a row before: 1, 2, 4 and from then on 8 seconds.
abbrev pub wait_after : ℕ → ℤ
wait_after zero = pos 1000000000
wait_after (suc zero) = pos 2000000000
wait_after (suc (suc zero)) = pos 4000000000
wait_after (suc (suc (suc k))) = pos 8000000000

-- The waits, messages and lost groups up to the end of the context.
abbrev pub waits_of : ℕ → List Fetch → List ℤ
waits_of k [] = []
waits_of k (cancelled ∷ fs) = []
waits_of k (failed e created ∷ fs) = wait_after k ∷ waits_of (suc k) fs
waits_of k (nil ∷ fs) = waits_of k fs
waits_of k (fetched ms ∷ fs) = waits_of 0 fs

abbrev pub messages_of : List Fetch → List Message
messages_of [] = []
messages_of (cancelled ∷ fs) = []
messages_of (failed e created ∷ fs) = messages_of fs
messages_of (nil ∷ fs) = messages_of fs
messages_of (fetched ms ∷ fs) = ms ++ messages_of fs

abbrev pub lost_groups : List Fetch → ℕ
lost_groups [] = 0
lost_groups (cancelled ∷ fs) = 0
lost_groups (failed e created ∷ fs) =
    if contains e (ascii "NOGROUP") then suc (lost_groups fs) else lost_groups fs
lost_groups (nil ∷ fs) = lost_groups fs
lost_groups (fetched ms ∷ fs) = lost_groups fs

longer_wait : (k : ℕ) → longer (wait_after k) ≡ wait_after (suc k)
unfolding ◌*64◌
longer_wait zero = refl
longer_wait (suc zero) = refl
longer_wait (suc (suc zero)) = refl
longer_wait (suc (suc (suc k))) = refl

-- Messages that are started add nothing else.
starts_only :
    (ms : List Message) (as' : List Action)
    → (slept_in (map start ms ++ as') ≡ slept_in as')
      × (started_in (map start ms ++ as') ≡ ms ++ started_in as')
      × (creations_in (map start ms ++ as') ≡ creations_in as')
unfolding slept_in started_in creations_in
starts_only [] as' = (refl, refl, refl)
starts_only (m ∷ ms) as' =
    let (a, b, c) = starts_only ms as' in (a, ap (λ (x : List Message). m ∷ x) b, c)

recovers :
    (e : Bytes) (d : ℤ) (as' : List Action)
    → (slept_in (recover e ++ sleep d ∷ as') ≡ d ∷ slept_in as')
      × (started_in (recover e ++ sleep d ∷ as') ≡ started_in as')
      × (creations_in (recover e ++ sleep d ∷ as')
          ≡ (if contains e (ascii "NOGROUP") then suc (creations_in as') else creations_in as'))
unfolding slept_in started_in creations_in recover
recovers e d as' = elim (Bool-cases (contains e (ascii "NOGROUP"))) [
  | inl lost ↦ rw lost (refl, refl, refl)
  | inr other ↦ rw other (refl, refl, refl)
]

-- What a loop does, with `k` failures in a row behind it.
abbrev Works : ℕ → List Fetch → List Action → Type 0
Works k fs as' =
    (slept_in as' ≡ waits_of k fs)
    × (started_in as' ≡ messages_of fs)
    × (creations_in as' ≡ lost_groups fs)

worker_loop-Works : (k : ℕ) (fs : List Fetch) → Works k fs (worker_loop (wait_after k) fs)
unfolding worker_loop
worker_loop-Works k [] = unfold slept_in started_in creations_in in (refl, refl, refl)
worker_loop-Works k (cancelled ∷ fs) = unfold slept_in started_in creations_in in (refl, refl, refl)
worker_loop-Works k (nil ∷ fs) = worker_loop-Works k fs
worker_loop-Works k (failed e created ∷ fs) =
    let (a, b, c) = recovers e (wait_after k) (worker_loop (longer (wait_after k)) fs) in
    let (p, q, r) = worker_loop-Works (suc k) fs in
    let grown = longer_wait k in
    (
      a
          ∙ ap (λ (d : ℤ). wait_after k ∷ slept_in (worker_loop d fs)) grown
          ∙ ap (λ (x : List ℤ). wait_after k ∷ x) p,
      b ∙ ap (λ (d : ℤ). started_in (worker_loop d fs)) grown ∙ q,
      c
          ∙ ap (λ (n : ℕ). if contains e (ascii "NOGROUP") then suc n else n)
              (ap (λ (d : ℤ). creations_in (worker_loop d fs)) grown ∙ r),
    )
worker_loop-Works k (fetched ms ∷ fs) =
    let (a, b, c) = starts_only ms (worker_loop (pos second) fs) in
    let (p, q, r) = worker_loop-Works 0 fs in
    (a ∙ p, b ∙ ap (λ (x : List Message). ms ++ x) q, c ∙ r)

-- Until its context is over a worker starts each message that it is given once and in order, and
-- loses none to errors; after each failure it sleeps 1, 2, 4 and from then on 8 seconds, from 1
-- again after a read that brought messages; and it creates the group again after each error that
-- says that the group is gone, and at no other time.
pub worker-Works :
    (fs : List Fetch)
    → (slept_in (worker fs) ≡ waits_of 0 fs)
      × (started_in (worker fs) ≡ messages_of fs)
      × (creations_in (worker fs) ≡ lost_groups fs)
unfolding worker
worker-Works fs = worker_loop-Works 0 fs
