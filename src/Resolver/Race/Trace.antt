-- ===== src/Resolver/Race/Trace.antt =====
-- The loop of `pickWinner` while it runs: the state after a row of events, one step of it, and
-- the counts of the probes that are still out.
use redis_dns.Prelude.{
  ◌≡◌, refl, ◌⊎◌, inl, inr, List, [], ◌∷◌, ◌++◌, Option, none, some, arith, Option-cases, ◌∙◌,
}
use redis_dns.Resolver.Race.{Race, Event, Verdict, Turn, stop, go, terminal, receive, run}

-- The state after all of the events, if the loop has not returned by then.
unfoldable pub after : Race → List Event → Option Race
after s [] = some s
after s (e ∷ es) = elim (terminal s) [
  | some v ↦ none
  | none ↦ elim (receive e s) [ stop v ↦ none | go t ↦ after t es ]
]

Turn-cases : (x : Turn) → ((v : Verdict) × (x ≡ stop v)) ⊎ ((t : Race) × (x ≡ go t))
Turn-cases (stop v) = inl (v, refl)
Turn-cases (go t) = inr (t, refl)

-- One round of the loop: it returns before the event, at the event, or goes on.
abbrev pub Round : Race → Event → Type 0
Round s e =
    ((v : Verdict) × (terminal s ≡ some v))
    ⊎ ((v : Verdict) × (terminal s ≡ none) × (receive e s ≡ stop v))
    ⊎ ((t : Race) × (terminal s ≡ none) × (receive e s ≡ go t))

pub round : (s : Race) (e : Event) → Round s e
round s e = elim (Option-cases (terminal s)) [
  | inr (v, now) ↦ inl (v, now)
  | inl on ↦ elim (Turn-cases (receive e s)) [
    | inl (v, h) ↦ inr (inl (v, on, h))
    | inr (t, h) ↦ inr (inr (t, on, h))
  ]
]

pub run-go :
    (s t : Race) (e : Event) (es : List Event)
    → terminal s ≡ none
    → receive e s ≡ go t
    → run s (e ∷ es) ≡ run t es
unfolding run
run-go s t e es on h = rw (on, run) (rw (h, run))

pub run-stop :
    (s : Race) (e : Event) (es : List Event) (v : Verdict)
    → terminal s ≡ none
    → receive e s ≡ stop v
    → run s (e ∷ es) ≡ some v
unfolding run
run-stop s e es v on h = ground arith

pub run-terminal :
    (s : Race) (es : List Event) (v : Verdict) → terminal s ≡ some v → run s es ≡ some v
unfolding run
run-terminal s [] v h = h
run-terminal s (e ∷ es) v h = ground arith

-- A loop that has not returned after `e ∷ es` went on at `e`.
pub after-go :
    (s t : Race) (e : Event) (es : List Event)
    → after s (e ∷ es) ≡ some t
    → (u : Race) × (terminal s ≡ none) × (receive e s ≡ go u) × (after u es ≡ some t)
unfolding after
after-go s t e es h = elim (round s e) [
  | inl (v, now) ↦ absurd (ground arith)
  | inr (inl (v, on, k)) ↦ absurd (ground arith)
  | inr (inr (u, on, k)) ↦ (u, on, k, ground arith)
]

-- What follows a row of events is run from the state that they lead to.
pub run-after :
    (s t : Race) (es rest : List Event) → after s es ≡ some t → run s (es ++ rest) ≡ run t rest
run-after s t [] rest h = unfold after in ground arith
run-after s t (e ∷ es) rest h =
    let (u, on, k, h') = after-go s t e es h in
    run-go s u e (es ++ rest) on k ∙ run-after u t es rest h'
