-- ===== src/Resolver/Race/Winner.antt =====
-- internal/resolver/race.go: who wins in `pickWinner`.
use redis_dns.Prelude.{
  ◌≡◌, refl, ◌⊎◌, inl, inr, sym, Bool, true, List, [], ◌∷◌, Option, none, some, arith, Any, All,
  ◌∙◌, subst,
}
use redis_dns.Prelude.Int.{ℤ}
use redis_dns.Net.{Ip}
use redis_dns.Resolver.Race.{
  RaceConfig, Race, TcpResult, IcmpResult, Event, Verdict, tcp, icmp, deadline, done, stop, go,
  init, tcp_win, icmp_win, no_winner, terminal, receive, run, pick_winner,
}
use redis_dns.Resolver.Race.Trace.{round, run-go, run-stop, run-terminal}

-- A verdict by a successful probe.
abbrev pub WonBy : Verdict → Event → Type 0
WonBy v (tcp r) = (r.good ≡ true) × (v ≡ tcp_win r)
WonBy v (icmp p) = (p.good ≡ true) × (v ≡ icmp_win p)
WonBy v deadline = ⊥
WonBy v done = ⊥

-- A verdict that the state holds, or none.
abbrev Held : Race → Verdict → Type 0
Held s v =
    (v ≡ no_winner)
    ⊎ ((r : TcpResult) × (s.fallback ≡ some r) × (v ≡ tcp_win r))
    ⊎ ((p : IcmpResult) × (s.best_icmp ≡ some p) × (v ≡ icmp_win p))

-- The same with the two held results named.
abbrev HeldOf : Option TcpResult → Option IcmpResult → Verdict → Type 0
HeldOf none none v = v ≡ no_winner
HeldOf none (some p) v = (v ≡ no_winner) ⊎ (v ≡ icmp_win p)
HeldOf (some r) none v = (v ≡ no_winner) ⊎ (v ≡ tcp_win r)
HeldOf (some r) (some p) v = (v ≡ no_winner) ⊎ (v ≡ tcp_win r) ⊎ (v ≡ icmp_win p)

HeldOf-Held :
    (s : Race) (f : Option TcpResult) (b : Option IcmpResult) (v : Verdict)
    → s.fallback ≡ f
    → s.best_icmp ≡ b
    → HeldOf f b v
    → Held s v
HeldOf-Held s none none v ef eb h = inl h
HeldOf-Held s none (some p) v ef eb (inl h) = inl h
HeldOf-Held s none (some p) v ef eb (inr h) = inr (inr (p, eb, h))
HeldOf-Held s (some r) none v ef eb (inl h) = inl h
HeldOf-Held s (some r) none v ef eb (inr h) = inr (inl (r, ef, h))
HeldOf-Held s (some r) (some p) v ef eb (inl h) = inl h
HeldOf-Held s (some r) (some p) v ef eb (inr (inl h)) = inr (inl (r, ef, h))
HeldOf-Held s (some r) (some p) v ef eb (inr (inr h)) = inr (inr (p, eb, h))

terminal-HeldOf : (s : Race) (v : Verdict) → terminal s ≡ some v → HeldOf s.fallback s.best_icmp v
unfolding terminal
terminal-HeldOf s v h = ground arith

terminal-Held : (s : Race) (v : Verdict) → terminal s ≡ some v → Held s v
terminal-Held s v h = HeldOf-Held s s.fallback s.best_icmp v refl refl (terminal-HeldOf s v h)

stop-HeldOf :
    (s : Race) (e : Event) (v : Verdict)
    → receive e s ≡ stop v
    → HeldOf s.fallback s.best_icmp v ⊎ WonBy v e
unfolding receive
stop-HeldOf s (tcp r) v h = ground arith
stop-HeldOf s (icmp p) v h = ground arith
stop-HeldOf s deadline v h = ground arith
stop-HeldOf s done v h = ground arith

-- A verdict is held by the state, or won by the event at hand.
stop-Held : (s : Race) (e : Event) (v : Verdict) → receive e s ≡ stop v → Held s v ⊎ WonBy v e
stop-Held s e v h = elim (stop-HeldOf s e v h) [
  | inl held ↦ inl (HeldOf-Held s s.fallback s.best_icmp v refl refl held)
  | inr won ↦ inr won
]

-- What a state holds was held before, or has just come in.
go-tcp :
    (s t : Race) (r : TcpResult)
    → receive (tcp r) s ≡ go t
    → (t.best_icmp ≡ s.best_icmp)
      × ((t.fallback ≡ s.fallback) ⊎ ((r.good ≡ true) × (t.fallback ≡ some r)))
unfolding receive
go-tcp s t r h = ground arith

go-icmp :
    (s t : Race) (p : IcmpResult)
    → receive (icmp p) s ≡ go t
    → (t.fallback ≡ s.fallback)
      × ((t.best_icmp ≡ s.best_icmp) ⊎ ((p.good ≡ true) × (t.best_icmp ≡ some p)))
unfolding receive
go-icmp s t p h = ground arith

go-deadline :
    (s t : Race)
    → receive deadline s ≡ go t
    → (t.fallback ≡ s.fallback) × (t.best_icmp ≡ s.best_icmp)
unfolding receive
go-deadline s t h = ground arith

-- `P` holds of every verdict that the state could still give, and of what an event could give.
record Backed (P : Verdict → Type 0) (s : Race) : Type 0 where
  by_tcp : (r : TcpResult) → s.fallback ≡ some r → P (tcp_win r)
  by_icmp : (p : IcmpResult) → s.best_icmp ≡ some p → P (icmp_win p)

abbrev pub Backs : (Verdict → Type 0) → Event → Type 0
Backs P (tcp r) = r.good ≡ true → P (tcp_win r)
Backs P (icmp p) = p.good ≡ true → P (icmp_win p)
Backs P deadline = Unit
Backs P done = Unit

module _ (P : Verdict → Type 0) where
  Backed-keep :
      (s t : Race) → t.fallback ≡ s.fallback → t.best_icmp ≡ s.best_icmp → Backed P s → Backed P t
  Backed-keep s t f b k = record {
    by_tcp = λ r e. k.by_tcp r (sym f ∙ e);
    by_icmp = λ p e. k.by_icmp p (sym b ∙ e);
  }

  Backed-go : (s t : Race) (e : Event) → receive e s ≡ go t → Backs P e → Backed P s → Backed P t
  Backed-go s t (tcp r) h new k =
      let (b, f) = go-tcp s t r h in
      record {
        by_tcp = λ r' e. elim f [
          | inl old ↦ k.by_tcp r' (sym old ∙ e)
          | inr (good, now) ↦ subst (λ o. P (tcp_win o)) (ground arith) (new good)
        ];
        by_icmp = λ p e. k.by_icmp p (sym b ∙ e);
      }
  Backed-go s t (icmp p) h new k =
      let (f, b) = go-icmp s t p h in
      record {
        by_tcp = λ r e. k.by_tcp r (sym f ∙ e);
        by_icmp = λ p' e. elim b [
          | inl old ↦ k.by_icmp p' (sym old ∙ e)
          | inr (good, now) ↦ subst (λ o. P (icmp_win o)) (ground arith) (new good)
        ];
      }
  Backed-go s t deadline h new k = let (f, b) = go-deadline s t h in Backed-keep s t f b k
  Backed-go s t done h new k = absurd (unfold receive in ground arith)

  abbrev Fair : Verdict → Type 0
  Fair v = (v ≡ no_winner) ⊎ P v

  Held-Fair : (s : Race) (v : Verdict) → Backed P s → Held s v → Fair v
  Held-Fair s v k (inl h) = inl h
  Held-Fair s v k (inr (inl (r, e, h))) = inr (rw h (k.by_tcp r e))
  Held-Fair s v k (inr (inr (p, e, h))) = inr (rw h (k.by_icmp p e))

  WonBy-Fair : (e : Event) (v : Verdict) → Backs P e → WonBy v e → Fair v
  WonBy-Fair (tcp r) v new (good, h) = inr (rw h (new good))
  WonBy-Fair (icmp p) v new (good, h) = inr (rw h (new good))
  WonBy-Fair deadline v new w = elim w [ ]
  WonBy-Fair done v new w = elim w [ ]

  run-Fair :
      (s : Race) (es : List Event) (v : Verdict)
      → Backed P s
      → All (Backs P) es
      → run s es ≡ some v
      → Fair v
  run-Fair s [] v k b h = Held-Fair s v k (terminal-Held s v (unfold run in h))
  run-Fair s (e ∷ es) v k b h = elim (round s e) [
    | inl (w, now) ↦
        Held-Fair s v k (terminal-Held s v (ground (arith, run-terminal s (e ∷ es) w now)))
    | inr (inl (w, on, at)) ↦
        let same : w ≡ v = ground (arith, run-stop s e es w on at) in
        elim (stop-Held s e v (ground arith)) [
          | inl held ↦ Held-Fair s v k held
          | inr won ↦ WonBy-Fair e v b.0 won
        ]
    | inr (inr (t, on, at)) ↦
        run-Fair t es v (Backed-go s t e at b.0 k) b.1 (sym (run-go s t e es on at) ∙ h)
  ]

init-Backed :
    (P : Verdict → Type 0) (ips : List Ip) (ports : List ℤ) (ping : Bool)
    → Backed P (init ips ports ping)
unfolding init
init-Backed P ips ports ping = record { by_tcp = λ r e. absurd (cc); by_icmp = λ p e. absurd (cc) }

-- Each event gives no verdict but its own.
Backs-WonBy :
    (Q : Verdict → Type 0) (es : List Event)
    → ((v : Verdict) → Any (WonBy v) es → Q v)
    → All (Backs Q) es
Backs-WonBy Q [] f = tt
Backs-WonBy Q (tcp r ∷ es) f =
    (λ good. f (tcp_win r) (inl (good, refl)), Backs-WonBy Q es (λ v m. f v (inr m)))
Backs-WonBy Q (icmp p ∷ es) f =
    (λ good. f (icmp_win p) (inl (good, refl)), Backs-WonBy Q es (λ v m. f v (inr m)))
Backs-WonBy Q (deadline ∷ es) f = (tt, Backs-WonBy Q es (λ v m. f v (inr m)))
Backs-WonBy Q (done ∷ es) f = (tt, Backs-WonBy Q es (λ v m. f v (inr m)))

-- A race is won by a probe that succeeded: a verdict is no winner, or it is the address, the way
-- and the round trip of a probe among the reports that reported success.
pub winner_reported :
    (ips : List Ip) (cfg : RaceConfig) (es : List Event) (v : Verdict)
    → pick_winner ips cfg es ≡ some v
    → (v ≡ no_winner) ⊎ Any (WonBy v) es
unfolding pick_winner
winner_reported ips cfg es v h =
    run-Fair (λ w. Any (WonBy w) es) (init ips cfg.ports cfg.has_ping) es v
      (init-Backed _ ips cfg.ports cfg.has_ping) (Backs-WonBy _ es (λ w m. m)) h
