-- ===== src/Resolver/Race/Progress.antt =====
-- internal/resolver/race.go: `pickWinner` returns, whatever order the probes report in.
use redis_dns.Prelude.{
  ℕ, suc, ◌*◌, ◌≤◌, ◌≡◌, ◌⊎◌, inl, inr, Bool, true, List, [], ◌∷◌, some, arith, Any, length,
  if◌then◌else◌, ◌∙◌, Option-cases,
}
use redis_dns.Prelude.Int.{ℤ, ◌≤ℤ◌, ◌<ℤ◌, pos}
use redis_dns.Net.{Ip}
use redis_dns.Resolver.Race.{
  RaceConfig, Race, Event, Verdict, tcp, icmp, deadline, done, go, init, race_budget, tcp_window,
  terminal, receive, run, pick_winner,
}
use redis_dns.Resolver.Race.Trace.{round, run-go, run-stop, run-terminal}

-- How many TCP and ICMP probes report in a row of events.
pub tcp_count : List Event → ℕ
tcp_count [] = 0
tcp_count (tcp r ∷ es) = suc (tcp_count es)
tcp_count (_ ∷ es) = tcp_count es

pub icmp_count : List Event → ℕ
icmp_count [] = 0
icmp_count (icmp p ∷ es) = suc (icmp_count es)
icmp_count (_ ∷ es) = icmp_count es

-- With no probe out the loop returns.
none_pending :
    (s : Race) → s.tcp_pending ≡ 0 → s.icmp_pending ≡ 0 → (v : Verdict) × (terminal s ≡ some v)
unfolding terminal
none_pending s h k = elim (Option-cases (terminal s)) [
  | inr (v, e) ↦ (v, e)
  | inl e ↦ absurd (ground arith)
]

-- Each report takes one off its count, and nothing else does.
receive-pending :
    (s t : Race) (e : Event) (es : List Event)
    → receive e s ≡ go t
    → s.tcp_pending ≤ tcp_count (e ∷ es)
    → s.icmp_pending ≤ icmp_count (e ∷ es)
    → (t.tcp_pending ≤ tcp_count es) × (t.icmp_pending ≤ icmp_count es)
unfolding receive tcp_count icmp_count
receive-pending s t (tcp r) es h a b = ground arith
receive-pending s t (icmp p) es h a b = ground arith
receive-pending s t deadline es h a b = ground arith
receive-pending s t done es h a b = ground arith

run_all_reported :
    (s : Race) (es : List Event)
    → s.tcp_pending ≤ tcp_count es
    → s.icmp_pending ≤ icmp_count es
    → (v : Verdict) × (run s es ≡ some v)
run_all_reported s [] a b =
    let (v, h) =
      none_pending s (unfold tcp_count in omega arith) (unfold icmp_count in omega arith) in
    (v, run-terminal s [] v h)
run_all_reported s (e ∷ es) a b = elim (round s e) [
  | inl (v, now) ↦ (v, run-terminal s (e ∷ es) v now)
  | inr (inl (v, on, h)) ↦ (v, run-stop s e es v on h)
  | inr (inr (t, on, h)) ↦
      let (a', b') = receive-pending s t e es h a b in
      let (v, k) = run_all_reported t es a' b' in (v, run-go s t e es on h ∙ k)
]

run_done :
    (s : Race) (es : List Event) → Any (λ e. e ≡ done) es → (v : Verdict) × (run s es ≡ some v)
run_done s [] m = elim m [ ]
run_done s (e ∷ es) m = elim (round s e) [
  | inl (v, now) ↦ (v, run-terminal s (e ∷ es) v now)
  | inr (inl (v, on, h)) ↦ (v, run-stop s e es v on h)
  | inr (inr (t, on, h)) ↦ elim m [
    | inl here ↦ absurd (unfold receive in ground arith)
    | inr later ↦ let (v, k) = run_done t es later in (v, run-go s t e es on h ∙ k)
  ]
]

-- The race always ends with a verdict: if the budget runs out at some point, or if each of the
-- TCP dials (one for an address and a port) and of the pings (one for an address, with pinging on)
-- has reported, in whatever order the reports and the deadline arrive.
pub pick_winner_returns :
    (ips : List Ip) (cfg : RaceConfig) (es : List Event)
    → Any (λ e. e ≡ done) es
      ⊎ ((length ips * length cfg.ports ≤ tcp_count es)
          × ((if cfg.has_ping then length ips else 0) ≤ icmp_count es))
    → (v : Verdict) × (pick_winner ips cfg es ≡ some v)
unfolding pick_winner init
pick_winner_returns ips cfg es (inl m) = run_done (init ips cfg.ports cfg.has_ping) es m
pick_winner_returns ips cfg es (inr (a, b)) =
    run_all_reported (init ips cfg.ports cfg.has_ping) es a b

-- The budget is positive, and the window of the TCP probes ends within it; with pinging on it
-- ends before the budget does, so that ICMP still gets its turn.
tcp_window_bounds :
    (timeout tcp_deadline : ℤ) (has_ping : Bool)
    → let budget = race_budget timeout in
      let window = tcp_window budget tcp_deadline has_ping in
      (pos 0 <ℤ budget)
      × (pos 0 ≤ℤ window)
      × (window ≤ℤ budget)
      × (has_ping ≡ true → window <ℤ budget)
unfolding race_budget tcp_window
tcp_window_bounds timeout tcp_deadline has_ping = ground arith
