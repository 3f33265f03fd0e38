-- ===== src/Resolver/Race/Preference.antt =====
-- internal/resolver/race.go: the order of preference that the head of the file states.
use redis_dns.Prelude.{
  ℕ, ◌≤◌, ◌≡◌, refl, ◌≢◌, inl, inr, ap, sym, true, List, [], ◌∷◌, ◌++◌, Option, none, some, arith,
  Any, All, ◌∙◌, subst, All-map,
}
use redis_dns.Net.{Ip}
use redis_dns.Resolver.Race.{
  RaceConfig, Race, TcpResult, IcmpResult, Event, Verdict, tcp, icmp, deadline, done, stop, init,
  tcp_win, icmp_win, no_winner, terminal, receive, run, pick_winner,
}
use redis_dns.Resolver.Race.Trace.{after, round, run-go, run-stop, run-terminal, run-after}
use redis_dns.Resolver.Race.Fastest.{
  IcmpWithin, TcpBeats, IcmpBeats, after-TcpBeats, after-IcmpBeats, go-IcmpWithin,
}

abbrev pub GoodTcp : Event → Type 0
GoodTcp (tcp r) = r.good ≡ true
GoodTcp _ = ⊥

abbrev pub GoodIcmp : Event → Type 0
GoodIcmp (icmp p) = p.good ≡ true
GoodIcmp _ = ⊥

-- No successful TCP report, or ICMP report, of the event is faster than `n`.
abbrev pub TcpNoFaster : ℕ → Event → Type 0
TcpNoFaster n (tcp r) = r.good ≡ true → n ≤ r.rtt
TcpNoFaster n _ = Unit

abbrev pub IcmpNoFaster : ℕ → Event → Type 0
IcmpNoFaster n (icmp p) = p.good ≡ true → n ≤ p.rtt
IcmpNoFaster n _ = Unit

-- The loop is waiting for its next event after `es`, in the state `t`.
abbrev pub Waits : List Ip → RaceConfig → List Event → Race → Type 0
Waits ips cfg es t = (after (init ips cfg.ports cfg.has_ping) es ≡ some t) × (terminal t ≡ none)

-- While TCP results count, a dial to the first port that succeeds wins at once, whatever has
-- been reported before it and whatever follows.
first_port_wins :
    (ips : List Ip) (cfg : RaceConfig) (es rest : List Event) (t : Race) (r : TcpResult)
    → Waits ips cfg es t
    → t.tcp_live ≡ true
    → r.good ≡ true
    → r.port_idx ≡ 0
    → pick_winner ips cfg (es ++ tcp r ∷ rest) ≡ some (tcp_win r)
unfolding pick_winner
first_port_wins ips cfg es rest t r (h, on) live good first =
    run-after (init ips cfg.ports cfg.has_ping) t es (tcp r ∷ rest) h
    ∙ run-stop t (tcp r) rest (tcp_win r) on (unfold receive in ground arith)

TcpBeats-NoFaster : (r : TcpResult) (e : Event) → TcpBeats (some r) e → TcpNoFaster r.rtt e
TcpBeats-NoFaster r (tcp q) h = h
TcpBeats-NoFaster r (icmp p) h = tt
TcpBeats-NoFaster r deadline h = tt
TcpBeats-NoFaster r done h = tt

IcmpBeats-NoFaster : (p : IcmpResult) (e : Event) → IcmpBeats (some p) e → IcmpNoFaster p.rtt e
IcmpBeats-NoFaster p (icmp q) h = h
IcmpBeats-NoFaster p (tcp r) h = tt
IcmpBeats-NoFaster p deadline h = tt
IcmpBeats-NoFaster p done h = tt

-- Something is held once a success has come in.
tcp_is_held :
    (f : Option TcpResult) (es : List Event)
    → All (TcpBeats f) es
    → Any GoodTcp es
    → (r : TcpResult) × (f ≡ some r)
tcp_is_held (some r) es h m = (r, refl)
tcp_is_held none [] h m = elim m [ ]
tcp_is_held none (tcp r ∷ es) h (inl good) = absurd (h.0 good)
tcp_is_held none (icmp p ∷ es) h (inl good) = elim good [ ]
tcp_is_held none (deadline ∷ es) h (inl good) = elim good [ ]
tcp_is_held none (done ∷ es) h (inl good) = elim good [ ]
tcp_is_held none (e ∷ es) h (inr m) = tcp_is_held none es h.1 m

icmp_is_held :
    (b : Option IcmpResult) (es : List Event)
    → All (IcmpBeats b) es
    → Any GoodIcmp es
    → (p : IcmpResult) × (b ≡ some p)
icmp_is_held (some p) es h m = (p, refl)
icmp_is_held none [] h m = elim m [ ]
icmp_is_held none (icmp p ∷ es) h (inl good) = absurd (h.0 good)
icmp_is_held none (tcp r ∷ es) h (inl good) = elim good [ ]
icmp_is_held none (deadline ∷ es) h (inl good) = elim good [ ]
icmp_is_held none (done ∷ es) h (inl good) = elim good [ ]
icmp_is_held none (e ∷ es) h (inr m) = icmp_is_held none es h.1 m

deadline_tcp :
    (t : Race) (r : TcpResult) (rest : List Event)
    → terminal t ≡ none
    → t.fallback ≡ some r
    → run t (deadline ∷ rest) ≡ some (tcp_win r)
deadline_tcp t r rest on f =
    run-stop t deadline rest (tcp_win r) on (unfold receive in ground arith)

deadline_icmp :
    (t : Race) (p : IcmpResult) (rest : List Event)
    → terminal t ≡ none
    → t.fallback ≡ none
    → t.best_icmp ≡ some p
    → run t (deadline ∷ rest) ≡ some (icmp_win p)
deadline_icmp t p rest on f b =
    run-stop t deadline rest (icmp_win p) on (unfold receive in ground arith)

-- Once the TCP window passes with no first-port success, a TCP success on a later port wins, the
-- fastest of those that came in, even over a faster ping.
deadline_prefers_tcp :
    (ips : List Ip) (cfg : RaceConfig) (es rest : List Event) (t : Race)
    → Waits ips cfg es t
    → t.tcp_live ≡ true
    → Any GoodTcp es
    → (r : TcpResult) × (pick_winner ips cfg (es ++ deadline ∷ rest) ≡ some (tcp_win r))
      × All (TcpNoFaster r.rtt) es
unfolding pick_winner
deadline_prefers_tcp ips cfg es rest t (h, on) live m =
    let s = init ips cfg.ports cfg.has_ping in
    let beats = after-TcpBeats s t es h live in
    let (r, f) = tcp_is_held t.fallback es beats m in
    (
      r,
      run-after s t es (deadline ∷ rest) h ∙ deadline_tcp t r rest on f,
      All-map (TcpBeats t.fallback) (TcpNoFaster r.rtt) es
          (λ e k. TcpBeats-NoFaster r e (subst (λ o. TcpBeats o e) f k)) beats,
    )

-- With no TCP success held when the TCP window passes, the fastest ping reply so far wins.
deadline_falls_back_to_icmp :
    (ips : List Ip) (cfg : RaceConfig) (es rest : List Event) (t : Race)
    → Waits ips cfg es t
    → t.fallback ≡ none
    → Any GoodIcmp es
    → (p : IcmpResult) × (pick_winner ips cfg (es ++ deadline ∷ rest) ≡ some (icmp_win p))
      × All (IcmpNoFaster p.rtt) es
unfolding pick_winner
deadline_falls_back_to_icmp ips cfg es rest t (h, on) f m =
    let s = init ips cfg.ports cfg.has_ping in
    let beats = after-IcmpBeats s t es h in
    let (p, b) = icmp_is_held t.best_icmp es beats m in
    (
      p,
      run-after s t es (deadline ∷ rest) h ∙ deadline_icmp t p rest on f b,
      All-map (IcmpBeats t.best_icmp) (IcmpNoFaster p.rtt) es
          (λ e k. IcmpBeats-NoFaster p e (subst (λ o. IcmpBeats o e) b k)) beats,
    )

-- A verdict with a way of winning is not the empty one.
abbrev IsWin : Verdict → Type 0
IsWin v = v.via ≢ []

tcp_win-IsWin : (r : TcpResult) → IsWin (tcp_win r)
unfolding tcp_win
tcp_win-IsWin r h = cc

icmp_win-IsWin : (p : IcmpResult) → IsWin (icmp_win p)
unfolding icmp_win
icmp_win-IsWin p h = cc

terminal-IsWin :
    (n : ℕ) (s : Race) (v : Verdict) → IcmpWithin n s.best_icmp → terminal s ≡ some v → IsWin v
unfolding terminal tcp_win icmp_win
terminal-IsWin n s v k h = ground arith

stop-IsWin :
    (n : ℕ) (s : Race) (e : Event) (v : Verdict)
    → IcmpWithin n s.best_icmp
    → receive e s ≡ stop v
    → IsWin v
unfolding receive tcp_win icmp_win
stop-IsWin n s (tcp r) v k h = ground arith
stop-IsWin n s (icmp p) v k h = ground arith
stop-IsWin n s deadline v k h = ground arith
stop-IsWin n s done v k h = ground arith

run-IsWin :
    (n : ℕ) (s : Race) (es : List Event) (v : Verdict)
    → IcmpWithin n s.best_icmp
    → run s es ≡ some v
    → IsWin v
run-IsWin n s [] v k h = terminal-IsWin n s v k (unfold run in h)
run-IsWin n s (e ∷ es) v k h = elim (round s e) [
  | inl (w, now) ↦ terminal-IsWin n s v k (now ∙ sym (run-terminal s (e ∷ es) w now) ∙ h)
  | inr (inl (w, on, at)) ↦ stop-IsWin n s e v k (at ∙ ground (arith, run-stop s e es w on at, h))
  | inr (inr (t, on, at)) ↦
      run-IsWin n t es v (go-IcmpWithin n s t e at k) (sym (run-go s t e es on at) ∙ h)
]

-- A race that has seen a ping succeed never comes back empty-handed, whatever follows.
icmp_reply_suffices :
    (ips : List Ip) (cfg : RaceConfig) (es rest : List Event) (t : Race) (v : Verdict)
    → Waits ips cfg es t
    → Any GoodIcmp es
    → pick_winner ips cfg (es ++ rest) ≡ some v
    → v ≢ no_winner
unfolding pick_winner
icmp_reply_suffices ips cfg es rest t v (h, on) m k e =
    let s = init ips cfg.ports cfg.has_ping in
    let (p, b) = icmp_is_held t.best_icmp es (after-IcmpBeats s t es h) m in
    run-IsWin p.rtt t rest v (ground (arith, b)) (sym (run-after s t es rest h) ∙ k)
      (ap (λ (w : Verdict). w.via) e)
