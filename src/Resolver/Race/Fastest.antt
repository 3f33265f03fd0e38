-- ===== src/Resolver/Race/Fastest.antt =====
-- internal/resolver/race.go: what `pickWinner` prefers among the probes that succeed.
use redis_dns.Prelude.{ℕ, ◌≤◌, ◌≡◌, true, List, [], ◌∷◌, Option, none, some, arith, All}
use redis_dns.Resolver.Race.{
  Race, TcpResult, IcmpResult, Event, tcp, icmp, deadline, done, go, receive,
}
use redis_dns.Resolver.Race.Trace.{after, after-go}

-- What is held has a round trip of at most `n`.
abbrev pub TcpWithin : ℕ → Option TcpResult → Type 0
TcpWithin n none = ⊥
TcpWithin n (some r) = r.rtt ≤ n

abbrev pub IcmpWithin : ℕ → Option IcmpResult → Type 0
IcmpWithin n none = ⊥
IcmpWithin n (some p) = p.rtt ≤ n

go-TcpWithin :
    (n : ℕ) (s t : Race) (e : Event)
    → receive e s ≡ go t
    → TcpWithin n s.fallback
    → TcpWithin n t.fallback
unfolding receive
go-TcpWithin n s t (tcp r) h k = ground arith
go-TcpWithin n s t (icmp p) h k = ground arith
go-TcpWithin n s t deadline h k = ground arith
go-TcpWithin n s t done h k = ground arith

pub go-IcmpWithin :
    (n : ℕ) (s t : Race) (e : Event)
    → receive e s ≡ go t
    → IcmpWithin n s.best_icmp
    → IcmpWithin n t.best_icmp
unfolding receive
go-IcmpWithin n s t (tcp r) h k = ground arith
go-IcmpWithin n s t (icmp p) h k = ground arith
go-IcmpWithin n s t deadline h k = ground arith
go-IcmpWithin n s t done h k = ground arith

-- A success is held from its arrival on: a TCP one as long as TCP counts.
new-TcpWithin :
    (s t : Race) (r : TcpResult)
    → receive (tcp r) s ≡ go t
    → s.tcp_live ≡ true
    → r.good ≡ true
    → TcpWithin r.rtt t.fallback
unfolding receive
new-TcpWithin s t r h live good = ground arith

new-IcmpWithin :
    (s t : Race) (p : IcmpResult)
    → receive (icmp p) s ≡ go t
    → p.good ≡ true
    → IcmpWithin p.rtt t.best_icmp
unfolding receive
new-IcmpWithin s t p h good = ground arith

-- TCP does not come back.
go-live : (s t : Race) (e : Event) → receive e s ≡ go t → t.tcp_live ≡ true → s.tcp_live ≡ true
unfolding receive
go-live s t (tcp r) h live = ground arith
go-live s t (icmp p) h live = ground arith
go-live s t deadline h live = ground arith
go-live s t done h live = ground arith

after-TcpWithin :
    (n : ℕ) (s t : Race) (es : List Event)
    → after s es ≡ some t
    → TcpWithin n s.fallback
    → TcpWithin n t.fallback
after-TcpWithin n s t [] h k = unfold after in ground arith
after-TcpWithin n s t (e ∷ es) h k =
    let (u, on, at, h') = after-go s t e es h in
    after-TcpWithin n u t es h' (go-TcpWithin n s u e at k)

after-IcmpWithin :
    (n : ℕ) (s t : Race) (es : List Event)
    → after s es ≡ some t
    → IcmpWithin n s.best_icmp
    → IcmpWithin n t.best_icmp
after-IcmpWithin n s t [] h k = unfold after in ground arith
after-IcmpWithin n s t (e ∷ es) h k =
    let (u, on, at, h') = after-go s t e es h in
    after-IcmpWithin n u t es h' (go-IcmpWithin n s u e at k)

after-live :
    (s t : Race) (es : List Event) → after s es ≡ some t → t.tcp_live ≡ true → s.tcp_live ≡ true
after-live s t [] h live = unfold after in ground arith
after-live s t (e ∷ es) h live =
    let (u, on, at, h') = after-go s t e es h in go-live s u e at (after-live u t es h' live)

-- A state holds something at least as fast as a successful TCP report, or ICMP report.
abbrev pub TcpBeats : Option TcpResult → Event → Type 0
TcpBeats f (tcp r) = r.good ≡ true → TcpWithin r.rtt f
TcpBeats f _ = Unit

abbrev pub IcmpBeats : Option IcmpResult → Event → Type 0
IcmpBeats b (icmp p) = p.good ≡ true → IcmpWithin p.rtt b
IcmpBeats b _ = Unit

pub after-TcpBeats :
    (s t : Race) (es : List Event)
    → after s es ≡ some t
    → t.tcp_live ≡ true
    → All (TcpBeats t.fallback) es
after-TcpBeats s t [] h live = tt
after-TcpBeats s t (tcp r ∷ es) h live =
    let (u, on, at, h') = after-go s t (tcp r) es h in
    let was = go-live s u (tcp r) at (after-live u t es h' live) in
    (
      λ good. after-TcpWithin r.rtt u t es h' (new-TcpWithin s u r at was good),
      after-TcpBeats u t es h' live,
    )
after-TcpBeats s t (icmp p ∷ es) h live =
    let (u, on, at, h') = after-go s t (icmp p) es h in (tt, after-TcpBeats u t es h' live)
after-TcpBeats s t (deadline ∷ es) h live =
    let (u, on, at, h') = after-go s t deadline es h in (tt, after-TcpBeats u t es h' live)
after-TcpBeats s t (done ∷ es) h live =
    let (u, on, at, h') = after-go s t done es h in (tt, after-TcpBeats u t es h' live)

pub after-IcmpBeats :
    (s t : Race) (es : List Event) → after s es ≡ some t → All (IcmpBeats t.best_icmp) es
after-IcmpBeats s t [] h = tt
after-IcmpBeats s t (icmp p ∷ es) h =
    let (u, on, at, h') = after-go s t (icmp p) es h in
    (
      λ good. after-IcmpWithin p.rtt u t es h' (new-IcmpWithin s u p at good),
      after-IcmpBeats u t es h',
    )
after-IcmpBeats s t (tcp r ∷ es) h =
    let (u, on, at, h') = after-go s t (tcp r) es h in (tt, after-IcmpBeats u t es h')
after-IcmpBeats s t (deadline ∷ es) h =
    let (u, on, at, h') = after-go s t deadline es h in (tt, after-IcmpBeats u t es h')
after-IcmpBeats s t (done ∷ es) h =
    let (u, on, at, h') = after-go s t done es h in (tt, after-IcmpBeats u t es h')
