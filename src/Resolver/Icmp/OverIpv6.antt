-- ===== src/Resolver/Icmp/OverIpv6.antt =====
-- internal/resolver/icmp.go: what the two address families come to.
use redis_dns.Resolver.Race.{
  RaceConfig, Event, tcp, icmp, deadline, done, Verdict, tcp_win, no_winner, pick_winner,
}
use redis_dns.Resolver.Race.Winner.{WonBy, winner_reported}
use redis_dns.Prelude.{
  All, ◌⊎◌, true, ℕ, ◌+◌, ◌≡◌, ◌≢◌, refl, ap, sym, ◌∙◌, inl, inr, Bool, false, List, [], ◌∷◌, some,
  Any,
}
use redis_dns.Prelude.Bytes.{Bytes}
use redis_dns.Prelude.Int.{ℤ, pos}
use redis_dns.Net.{Ip}
use redis_dns.Resolver.Icmp.{
  ipv4, ipv6, Message, IcmpLib, Round, replied, is_v4, family_of, echo_id, icmp_ping,
}
use redis_dns.Resolver.Icmp.Probing.{IsAnswer, Answered, icmp_reply_is_ours}

-- `ParseMessage` with the protocol number of ICMPv6 gives a message a type of ICMPv6.
pub record IsTyped (lib : IcmpLib) : Type 0 where
  pub v6_type : (b : Bytes) (m : Message) → lib.parse 58 b ≡ some m → (n : ℕ) × (m.type_ ≡ ipv6 n)

types_differ : (m n : ℕ) → ipv6 m ≢ ipv4 n
types_differ m n = λ h. cc

module _ (lib : IcmpLib) (typed : IsTyped lib) (ip : Ip) (v6 : is_v4 ip ≡ false) (raw : Bool)
    (id : ℕ) where
  v6_family : family_of ip ≡ record { proto = 58; req_type = ipv4 128; reply_type = ipv4 129 }
  unfolding family_of
  v6_family = rw v6 refl

  no_answer : (seq : ℕ) (datagram : Bytes) → IsAnswer lib (family_of ip) raw id seq datagram → ⊥
  no_answer seq datagram a =
      let parses = sym (ap (λ f. lib.parse f.proto datagram) v6_family) ∙ a.parses in
      let (n, is_v6) = typed.v6_type datagram a.reply parses in
      let is_v4_type = a.has_type ∙ ap (λ f. f.reply_type) v6_family in
      types_differ n 129 (sym is_v6 ∙ is_v4_type)

  none_answers :
      (seq : ℕ) (rtt : ℤ) (reads : List (Bytes × ℤ))
      → Any (λ p. IsAnswer lib (family_of ip) raw id seq p.0 × (p.1 ≡ rtt)) reads
      → ⊥
  none_answers seq rtt [] answer = answer
  none_answers seq rtt (p ∷ reads) (inl (answer, _)) = no_answer seq p.0 answer
  none_answers seq rtt (p ∷ reads) (inr later) = none_answers seq rtt reads later

  never_answered :
      (seq : ℕ) (rounds : List Round) (rtt : ℤ)
      → Answered lib (family_of ip) raw id seq rounds rtt
      → ⊥
  never_answered seq [] rtt answer = answer
  never_answered seq (r ∷ rs) rtt (_, _, inl here) = none_answers seq rtt r.reads here
  never_answered seq (r ∷ rs) rtt (_, _, inr later) = never_answered (seq + 1) rs rtt later

-- No probe of an address that is not IPv4 succeeds, whatever is received.
pub icmp_v6_never_succeeds :
    (lib : IcmpLib)
    → IsTyped lib
    → (raw_opens udp_opens : Bool) (pid counter : ℕ) (ip : Ip) → is_v4 ip ≡ false
    → (rounds : List Round) (rtt : ℤ)
    → (icmp_ping lib raw_opens udp_opens pid counter ip rounds).1 ≢ some (replied rtt)
icmp_v6_never_succeeds lib typed raw_opens udp_opens pid counter ip v6 rounds rtt = λ h.
    let (raw, _, answer) = icmp_reply_is_ours lib raw_opens udp_opens pid counter ip rounds rtt h in
    never_answered lib typed ip v6 raw (echo_id pid counter) 1 rounds rtt answer

-- A race's event over IPv6: a report of an ICMP probe is what `icmpPing` returned for its address.
abbrev pub IsProbed : IcmpLib → Event → Type 0
IsProbed lib (tcp r) = Unit
IsProbed lib (icmp p) =
    (is_v4 p.ip ≡ false)
    × (p.good ≡ true
        → (raw_opens : Bool) × (udp_opens : Bool) × (pid : ℕ) × (counter : ℕ) × (rounds : List
            Round)
          × ((icmp_ping lib raw_opens udp_opens pid counter p.ip rounds).1
              ≡ some (replied (pos p.rtt))))
IsProbed lib deadline = Unit
IsProbed lib done = Unit

-- Won by a TCP probe.
abbrev pub IsTcpWin : Verdict → Event → Type 0
IsTcpWin v (tcp r) = (r.good ≡ true) × (v ≡ tcp_win r)
IsTcpWin v (icmp p) = ⊥
IsTcpWin v deadline = ⊥
IsTcpWin v done = ⊥

no_icmp :
    (lib : IcmpLib)
    → IsTyped lib
    → (v : Verdict) (es : List Event) → All (IsProbed lib) es
    → Any (WonBy v) es
    → Any (IsTcpWin v) es
no_icmp lib typed v [] probed won = won
no_icmp lib typed v (deadline ∷ es) probed (inl won) = absurd won
no_icmp lib typed v (done ∷ es) probed (inl won) = absurd won
no_icmp lib typed v (tcp r ∷ es) (_, probed) (inl won) = inl won
no_icmp lib typed v (icmp p ∷ es) ((v6, report), probed) (inl (good, _)) =
    let (raw_opens, udp_opens, pid, counter, rounds, replies) = report good in
    absurd (
      icmp_v6_never_succeeds lib typed raw_opens udp_opens pid counter p.ip v6 rounds (pos p.rtt)
        replies)
no_icmp lib typed v (tcp r ∷ es) (_, probed) (inr later) = inr (no_icmp lib typed v es probed later)
no_icmp lib typed v (icmp p ∷ es) (_, probed) (inr later) =
    inr (no_icmp lib typed v es probed later)
no_icmp lib typed v (deadline ∷ es) (_, probed) (inr later) =
    inr (no_icmp lib typed v es probed later)
no_icmp lib typed v (done ∷ es) (_, probed) (inr later) = inr (no_icmp lib typed v es probed later)

-- A race over IPv6 addresses has no winner or is won by a TCP connection that succeeded, never by
-- an ICMP reply, whatever the addresses answer, if the ICMP library types messages by protocol.
pub v6_race_won_by_tcp :
    (lib : IcmpLib)
    → IsTyped lib
    → (ips : List Ip) (cfg : RaceConfig) (es : List Event) (v : Verdict) → All (IsProbed lib) es
    → pick_winner ips cfg es ≡ some v
    → (v ≡ no_winner) ⊎ Any (IsTcpWin v) es
v6_race_won_by_tcp lib typed ips cfg es v probed h = elim (winner_reported ips cfg es v h) [
  | inl nobody ↦ inl nobody
  | inr won ↦ inr (no_icmp lib typed v es probed won)
]
