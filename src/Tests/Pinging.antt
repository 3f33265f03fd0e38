-- ===== src/Tests/Pinging.antt =====
-- ICMP probes at concrete datagrams, which are a type, an identifier and a number.
use redis_dns.Prelude.{
  ℕ, ◌≡◌, ◌≢◌, refl, sym, ap, ◌∙◌, none_clash, ◌⊎◌, Bool, true, false, List, [], ◌∷◌, Option, none,
  some, arith, All, Any, if◌then◌else◌, ◌==◌,
}
use redis_dns.Prelude.Bytes.{Bytes, bytes_eq}
use redis_dns.Prelude.Int.{pos}
use redis_dns.Net.{Ip}
use redis_dns.Resolver.Race.{
  RaceConfig, Event, tcp, icmp, TcpResult, IcmpResult, tcp_win, no_winner, pick_winner, run,
  receive, terminal, init,
}
use redis_dns.Resolver.Icmp.{
  IcmpType, ipv4, ipv6, Echo, Message, IcmpLib, is_v4, family_of, echo_id, open_socket, Round,
  replied, icmp_ping, echo_loop, listen, is_reply,
}
use redis_dns.Resolver.Icmp.Probing.{IsAnswer, Answered, icmp_reply_is_ours, icmp_lost_resent}
use redis_dns.Resolver.Icmp.Identity.{echo_ids_differ}
use redis_dns.Resolver.Icmp.OverIpv6.{IsTyped, IsProbed, IsTcpWin, v6_race_won_by_tcp}
use redis_dns.Tests.Samples.{ip1}

abbrev echo_of : ℕ → ℕ → ℕ → ℕ → Message
echo_of proto t id seq = record {
  type_ = if proto == 58 then ipv6 t else ipv4 t;
  body = some (record { id = id; seq = seq; payload = [] });
}

abbrev parse : ℕ → Bytes → Option Message
parse proto (t ∷ id ∷ seq ∷ []) = some (echo_of proto t id seq)
parse proto _ = none

abbrev lib : IcmpLib
lib = record { marshal = λ m. some []; parse = parse }

-- The reply to the first request is for another probe; the second request is answered.
abbrev lost : Round
lost = record { over = false; written = true; left = none; reads = [] }

abbrev strange : Round
strange = record lost { reads = (0 ∷ 9 ∷ 1 ∷ [], pos 3) ∷ [] }

abbrev answered : Round
answered = record lost { reads = (0 ∷ 101 ∷ 2 ∷ [], pos 8) ∷ [] }

-- And one for an earlier request comes first.
abbrev answered_late : Round
answered_late = record lost { reads = (0 ∷ 101 ∷ 1 ∷ [], pos 7) ∷ (0 ∷ 101 ∷ 2 ∷ [], pos 8) ∷ [] }

-- All that a probe calls.
program : Unit {0}
unfolding icmp_ping echo_loop listen is_reply open_socket echo_id family_of is_v4
program = tt

second_counts :
    (icmp_ping lib true false 100 0 ip1 (strange ∷ answered ∷ [])).1 ≡ some (replied (pos 8))
unfolding program
second_counts = refl

icmp_reply_is_ours_example :
    (raw : Bool) × (open_socket true false ≡ some raw)
    × Answered lib (family_of ip1) raw (echo_id 100 0) 1 (strange ∷ answered ∷ []) (pos 8)
icmp_reply_is_ours_example =
    icmp_reply_is_ours lib true false 100 0 ip1 (strange ∷ answered ∷ []) (pos 8) second_counts

raw_opens : open_socket true false ≡ some true
unfolding program
raw_opens = refl

answer : IsAnswer lib (family_of ip1) true (echo_id 100 0) 2 (0 ∷ 101 ∷ 2 ∷ [])
unfolding program
answer = record {
  reply = echo_of 1 0 101 2;
  echo = record { id = 101; seq = 2; payload = [] };
  parses = refl;
  has_type = refl;
  is_echo = refl;
  has_seq = refl;
  has_id = λ raw. refl;
}

-- The identifier of a datagram that parses, and its number.
abbrev id_of : Option Echo → ℕ
id_of none = 0
id_of (some e) = e.id

abbrev seq_of : Option Echo → ℕ
seq_of none = 0
seq_of (some e) = e.seq

abbrev body_of : Option Message → Option Echo
body_of none = none
body_of (some m) = m.body

not_ours : IsAnswer lib (family_of ip1) true (echo_id 100 0) 1 (0 ∷ 9 ∷ 1 ∷ []) → ⊥
unfolding program
not_ours a =
    let nine : 9 ≡ 101 = ap id_of (ap body_of a.parses ∙ a.is_echo) ∙ a.has_id refl in
    absurd (omega (arith, nine))

old : IsAnswer lib (family_of ip1) true (echo_id 100 0) 2 (0 ∷ 101 ∷ 1 ∷ []) → ⊥
unfolding program
old a =
    let one : 1 ≡ 2 = ap seq_of (ap body_of a.parses ∙ a.is_echo) ∙ a.has_seq in
    absurd (omega (arith, one))

icmp_lost_resent_example :
    (icmp_ping lib true false 100 0 ip1 (strange ∷ answered_late ∷ [])).1 ≡ some (replied (pos 8))
icmp_lost_resent_example =
    icmp_lost_resent lib (λ m. ([], refl)) true false true 100 0 ip1 (strange ∷ []) answered_late []
      ((0 ∷ 101 ∷ 1 ∷ [], pos 7) ∷ []) (0 ∷ 101 ∷ 2 ∷ []) (pos 8) [] raw_opens
      ((refl, refl, (not_ours, tt)), tt) refl refl refl (old, tt) answer

echo_ids_differ_example : echo_id 100 4294967295 ≢ echo_id 100 4294967296
echo_ids_differ_example = echo_ids_differ 100 4294967295 1 (omega arith) (omega arith)

-- A race over IPv6.
abbrev ip6 : Ip
ip6 = 32 ∷ 1 ∷ 13 ∷ 184 ∷ 0 ∷ 0 ∷ 0 ∷ 0 ∷ 0 ∷ 0 ∷ 0 ∷ 0 ∷ 0 ∷ 0 ∷ 0 ∷ 1 ∷ []

abbrev config : RaceConfig
config = record {
  ports = pos 443 ∷ [];
  timeout = pos 1000000000;
  tcp_deadline = pos 200000000;
  has_ping = true;
}

abbrev https : TcpResult
https = record { ip = ip6; port_idx = 0; port = pos 443; rtt = 30; good = true }

abbrev silent : IcmpResult
silent = record { ip = ip6; rtt = 0; good = false }

abbrev reports : List Event
reports = icmp silent ∷ tcp https ∷ []

abbrev type_of : Option Message → IcmpType
type_of none = ipv6 0
type_of (some m) = m.type_

parse-types : (b : Bytes) (m : Message) → parse 58 b ≡ some m → (n : ℕ) × (m.type_ ≡ ipv6 n)
parse-types (t ∷ id ∷ seq ∷ []) m h = (t, sym (ap type_of h))
parse-types [] m h = absurd (none_clash h)
parse-types (t ∷ []) m h = absurd (none_clash h)
parse-types (t ∷ id ∷ []) m h = absurd (none_clash h)
parse-types (t ∷ id ∷ seq ∷ x ∷ rest) m h = absurd (none_clash h)

lib-IsTyped : IsTyped lib
lib-IsTyped = record { v6_type = parse-types }

ip6-IsProbed : All (IsProbed lib) reports
unfolding program bytes_eq
ip6-IsProbed = ((refl, λ good. absurd cc), (tt, tt))

https_wins : pick_winner (ip6 ∷ []) config reports ≡ some (tcp_win https)
unfolding pick_winner run receive terminal init tcp_win
https_wins = refl

v6_race_won_by_tcp_example : (tcp_win https ≡ no_winner) ⊎ Any (IsTcpWin (tcp_win https)) reports
v6_race_won_by_tcp_example =
    v6_race_won_by_tcp lib lib-IsTyped (ip6 ∷ []) config reports (tcp_win https) ip6-IsProbed
      https_wins
