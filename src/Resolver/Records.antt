-- ===== src/Resolver/Records.antt =====
-- internal/resolver/race.go: `recordIP`, `answerIPs`, `ipIn` and `narrow`.
pub mod Laws
pub mod Selection
use redis_dns.Prelude.{
  ℕ, ◌≡◌, refl, Bool, true, false, not, ◌&&◌, ◌||◌, List, [], ◌∷◌, ◌++◌, Option, none, some, arith,
  ◌==◌, if◌then◌else◌, filter_by,
}
use redis_dns.Prelude.Bytes.{Bytes, Map, empty, insert}
use redis_dns.Net.{Ip, ip_equal}
use redis_dns.Dns.{Record, RecordData, Msg, type_a, type_aaaa}
use redis_dns.Dns.RecordData.{a, aaaa}

-- The type assertion `rr.(*dns.A)`, and likewise for AAAA.
abbrev a_address : RecordData → Option Ip
a_address (a ip) = some ip
a_address _ = none

abbrev aaaa_address : RecordData → Option Ip
aaaa_address (aaaa ip) = some ip
aaaa_address _ = none

-- `none` stands for `ok == false`.
unfoldable pub record_ip : Record → ℕ → Option Ip
record_ip rr qtype =
    if qtype == type_a
    then a_address rr.rdata
    else if qtype == type_aaaa
    then aaaa_address rr.rdata
    else none

unfoldable pub ip_in : List Ip → Ip → Bool
ip_in [] want = false
ip_in (ip ∷ ips) want = if ip_equal ip want then true else ip_in ips want

-- Whether `narrow` keeps a record, by its address.
abbrev pub keeps : Ip → Option Ip → Bool
keeps winner none = true
keeps winner (some ip) = ip_equal ip winner

unfoldable pub narrow : Msg → ℕ → Ip → Msg
narrow msg qtype winner = record msg {
  answer = filter_by (λ rr. keeps winner (record_ip rr qtype)) msg.answer;
}

-- `ip_string` is `IP.String`, whose texts are the keys of `seen`.
module _ (ip_string : Ip → Bytes) where
  -- The loop of `answerIPs` from a set `seen`, with the addresses still to be appended.
  unfoldable pub collect_ips : Map Bool → List Record → ℕ → List Ip
  collect_ips seen [] qtype = []
  collect_ips seen (rr ∷ rrs) qtype = elim (record_ip rr qtype) [
    | none ↦ collect_ips seen rrs qtype
    | some ip ↦ elim (seen (ip_string ip)) [
      | some _ ↦ collect_ips seen rrs qtype
      | none ↦ ip ∷ collect_ips (insert (ip_string ip) true seen) rrs qtype
    ]
  ]

  unfoldable pub answer_ips : Msg → ℕ → List Ip
  unfolding collect_ips
  answer_ips msg qtype = collect_ips empty msg.answer qtype
