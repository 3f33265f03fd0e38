-- ===== src/Resolver/Records/Laws.antt =====
-- internal/resolver/race.go: what `narrow` keeps, and which addresses `answerIPs` lists.
use redis_dns.Prelude.{
  ℕ, ◌≡◌, refl, inl, inr, true, List, [], ◌∷◌, none, some, arith, Any, Bool-cases, filter_by,
}
use redis_dns.Net.{Ip, ip_equal, ip_equal_refl}
use redis_dns.Dns.{Record, Msg}
use redis_dns.Resolver.Records.{record_ip, keeps, narrow}

-- The addresses of the queried type in an answer, and the other records, both in order.
unfoldable pub addresses : ℕ → List Record → List Ip
addresses qtype [] = []
addresses qtype (rr ∷ rrs) = elim (record_ip rr qtype) [
  | some ip ↦ ip ∷ addresses qtype rrs
  | none ↦ addresses qtype rrs
]

pub addresses-none :
    (qtype : ℕ) (rr : Record) (rrs : List Record)
    → record_ip rr qtype ≡ none
    → addresses qtype (rr ∷ rrs) ≡ addresses qtype rrs
unfolding addresses
addresses-none qtype rr rrs e = rw (e, addresses)

pub addresses-some :
    (qtype : ℕ) (rr : Record) (rrs : List Record) (ip : Ip)
    → record_ip rr qtype ≡ some ip
    → addresses qtype (rr ∷ rrs) ≡ ip ∷ addresses qtype rrs
unfolding addresses
addresses-some qtype rr rrs ip e = rw (e, addresses)

unfoldable pub others : ℕ → List Record → List Record
others qtype [] = []
others qtype (rr ∷ rrs) = elim (record_ip rr qtype) [
  | some ip ↦ others qtype rrs
  | none ↦ rr ∷ others qtype rrs
]

abbrev kept : ℕ → Ip → List Record → List Record
kept qtype winner = filter_by (λ rr. keeps winner (record_ip rr qtype))

addresses-kept :
    (qtype : ℕ) (winner : Ip) (rrs : List Record)
    → addresses qtype (kept qtype winner rrs)
      ≡ filter_by (λ ip. ip_equal ip winner) (addresses qtype rrs)
unfolding addresses
addresses-kept qtype winner [] = refl
addresses-kept qtype winner (rr ∷ rrs) = ground (arith, addresses-kept qtype winner rrs)

others-kept :
    (qtype : ℕ) (winner : Ip) (rrs : List Record)
    → others qtype (kept qtype winner rrs) ≡ others qtype rrs
unfolding others
others-kept qtype winner [] = refl
others-kept qtype winner (rr ∷ rrs) = ground (arith, others-kept qtype winner rrs)

-- What the name of an address is in the answer section: a record of the queried type carries it.
abbrev pub Offers : ℕ → Ip → Record → Type 0
Offers qtype ip rr = (x : Ip) × (record_ip rr qtype ≡ some x) × (ip_equal x ip ≡ true)

Offers-kept :
    (qtype : ℕ) (winner : Ip) (rrs : List Record)
    → Any (Offers qtype winner) rrs
    → Any (Offers qtype winner) (kept qtype winner rrs)
Offers-kept qtype winner [] m = m
Offers-kept qtype winner (rr ∷ rrs) (inl (x, e, k)) = rw (e, keeps, k) (inl (x, e, k))
Offers-kept qtype winner (rr ∷ rrs) (inr m) =
    elim (Bool-cases (keeps winner (record_ip rr qtype))) [
      | inl stays ↦ rw stays (inr (Offers-kept qtype winner rrs m))
      | inr goes ↦ rw goes (Offers-kept qtype winner rrs m)
    ]

-- `narrow` changes the answer section alone. Of the addresses of the queried type it keeps those
-- that are the winner's, in order, and it keeps every other record, in order.
pub record IsNarrowed (msg out : Msg) (qtype : ℕ) (winner : Ip) : Type 0 where
  pub same_id : out.id ≡ msg.id
  pub same_rcode : out.rcode ≡ msg.rcode
  pub same_question : out.question ≡ msg.question
  pub same_ns : out.ns ≡ msg.ns
  pub same_extra : out.extra ≡ msg.extra
  pub addresses_kept :
      addresses qtype out.answer ≡ filter_by (λ ip. ip_equal ip winner) (addresses qtype msg.answer)
  pub others_kept : others qtype out.answer ≡ others qtype msg.answer

-- A narrowed message is the message with the addresses that are not the winner's left out.
narrow-IsNarrowed :
    (msg : Msg) (qtype : ℕ) (winner : Ip) → IsNarrowed msg (narrow msg qtype winner) qtype winner
unfolding narrow
narrow-IsNarrowed msg qtype winner = record {
  same_id = refl;
  same_rcode = refl;
  same_question = refl;
  same_ns = refl;
  same_extra = refl;
  addresses_kept = addresses-kept qtype winner msg.answer;
  others_kept = others-kept qtype winner msg.answer;
}

-- A winner that the message offers is still offered.
pub narrow-Offers :
    (msg : Msg) (qtype : ℕ) (winner : Ip)
    → Any (Offers qtype winner) msg.answer
    → Any (Offers qtype winner) (narrow msg qtype winner).answer
unfolding narrow
narrow-Offers msg qtype winner m = Offers-kept qtype winner msg.answer m

-- An address carried by a record is offered.
abbrev pub Carries : ℕ → Ip → Record → Type 0
Carries qtype ip rr = record_ip rr qtype ≡ some ip

pub Carries-Offers :
    (qtype : ℕ) (ip : Ip) (rrs : List Record)
    → Any (Carries qtype ip) rrs
    → Any (Offers qtype ip) rrs
Carries-Offers qtype ip [] m = m
Carries-Offers qtype ip (rr ∷ rrs) (inl e) = inl (ip, e, ip_equal_refl ip)
Carries-Offers qtype ip (rr ∷ rrs) (inr m) = inr (Carries-Offers qtype ip rrs m)
