-- ===== src/Resolver/Ttl/Laws.antt =====
-- internal/resolver/resolver.go: `MinTTL` returns the least TTL that can be used.
use redis_dns.Prelude.{
  ℕ, ◌≤◌, ◌<◌, ◌≡◌, refl, sym, ap, ◌∙◌, ◌⊎◌, inl, inr, List, [], ◌∷◌, ◌++◌, arith, All, Any,
}
use redis_dns.Dns.{Record, RecordData, Msg}
use redis_dns.Dns.RecordData.{soa, a, aaaa, other}
use redis_dns.Resolver.Ttl.{consider, scan_answer, scan_record, scan_ns, min_ttl}

-- The TTLs that a record of the authority section brings: a SOA record brings its Minttl too.
abbrev pub authority_ttls : ℕ → RecordData → List ℕ
authority_ttls ttl (soa minttl rest) = ttl ∷ minttl ∷ []
authority_ttls ttl (a ip) = ttl ∷ []
authority_ttls ttl (aaaa ip) = ttl ∷ []
authority_ttls ttl (other t rest) = ttl ∷ []

abbrev pub answer_ttls : List Record → List ℕ
answer_ttls [] = []
answer_ttls (rr ∷ rrs) = rr.ttl ∷ answer_ttls rrs

abbrev pub ns_ttls : List Record → List ℕ
ns_ttls [] = []
ns_ttls (rr ∷ rrs) = authority_ttls rr.ttl rr.rdata ++ ns_ttls rrs

-- `k` is the least positive number of `xs`, or 0 if there is none.
pub record IsLeastPositive (k : ℕ) (xs : List ℕ) : Type 0 where
  pub least : All (λ x. (x ≡ 0) ⊎ ((0 < k) × (k ≤ x))) xs
  pub attained : (k ≡ 0) ⊎ Any (λ x. x ≡ k) xs

-- `consider` over a list.
consider_all : ℕ → List ℕ → ℕ
consider_all min [] = min
consider_all min (x ∷ xs) = consider_all (consider min x) xs

consider_all-append :
    (min : ℕ) (xs ys : List ℕ) → consider_all min (xs ++ ys) ≡ consider_all (consider_all min xs) ys
unfolding consider_all
consider_all-append min [] ys = refl
consider_all-append min (x ∷ xs) ys = consider_all-append (consider min x) xs ys

consider_cases :
    (min x : ℕ)
    → ((x ≡ 0) ⊎ ((0 < consider min x) × (consider min x ≤ x)))
      × ((min ≡ 0) ⊎ ((0 < consider min x) × (consider min x ≤ min)))
      × ((consider min x ≡ min) ⊎ (consider min x ≡ x))
unfolding consider
consider_cases min x = ground arith

consider_all-IsLeastPositive :
    (min : ℕ) (xs : List ℕ) → IsLeastPositive (consider_all min xs) (min ∷ xs)
unfolding consider_all
consider_all-IsLeastPositive min [] = record {
  least = (ground arith, tt);
  attained = inr (inl refl);
}
consider_all-IsLeastPositive min (x ∷ xs) =
    let ih = consider_all-IsLeastPositive (consider min x) xs in
    let (new, old, from) = consider_cases min x in
    record {
      least = (ground (arith, ih.least.0), (ground (arith, ih.least.0), ih.least.1));
      attained = elim ih.attained [
        | inl zero' ↦ inl zero'
        | inr (inl here) ↦ elim from [
          | inl m ↦ inr (inl (sym m ∙ here))
          | inr m ↦ inr (inr (inl (sym m ∙ here)))
        ]
        | inr (inr later) ↦ inr (inr (inr later))
      ];
    }

scan_answer-consider_all :
    (min : ℕ) (rrs : List Record) → scan_answer min rrs ≡ consider_all min (answer_ttls rrs)
unfolding scan_answer consider_all
scan_answer-consider_all min [] = refl
scan_answer-consider_all min (rr ∷ rrs) = scan_answer-consider_all (consider min rr.ttl) rrs

scan_record-consider_all :
    (min ttl : ℕ) (d : RecordData) → scan_record min ttl d ≡ consider_all min (authority_ttls ttl d)
unfolding consider_all
scan_record-consider_all min ttl (soa minttl rest) = refl
scan_record-consider_all min ttl (a ip) = refl
scan_record-consider_all min ttl (aaaa ip) = refl
scan_record-consider_all min ttl (other t rest) = refl

scan_ns-consider_all :
    (min : ℕ) (rrs : List Record) → scan_ns min rrs ≡ consider_all min (ns_ttls rrs)
unfolding scan_ns
scan_ns-consider_all min [] = unfold consider_all in refl
scan_ns-consider_all min (rr ∷ rrs) =
    scan_ns-consider_all (scan_record min rr.ttl rr.rdata) rrs
    ∙ ap (λ (k : ℕ). consider_all k (ns_ttls rrs)) (scan_record-consider_all min rr.ttl rr.rdata)
    ∙ sym (consider_all-append min (authority_ttls rr.ttl rr.rdata) (ns_ttls rrs))

min_ttl-consider_all : (m : Msg) → min_ttl m ≡ consider_all 0 (answer_ttls m.answer ++ ns_ttls m.ns)
unfolding min_ttl
min_ttl-consider_all m =
    scan_ns-consider_all (scan_answer 0 m.answer) m.ns
    ∙ ap (λ (k : ℕ). consider_all k (ns_ttls m.ns)) (scan_answer-consider_all 0 m.answer)
    ∙ sym (consider_all-append 0 (answer_ttls m.answer) (ns_ttls m.ns))

drop_zero : (k : ℕ) (xs : List ℕ) → IsLeastPositive k (0 ∷ xs) → IsLeastPositive k xs
drop_zero k xs h = record {
  least = h.least.1;
  attained = elim h.attained [
    | inl z ↦ inl z
    | inr (inl here) ↦ inl (sym here)
    | inr (inr later) ↦ inr later
  ];
}

-- `MinTTL` is the least positive TTL among the answer records, the authority records and the
-- Minttl of the authority's SOA records; it is 0 exactly when none of these is positive.
pub min_ttl-IsLeastPositive :
    (m : Msg) → IsLeastPositive (min_ttl m) (answer_ttls m.answer ++ ns_ttls m.ns)
min_ttl-IsLeastPositive m =
    rw (min_ttl-consider_all m)
      (drop_zero _ _ (consider_all-IsLeastPositive 0 (answer_ttls m.answer ++ ns_ttls m.ns)))
