-- ===== src/Resolver/Records/Selection.antt =====
-- internal/resolver/race.go: `answerIPs` lists each address of the answer once, in order.
use redis_dns.Prelude.{
  ℕ, ◌≡◌, refl, subst, sym, ◌≢◌, ◌⊎◌, inl, inr, Bool, true, List, [], ◌∷◌, none, some, arith, All,
  All-map, Any, Bool-cases, Option-cases,
}
use redis_dns.Prelude.Bytes.{Bytes, Map, empty, insert, bytes_eq, bytes_eq-eq, bytes_eq_iff}
use redis_dns.Net.{Ip}
use redis_dns.Dns.{Record, Msg}
use redis_dns.Resolver.Records.{record_ip, collect_ips, answer_ips}
use redis_dns.Resolver.Records.Laws.{addresses, addresses-none, addresses-some, Carries}

module _ (ip_string : Ip → Bytes) where
  -- No two addresses have the same text.
  abbrev pub DistinctTexts : List Ip → Type 0
  DistinctTexts [] = Unit
  DistinctTexts (ip ∷ ips) = All (λ x. ip_string x ≢ ip_string ip) ips × DistinctTexts ips

  module _ (qtype : ℕ) where
    -- A record is passed over, or its address is appended and noted.
    abbrev Skips : Map Bool → Record → List Record → Type 0
    Skips seen rr rrs =
        (collect_ips ip_string seen (rr ∷ rrs) qtype ≡ collect_ips ip_string seen rrs qtype)
        × ((record_ip rr qtype ≡ none)
            ⊎ ((ip : Ip) × (b : Bool) × (record_ip rr qtype ≡ some ip)
                × (seen (ip_string ip) ≡ some b)))

    abbrev Appends : Map Bool → Record → List Record → Type 0
    Appends seen rr rrs =
        (ip : Ip) × (record_ip rr qtype ≡ some ip)
        × (seen (ip_string ip) ≡ none)
        × (collect_ips ip_string seen (rr ∷ rrs) qtype
            ≡ ip ∷ collect_ips ip_string (insert (ip_string ip) true seen) rrs qtype)

    collect_ips_cases :
        (seen : Map Bool) (rr : Record) (rrs : List Record)
        → Skips seen rr rrs ⊎ Appends seen rr rrs
    unfolding collect_ips
    collect_ips_cases seen rr rrs = elim (Option-cases (record_ip rr qtype)) [
      | inl e ↦ inl (rw (e, collect_ips), inl e)
      | inr (ip, e) ↦ elim (Option-cases (seen (ip_string ip))) [
        | inl new ↦ inr (ip, e, new, rw (e, collect_ips) (rw (new, collect_ips)))
        | inr (b, old) ↦ inl (rw (e, collect_ips) (rw (old, collect_ips)), inr (ip, b, e, old))
      ]
    ]

    collect_ips-Carries :
        (seen : Map Bool) (rrs : List Record)
        → All (λ ip. Any (Carries qtype ip) rrs) (collect_ips ip_string seen rrs qtype)
    collect_ips-Carries seen [] = unfold collect_ips in tt
    collect_ips-Carries seen (rr ∷ rrs) = elim (collect_ips_cases seen rr rrs) [
      | inl (e, _) ↦ rw e (All-map _ _ _ (λ ip m. inr m) (collect_ips-Carries seen rrs))
      | inr (ip, at, new, e) ↦ rw e (
        inl at,
        All-map _ _ _ (λ x m. inr m) (collect_ips-Carries (insert (ip_string ip) true seen) rrs),
      )
    ]

    -- An address that is noted does not come again.
    unseen_before :
        (seen : Map Bool) (k : Bytes) (x : Bytes)
        → insert k true seen x ≡ none
        → (seen x ≡ none) × (x ≢ k)
    unseen_before seen k x h = ground (arith, bytes_eq_iff x k)

    collect_ips-unseen :
        (seen : Map Bool) (rrs : List Record)
        → All (λ ip. seen (ip_string ip) ≡ none) (collect_ips ip_string seen rrs qtype)
    collect_ips-unseen seen [] = unfold collect_ips in tt
    collect_ips-unseen seen (rr ∷ rrs) = elim (collect_ips_cases seen rr rrs) [
      | inl (e, _) ↦ rw e (collect_ips-unseen seen rrs)
      | inr (ip, at, new, e) ↦ rw e (
        new,
        All-map _ _ _ (λ x m. (unseen_before seen (ip_string ip) (ip_string x) m).0)
            (collect_ips-unseen (insert (ip_string ip) true seen) rrs),
      )
    ]

    collect_ips-DistinctTexts :
        (seen : Map Bool) (rrs : List Record) → DistinctTexts (collect_ips ip_string seen rrs qtype)
    collect_ips-DistinctTexts seen [] = unfold collect_ips in tt
    collect_ips-DistinctTexts seen (rr ∷ rrs) = elim (collect_ips_cases seen rr rrs) [
      | inl (e, _) ↦ rw e (collect_ips-DistinctTexts seen rrs)
      | inr (ip, at, new, e) ↦
          let seen' = insert (ip_string ip) true seen in
          rw e (
            All-map _ _ _ (λ x m. (unseen_before seen (ip_string ip) (ip_string x) m).1)
                (collect_ips-unseen seen' rrs),
            collect_ips-DistinctTexts seen' rrs,
          )
    ]

    -- Every address of the answer was noted at the start, or is listed, up to its text.
    abbrev Listed : Map Bool → List Ip → Ip → Type 0
    Listed seen ips x =
        ((b : Bool) × (seen (ip_string x) ≡ some b)) ⊎ Any (λ y. ip_string y ≡ ip_string x) ips

    later_Listed :
        (seen : Map Bool) (ip : Ip) (ips : List Ip) (x : Ip)
        → Listed (insert (ip_string ip) true seen) ips x
        → Listed seen (ip ∷ ips) x
    later_Listed seen ip ips x (inr m) = inr (inr m)
    later_Listed seen ip ips x (inl (b, e)) =
        elim (Bool-cases (bytes_eq (ip_string x) (ip_string ip))) [
          | inl same ↦ inr (inl (sym (bytes_eq-eq _ _ same)))
          | inr other ↦ inl (b, ground arith)
        ]

    transfer :
        (seen : Map Bool) (ips ips' xs xs' : List Ip)
        → ips' ≡ ips
        → xs' ≡ xs
        → All (Listed seen ips) xs
        → All (Listed seen ips') xs'
    transfer seen ips ips' xs xs' e f h =
        subst (λ o. All (Listed seen o) xs') (sym e)
          (subst (λ y. All (Listed seen ips) y) (sym f) h)

    collect_ips-Listed :
        (seen : Map Bool) (rrs : List Record)
        → All (Listed seen (collect_ips ip_string seen rrs qtype)) (addresses qtype rrs)
    collect_ips-Listed seen [] = unfold addresses in tt
    collect_ips-Listed seen (rr ∷ rrs) = elim (collect_ips_cases seen rr rrs) [
      | inl (e, inl no_ip) ↦
          transfer seen _ _ _ _ e (addresses-none qtype rr rrs no_ip) (collect_ips-Listed seen rrs)
      | inl (e, inr (ip, b, at, old)) ↦
          transfer seen _ _ _ _ e (addresses-some qtype rr rrs ip at)
            (inl (b, old), collect_ips-Listed seen rrs)
      | inr (ip, at, new, e) ↦ transfer seen _ _ _ _ e (addresses-some qtype rr rrs ip at) (
        inr (inl refl),
        All-map _ _ _ (λ x m. later_Listed seen ip _ x m)
            (collect_ips-Listed (insert (ip_string ip) true seen) rrs),
      )
    ]

  -- What `answerIPs` returns of an answer section.
  pub record IsSelection (qtype : ℕ) (rrs : List Record) (ips : List Ip) : Type 0 where
    pub carried : All (λ ip. Any (Carries qtype ip) rrs) ips
    pub distinct : DistinctTexts ips
    pub complete : All (λ x. Any (λ y. ip_string y ≡ ip_string x) ips) (addresses qtype rrs)

  -- `answerIPs` returns addresses that records of the queried type carry, no text twice, and each
  -- text that any such record carries.
  pub answer_ips-IsSelection :
      (msg : Msg) (qtype : ℕ) → IsSelection qtype msg.answer (answer_ips ip_string msg qtype)
  answer_ips-IsSelection msg qtype =
      unfold answer_ips in
      record {
        carried = collect_ips-Carries qtype empty msg.answer;
        distinct = collect_ips-DistinctTexts qtype empty msg.answer;
        complete =
            All-map _ _ _ (λ x m. elim m [ inl (b, e) ↦ absurd (cc) | inr k ↦ k ])
              (collect_ips-Listed qtype empty msg.answer);
      }
