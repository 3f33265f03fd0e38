-- ===== src/Server/Prefetch/Fixed.antt =====
-- internal/server/server.go: when a fixed domain is refreshed again, within a sweep and across sweeps.
use redis_dns.Prelude.{
  ◌≡◌, refl, sym, ap, ◌∙◌, inl, inr, subst, true, false, not, List, [], ◌∷◌, ◌++◌, some, arith, All,
  Bool-cases, filter_by,
}
use redis_dns.Prelude.Bytes.{Bytes, insert, to_lower, bytes_eq, bytes_eq_refl, bytes_eq-eq}
use redis_dns.Prelude.Int.{ℤ, ◌+ℤ◌, ◌<ℤ◌, ◌*64◌}
use redis_dns.Dns.{DnsLib, type_a}
use redis_dns.Proto.{Request, Response, Update, Json}
use redis_dns.Server.{Server}
use redis_dns.Server.Handle.{Command, second}
use redis_dns.Server.Stats.{is_scheduled}
use redis_dns.Server.Prefetch.{
  Sweep, Progress, Refresh, not_resolved, not_packed, refreshed, refresh, interval_of,
  prefetch_domain, prefetch_domains,
}
use redis_dns.Server.Prefetch.Spacing.{Refresh-cases}

module _ (lib : DnsLib) (requests : Json Request) (responses : Json Response)
    (updates : Json Update) (s : Server) (sweep : Sweep) where
  open lib use {fqdn}

  abbrev pub name_of : Bytes → Bytes
  name_of domain = to_lower (fqdn domain)

  abbrev refresh_of : Bytes → Refresh
  refresh_of domain = refresh lib requests responses updates s sweep domain (name_of domain) type_a

  -- What a turn makes of a domain that is not scheduled.
  abbrev turn : Progress → Bytes × Bytes → Refresh → Progress
  turn p d not_resolved = p
  turn p d not_packed = p
  turn p d (refreshed ttl sent) = record {
    next = insert (name_of d.0) (sweep.finished d.0 +ℤ (interval_of s sweep d.1 *64 second)) p.next;
    sent = p.sent ++ sent;
  }

  prefetch_domain-turn :
      (p : Progress) (d : Bytes × Bytes)
      → is_scheduled lib (p.next (name_of d.0)) (sweep.looked_at d.0) ≡ false
      → prefetch_domain lib requests responses updates s sweep p d ≡ turn p d (refresh_of d.0)
  unfolding prefetch_domain
  prefetch_domain-turn p d due = elim (Refresh-cases (refresh_of d.0)) [
    | inl h ↦ rw due (rw h refl)
    | inr (inl h) ↦ rw due (rw h refl)
    | inr (inr (ttl, sent, h)) ↦ rw due (rw h refl)
  ]

  prefetch_domain-skips :
      (p : Progress) (d : Bytes × Bytes)
      → is_scheduled lib (p.next (name_of d.0)) (sweep.looked_at d.0) ≡ true
      → prefetch_domain lib requests responses updates s sweep p d ≡ p
  unfolding prefetch_domain
  prefetch_domain-skips p d later = rw later refl

  turn-next :
      (p : Progress) (d : Bytes × Bytes) (r : Refresh) (name : Bytes)
      → bytes_eq name (name_of d.0) ≡ false
      → (turn p d r).next name ≡ p.next name
  turn-next p d not_resolved name other = refl
  turn-next p d not_packed name other = refl
  turn-next p d (refreshed ttl sent) name other = rw other refl

  -- Another domain's turn leaves a plan alone.
  prefetch_domain-next :
      (p : Progress) (d : Bytes × Bytes) (name : Bytes)
      → bytes_eq name (name_of d.0) ≡ false
      → (prefetch_domain lib requests responses updates s sweep p d).next name ≡ p.next name
  prefetch_domain-next p d name other =
      elim (Bool-cases (is_scheduled lib (p.next (name_of d.0)) (sweep.looked_at d.0))) [
        | inl later ↦ ap (λ (x : Progress). x.next name) (prefetch_domain-skips p d later)
        | inr due ↦
            ap (λ (x : Progress). x.next name) (prefetch_domain-turn p d due)
            ∙ turn-next p d (refresh_of d.0) name other
      ]

  early-scheduled :
      (p : Progress) (name : Bytes) (t : ℤ) (d : Bytes × Bytes)
      → p.next name ≡ some t
      → name ≡ name_of d.0
      → sweep.looked_at d.0 <ℤ t
      → is_scheduled lib (p.next (name_of d.0)) (sweep.looked_at d.0) ≡ true
  early-scheduled p name t d plan is early =
      let at = subst (λ n. p.next n ≡ some t) is plan in rw at (ground arith)

  -- The domains with another name.
  abbrev pub others : Bytes → List (Bytes × Bytes) → List (Bytes × Bytes)
  others name ds = filter_by (λ d. not (bytes_eq name (name_of d.0))) ds

  abbrev run_on : Progress → List (Bytes × Bytes) → Progress
  run_on p ds = prefetch_domains lib requests responses updates s sweep p ds

  -- Before its time a domain is passed over: a sweep does what it would do if the domain were not
  -- listed, and its plan stays.
  pub scheduled_passed_over :
      (p : Progress) (name : Bytes) (t : ℤ) (ds : List (Bytes × Bytes))
      → p.next name ≡ some t
      → All (λ d. name_of d.0 ≡ name → sweep.looked_at d.0 <ℤ t) ds
      → (prefetch_domains lib requests responses updates s sweep p ds
          ≡ prefetch_domains lib requests responses updates s sweep p (others name ds))
        × ((prefetch_domains lib requests responses updates s sweep p ds).next name ≡ some t)
  unfolding prefetch_domains
  scheduled_passed_over p name t [] plan early = (refl, plan)
  scheduled_passed_over p name t (d ∷ ds) plan (h, early) =
      let p' = prefetch_domain lib requests responses updates s sweep p d in
      elim (Bool-cases (bytes_eq name (name_of d.0))) [
        | inl same ↦
            let is : name ≡ name_of d.0 = bytes_eq-eq name (name_of d.0) same in
            let skipped =
              prefetch_domain-skips p d (early-scheduled p name t d plan is (h (sym is))) in
            let (passed, stays) = scheduled_passed_over p name t ds plan early in
            rw same (
              ap (λ (q : Progress). run_on q ds) skipped ∙ passed,
              ap (λ (q : Progress). (run_on q ds).next name) skipped ∙ stays,
            )
        | inr other ↦
            let plan' = prefetch_domain-next p d name other ∙ plan in
            rw other (scheduled_passed_over p' name t ds plan' early)
      ]

  -- A domain that is due and is refreshed is planned for its interval later.
  pub refreshed_plan :
      (p : Progress) (d : Bytes × Bytes) (ttl : ℤ) (sent : List Command)
      → is_scheduled lib (p.next (name_of d.0)) (sweep.looked_at d.0) ≡ false
      → refresh_of d.0 ≡ refreshed ttl sent
      → (prefetch_domain lib requests responses updates s sweep p d).next (name_of d.0)
        ≡ some (sweep.finished d.0 +ℤ (interval_of s sweep d.1 *64 second))
  refreshed_plan p d ttl sent due h =
      ap (λ (x : Progress). x.next (name_of d.0)) (prefetch_domain-turn p d due)
      ∙ ap (λ r. (turn p d r).next (name_of d.0)) h
      ∙ rw (bytes_eq_refl (name_of d.0)) refl
