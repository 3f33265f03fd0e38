-- ===== src/Server/Ranking/Sweeping.antt =====
-- internal/server/server.go: a sweep with the ranking that it asks Redis for, and decays when it
-- is through; counts may come in between.
use redis_dns.Prelude.{
  ℕ, suc, ◌≡◌, ◌⊎◌, inl, inr, refl, sym, ap, subst, ◌∙◌, false, List, [], ◌∷◌, Option, none, some,
  arith, map,
}
use mathlib.Core.Option
use redis_dns.Prelude.Bytes.{Bytes, Map}
use redis_dns.Prelude.Int.{ℤ, pos, nonpos}
use redis_dns.Dns.{DnsLib}
use redis_dns.Proto.{Request, Response, Update, Json}
use redis_dns.Server.{Server}
use redis_dns.Server.Stats.{due_dynamic}
use redis_dns.Server.Prefetch.{Sweep, Progress, prefetch_domains, prefetch_dynamic, prefetch_sweep}
use redis_dns.Server.Prefetch.Spacing.{Different, Swept}
use redis_dns.Server.Prefetch.Dynamic.{prefetch_dynamic-Swept}
use redis_dns.Server.Ranking.{
  Floats, SortedSet, ScoredMember, decay, decay_factor, exec, top, asking_top, sweep_decay,
  ranked_sweep, min_prefetch_score,
}
use redis_dns.Server.Ranking.Law.{names_of, IsSortedSet}
use redis_dns.Server.Ranking.Topping.{IsTop, entries_of, top-IsTop}
use redis_dns.Server.Ranking.Decaying.{Decayed, decay-Decayed}

-- The members of what `Top` returns.
abbrev pub members_of : {F : Type 0} → List (ScoredMember F) → List Bytes
members_of found = map (λ m. m.member) found

members_of-names :
    {F : Type 0} (found : List (ScoredMember F)) → names_of (entries_of found) ≡ members_of found
members_of-names [] = refl
members_of-names (m ∷ ms) = ap (λ ns. m.member ∷ ns) (members_of-names ms)

module _ {F S : Type 0} (floats : Floats F) (redis : SortedSet F S) (mul add : F → F → F)
    (ranking : S → List (Bytes × F)) (law : IsSortedSet floats redis mul add ranking) (lib : DnsLib)
    (requests : Json Request) (responses : Json Response) (updates : Json Update) (s : Server)
    (st later : S) (sweep : Sweep) where
  open floats use {zero, one, le}

  abbrev asked : Sweep
  asked = asking_top floats redis s st sweep

  abbrev result : Map ℤ → Progress × S
  result next = ranked_sweep floats redis lib requests responses updates s st later sweep next

  -- After the fixed domains.
  abbrev pub after_fixed : Map ℤ → List (Bytes × Bytes) → Progress
  after_fixed next ds =
      prefetch_domains lib requests responses updates s asked (record { next = next; sent = [] }) ds

  -- The ranked part of a sweep: Redis fails, and nothing is asked for or planned beyond the fixed
  -- domains; or it gives the highest members of the ranking with a score of 2 or more, as many as
  -- the setting says or all of them, and those of these that are due are planned.
  abbrev pub Refreshes : ℕ → Map ℤ → List (Bytes × Bytes) → Type 0
  Refreshes n next ds =
      ((asked.top ≡ none) × ((result next).0 ≡ after_fixed next ds))
      ⊎ ((found : List (ScoredMember F)) × (asked.top ≡ some (members_of found))
          × IsTop floats n (min_prefetch_score floats) (ranking st) (entries_of found)
          × Swept lib requests responses updates s asked (after_fixed next ds) (result next).0
              (due_dynamic lib (members_of found) (after_fixed next ds).next sweep.ranked_at))

  abbrev swept_with : Sweep → Map ℤ → Option (List (Bytes × Bytes)) → Progress
  swept_with sw next none = record { next = next; sent = [] }
  swept_with sw next (some ds) =
      prefetch_dynamic lib requests responses updates s sw (
        prefetch_domains lib requests responses updates s sw (record { next = next; sent = [] }) ds)

  sweep-with :
      (sw : Sweep) (next : Map ℤ) (o : Option (List (Bytes × Bytes)))
      → sw.domains ≡ o
      → prefetch_sweep lib requests responses updates s sw next ≡ swept_with sw next o
  unfolding prefetch_sweep
  sweep-with sw next none at = ap (swept_with sw next) at
  sweep-with sw next (some ds) at = ap (swept_with sw next) at

  sweep-listed :
      (sw : Sweep) (next : Map ℤ) (ds : List (Bytes × Bytes))
      → sw.domains ≡ some ds
      → prefetch_sweep lib requests responses updates s sw next
        ≡ prefetch_dynamic lib requests responses updates s sw (
            prefetch_domains lib requests responses updates s sw
              (record { next = next; sent = [] })
              ds)
  sweep-listed sw next ds listed = sweep-with sw next (some ds) listed

  asked-domains : asked.domains ≡ sweep.domains
  unfolding asking_top
  asked-domains = refl

  asked-ranked_at : asked.ranked_at ≡ sweep.ranked_at
  unfolding asking_top
  asked-ranked_at = refl

  sweep-dynamic :
      (next : Map ℤ) (ds : List (Bytes × Bytes))
      → sweep.domains ≡ some ds
      → (result next).0
        ≡ prefetch_dynamic lib requests responses updates s asked (after_fixed next ds)
  unfolding ranked_sweep
  sweep-dynamic next ds listed = sweep-listed asked next ds (asked-domains ∙ listed)

  sweep-decay :
      (next : Map ℤ) (ds : List (Bytes × Bytes))
      → sweep.domains ≡ some ds
      → nonpos s.half_life ≡ false
      → (result next).1
        ≡ exec floats redis later (decay floats (decay_factor floats s.half_life s.prefetch))
  unfolding ranked_sweep sweep_decay
  sweep-decay next ds listed on = rw (listed, sweep_decay) (rw on refl)

  asked-top :
      (o : Option (List (ScoredMember F)))
      → top floats redis st s.top_n (min_prefetch_score floats) ≡ o
      → asked.top ≡ Option.map (map (λ (m : ScoredMember F). m.member)) o
  unfolding asking_top
  asked-top o at = ap (Option.map (map (λ (m : ScoredMember F). m.member))) at

  dynamic_none :
      (sw : Sweep) (p : Progress)
      → nonpos s.top_n ≡ false
      → sw.top ≡ none
      → prefetch_dynamic lib requests responses updates s sw p ≡ p
  unfolding prefetch_dynamic
  dynamic_none sw p on nothing = ground (arith, on, nothing)

  entries_of-Different :
      (found : List (ScoredMember F))
      → Different (names_of (entries_of found))
      → Different (members_of found)
  entries_of-Different found h = subst Different (members_of-names found) h

  -- The ranked part of a sweep whose members have been found.
  found-Refreshes :
      (n : ℕ) (next : Map ℤ) (ds : List (Bytes × Bytes)) (found : List (ScoredMember F))
      → s.top_n ≡ pos (suc n)
      → sweep.domains ≡ some ds
      → top floats redis st s.top_n (min_prefetch_score floats) ≡ some found
      → IsTop floats (suc n) (min_prefetch_score floats) (ranking st) (entries_of found)
      → Refreshes (suc n) next ds
  found-Refreshes n next ds found size listed at tops =
      let at_top : asked.top ≡ some (members_of found) = asked-top (some found) at in
      let on : nonpos s.top_n ≡ false = subst (λ z. nonpos z ≡ false) (sym size) (ground arith) in
      let planned =
        prefetch_dynamic-Swept lib requests responses updates s asked (after_fixed next ds)
          (members_of found) on at_top (entries_of-Different found tops.once) in
      inr (
        found,
        at_top,
        tops,
        subst
            (λ r.
              Swept lib requests responses updates s asked (after_fixed next ds) r
                (due_dynamic lib (members_of found) (after_fixed next ds).next sweep.ranked_at))
            (sym (sweep-dynamic next ds listed))
            (subst
              (λ t.
                Swept lib requests responses updates s asked (after_fixed next ds)
                  (prefetch_dynamic lib requests responses updates s asked (after_fixed next ds))
                  (due_dynamic lib (members_of found) (after_fixed next ds).next t))
              asked-ranked_at planned),
      )

  -- A sweep that gets the fixed domains, with prefetching by rank and a decay factor between 0 and
  -- 1, plans, after them, those that are due of the highest-ranked members with a score of 2 or
  -- more, as many as the setting says or all of them, each by the outcome of its refresh, or does
  -- nothing more if Redis reports an error; and then leaves the ranking that it finds decayed once
  -- by that factor.
  pub ranked_sweep-Refreshes :
      (n : ℕ) (next : Map ℤ) (ds : List (Bytes × Bytes))
      → s.top_n ≡ pos (suc n)
      → sweep.domains ≡ some ds
      → nonpos s.half_life ≡ false
      → le one (decay_factor floats s.half_life s.prefetch) ≡ false
      → le (decay_factor floats s.half_life s.prefetch) zero ≡ false
      → Refreshes (suc n) next ds
        × Decayed floats mul
            (decay_factor floats s.half_life s.prefetch)
            (ranking later)
            (ranking (result next).1)
  ranked_sweep-Refreshes n next ds size listed on below above = (
    elim (top-IsTop floats redis mul add ranking law st n (min_prefetch_score floats)) [
      | inl down ↦
          let nothing = asked-top none (
            subst (λ k. top floats redis st k (min_prefetch_score floats) ≡ none) (sym size)
              down) in
          inl (
            nothing,
            sweep-dynamic next ds listed
                ∙ dynamic_none asked (after_fixed next ds)
                    (subst (λ z. nonpos z ≡ false) (sym size) (ground arith)) nothing,
          )
      | inr (found, at, tops) ↦
          found-Refreshes n next ds found size listed
            (subst (λ k. top floats redis st k (min_prefetch_score floats) ≡ some found) (sym size)
              at)
            tops
    ],
    subst
        (λ t.
          Decayed floats mul (decay_factor floats s.half_life s.prefetch) (ranking later)
            (ranking t))
        (sym (sweep-decay next ds listed on))
        (decay-Decayed floats redis mul add ranking law later _ below above),
  )
