-- ===== src/Server/Ranking/Topping.antt =====
-- internal/server/stats.go: what `Top` returns.
use redis_dns.Prelude.{
  ℕ, suc, ◌≡◌, ◌⊎◌, ◌≤◌, inl, inr, refl, sym, ap, subst, true, List, [], ◌∷◌, none, some, All, take,
  filter_by, map, length,
}
use redis_dns.Prelude.Bytes.{Bytes}
use redis_dns.Prelude.Int.{pos}
use redis_dns.Server.Ranking.{Floats, SortedSet, ScoredMember, top}
use redis_dns.Server.Ranking.Law.{Has, names_of, Descending, IsSortedSet}
use redis_dns.Server.Ranking.Entries.{
  length-take-le, Has-take, Has-filter_by, filter_by-Has, filter_by-Descending, filter_by-Different,
  take-Descending, take-Different, take-cases,
}
use redis_dns.Server.Prefetch.Spacing.{Different}

-- The members and scores of a list of scored members.
abbrev pub entries_of : {F : Type 0} → List (ScoredMember F) → List (Bytes × F)
entries_of [] = []
entries_of (m ∷ ms) = (m.member, m.score) ∷ entries_of ms

-- The `n` highest of a ranking whose scores are a bound at least: each member once, the highest
-- first, and whatever else reaches the bound ranks no higher than any of `n`.
pub record IsTop {F : Type 0} (floats : Floats F) (n : ℕ) (bound : F)
    (ranking found : List (Bytes × F)) : Type 0 where
  pub few : length found ≤ n
  pub once : Different (names_of found)
  pub descends : Descending floats found
  pub listed : (m : Bytes) (x : F) → Has m x found → Has m x ranking × (floats.le bound x ≡ true)
  pub best :
      (m : Bytes) (x : F)
      → Has m x ranking
      → floats.le bound x ≡ true
      → Has m x found ⊎ ((length found ≡ n) × All (λ e. floats.le x e.1 ≡ true) found)

entries_of-map :
    {F : Type 0} (es : List (Bytes × F))
    → entries_of (map (λ z. record { member = z.0; score = z.1 }) es) ≡ es
entries_of-map [] = refl
entries_of-map (e ∷ es) = ap (λ xs. e ∷ xs) (entries_of-map es)

module _ {F S : Type 0} (floats : Floats F) (redis : SortedSet F S) (mul add : F → F → F)
    (ranking : S → List (Bytes × F)) (law : IsSortedSet floats redis mul add ranking) where
  open floats use {le, format_float}

  taken-IsTop :
      (st : S) (n : ℕ) (bound : F)
      → IsTop floats n bound (ranking st) (take n (filter_by (λ e. le bound e.1) (ranking st)))
  taken-IsTop st n bound =
      let high = filter_by (λ e. le bound e.1) (ranking st) in
      let falls = filter_by-Descending floats (λ e. le bound e.1) (ranking st) (law.descends st) in
      record {
        few = length-take-le n high;
        once = take-Different n high (filter_by-Different _ (ranking st) (law.once st));
        descends = take-Descending floats n high falls;
        listed =
            λ m x h. Has-filter_by (λ e. le bound e.1) m x (ranking st) (Has-take n m x high h);
        best = λ m x h reaches.
            take-cases floats n m x high falls
              (filter_by-Has (λ e. le bound e.1) m x (ranking st) h reaches);
      }

  -- `Top` for a positive number reports the error of Redis, or returns that many of the members
  -- with the least score or more, the highest first.
  pub top-IsTop :
      (st : S) (n : ℕ) (bound : F)
      → (top floats redis st (pos (suc n)) bound ≡ none)
        ⊎ ((found : List (ScoredMember F)) × (top floats redis st (pos (suc n)) bound ≡ some found)
            × IsTop floats (suc n) bound (ranking st) (entries_of found))
  unfolding top
  top-IsTop st n bound = elim (law.finds st bound n) [
    | inl down ↦ inl (rw (down, top))
    | inr at ↦
        let high = take (suc n) (filter_by (λ e. le bound e.1) (ranking st)) in
        inr (
          map (λ z. record { member = z.0; score = z.1 }) high,
          rw (at, top),
          subst (IsTop floats (suc n) bound (ranking st)) (sym (entries_of-map high))
              (taken-IsTop st (suc n) bound),
        )
  ]
