-- ===== src/Server/Ranking/Entries.antt =====
-- internal/server/stats.go: lists of members with their scores, highest first.
use redis_dns.Prelude.{
  ℕ, zero, suc, ◌≡◌, ◌≢◌, ◌⊎◌, ◌≤◌, inl, inr, refl, sym, ap, subst, ◌∙◌, Bool, true, List, [], ◌∷◌,
  arith, All, take, filter_by, length, Bool-cases, if◌then◌else◌,
}
use redis_dns.Prelude.Bytes.{Bytes}
use redis_dns.Server.Ranking.{Floats}
use redis_dns.Server.Ranking.Law.{Has, names_of, Descending}
use redis_dns.Server.Prefetch.Spacing.{Different}

module _ {A : Type 0} where
  pub All-filter_by :
      (P : A → Type 0) (p : A → Bool) (es : List A) → All P es → All P (filter_by p es)
  All-filter_by P p [] h = tt
  All-filter_by P p (e ∷ es) h = elim (Bool-cases (p e)) [
    | inl kept ↦ rw kept (h.0, All-filter_by P p es h.1)
    | inr cut ↦ rw cut (All-filter_by P p es h.1)
  ]

  pub All-take : (P : A → Type 0) (n : ℕ) (es : List A) → All P es → All P (take n es)
  All-take P zero es h = tt
  All-take P (suc n) [] h = tt
  All-take P (suc n) (e ∷ es) h = (h.0, All-take P n es h.1)

  pub length-take-le : (n : ℕ) (es : List A) → length (take n es) ≤ n
  length-take-le zero es = omega arith
  length-take-le (suc n) [] = omega arith
  length-take-le (suc n) (e ∷ es) = omega (arith, length-take-le n es)

module _ {F : Type 0} where
  pub Has-filter_by :
      (p : Bytes × F → Bool) (m : Bytes) (x : F) (es : List (Bytes × F))
      → Has m x (filter_by p es)
      → Has m x es × (p (m, x) ≡ true)
  Has-filter_by p m x [] h = elim h [ ]
  Has-filter_by p m x (e ∷ es) h = elim (Bool-cases (p e)) [
    | inl kept ↦
        elim (subst (λ b. Has m x (if b then e ∷ filter_by p es else filter_by p es)) kept h) [
          | inl is ↦ (inl is, ap p (sym is) ∙ kept)
          | inr later ↦ let (there, passes) = Has-filter_by p m x es later in (inr there, passes)
        ]
    | inr cut ↦
        let (there, passes) =
          Has-filter_by p m x es
            (subst (λ b. Has m x (if b then e ∷ filter_by p es else filter_by p es)) cut h) in
        (inr there, passes)
  ]

  pub filter_by-Has :
      (p : Bytes × F → Bool) (m : Bytes) (x : F) (es : List (Bytes × F))
      → Has m x es
      → p (m, x) ≡ true
      → Has m x (filter_by p es)
  filter_by-Has p m x [] h passes = h
  filter_by-Has p m x (e ∷ es) (inl is) passes = rw (ap p is ∙ passes) (inl is)
  filter_by-Has p m x (e ∷ es) (inr later) passes = elim (Bool-cases (p e)) [
    | inl kept ↦ rw kept (inr (filter_by-Has p m x es later passes))
    | inr cut ↦ rw cut (filter_by-Has p m x es later passes)
  ]

  pub Has-take :
      (n : ℕ) (m : Bytes) (x : F) (es : List (Bytes × F)) → Has m x (take n es) → Has m x es
  Has-take zero m x es h = elim h [ ]
  Has-take (suc n) m x [] h = h
  Has-take (suc n) m x (e ∷ es) (inl is) = inl is
  Has-take (suc n) m x (e ∷ es) (inr later) = inr (Has-take n m x es later)

  All-Has :
      (P : Bytes × F → Type 0) (m : Bytes) (x : F) (es : List (Bytes × F))
      → All P es
      → Has m x es
      → P (m, x)
  All-Has P m x [] h k = elim k [ ]
  All-Has P m x (e ∷ es) h (inl is) = subst P is h.0
  All-Has P m x (e ∷ es) h (inr later) = All-Has P m x es h.1 later

  pub names_of-All :
      (P : Bytes → Type 0) (es : List (Bytes × F)) → All P (names_of es) → All (λ e. P e.0) es
  names_of-All P [] h = tt
  names_of-All P (e ∷ es) h = (h.0, names_of-All P es h.1)

  pub All-names_of :
      (P : Bytes → Type 0) (es : List (Bytes × F)) → All (λ e. P e.0) es → All P (names_of es)
  All-names_of P [] h = tt
  All-names_of P (e ∷ es) h = (h.0, All-names_of P es h.1)

  pub filter_by-Different :
      (p : Bytes × F → Bool) (es : List (Bytes × F))
      → Different (names_of es)
      → Different (names_of (filter_by p es))
  filter_by-Different p [] h = tt
  filter_by-Different p (e ∷ es) h = elim (Bool-cases (p e)) [
    | inl kept ↦ rw kept (
      All-names_of (λ x. x ≢ e.0) (filter_by p es)
          (All-filter_by (λ x. x.0 ≢ e.0) p es (names_of-All (λ x. x ≢ e.0) es h.0)),
      filter_by-Different p es h.1,
    )
    | inr cut ↦ rw cut (filter_by-Different p es h.1)
  ]

  pub take-Different :
      (n : ℕ) (es : List (Bytes × F)) → Different (names_of es) → Different (names_of (take n es))
  take-Different zero es h = tt
  take-Different (suc n) [] h = tt
  take-Different (suc n) (e ∷ es) h = (
    All-names_of (λ x. x ≢ e.0) (take n es)
        (All-take (λ x. x.0 ≢ e.0) n es (names_of-All (λ x. x ≢ e.0) es h.0)),
    take-Different n es h.1,
  )

  module _ (floats : Floats F) where
    open floats use {le}

    pub filter_by-Descending :
        (p : Bytes × F → Bool) (es : List (Bytes × F))
        → Descending floats es
        → Descending floats (filter_by p es)
    filter_by-Descending p [] h = tt
    filter_by-Descending p (e ∷ es) h = elim (Bool-cases (p e)) [
      | inl kept ↦ rw kept (All-filter_by _ p es h.0, filter_by-Descending p es h.1)
      | inr cut ↦ rw cut (filter_by-Descending p es h.1)
    ]

    pub take-Descending :
        (n : ℕ) (es : List (Bytes × F)) → Descending floats es → Descending floats (take n es)
    take-Descending zero es h = tt
    take-Descending (suc n) [] h = tt
    take-Descending (suc n) (e ∷ es) h = (All-take _ n es h.0, take-Descending n es h.1)

    -- What is not among the first `n` ranks no higher than any of them, of which there are `n`.
    pub take-cases :
        (n : ℕ) (m : Bytes) (x : F) (es : List (Bytes × F))
        → Descending floats es
        → Has m x es
        → Has m x (take n es) ⊎ ((length (take n es) ≡ n) × All (λ e. le x e.1 ≡ true) (take n es))
    take-cases zero m x es h k = inr (refl, tt)
    take-cases (suc n) m x [] h k = elim k [ ]
    take-cases (suc n) m x (e ∷ es) h (inl is) = inl (inl is)
    take-cases (suc n) m x (e ∷ es) h (inr later) = elim (take-cases n m x es h.1 later) [
      | inl in_front ↦ inl (inr in_front)
      | inr (full, above) ↦
          inr (ap suc full, (All-Has (λ y. le y.1 e.1 ≡ true) m x es h.0 later, above))
    ]
