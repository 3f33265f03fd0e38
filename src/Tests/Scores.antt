-- ===== src/Tests/Scores.antt =====
-- For the ranking of queried names: quarters in place of floating-point numbers, and sorted lists of
-- members with such scores.
use redis_dns.Prelude.{
  ℕ, ◌*◌, ◌/◌, ◌≡◌, ◌≢◌, ◌≤◌, ◌⊎◌, inl, inr, refl, sym, ap, subst, ◌∙◌, true, not, List, [], ◌∷◌,
  Option, none, some, arith, if◌then◌else◌, leb, filter_by, All, Bool-cases, none_clash,
}
use native.Mathlib.Nat.{mul-le-mul_left}
use redis_dns.Prelude.Bytes.{Bytes, bytes_eq, bytes_eq-eq, bytes_eq_iff}
use redis_dns.Prelude.Int.{pos, negsuc}
use redis_dns.Server.Prefetch.Spacing.{Different}
use redis_dns.Server.Ranking.{Floats}
use redis_dns.Server.Ranking.Law.{Has, names_of, Descending}
use redis_dns.Server.Ranking.Entries.{names_of-All, All-names_of}

abbrev pub quarters : Floats ℕ
quarters = record {
  zero = 0;
  half = 2;
  one = 4;
  two = 8;
  le = leb;
  div = λ a b. a / b;
  pow = λ a b. a;
  of_duration = λ d. elim d [ pos n ↦ n | negsuc n ↦ 0 ];
  format_float = λ x. x ∷ [];
}

abbrev pub mul : ℕ → ℕ → ℕ
mul w x = w * x / 4

abbrev pub Entries : Type 0
Entries = List (Bytes × ℕ)

-- A new entry goes before the first that is not higher.
abbrev pub place : Bytes → ℕ → Entries → Entries
place m x [] = (m, x) ∷ []
place m x (e ∷ es) = if leb e.1 x then (m, x) ∷ e ∷ es else e ∷ place m x es

place-All :
    (P : Bytes × ℕ → Type 0) (m : Bytes) (x : ℕ) (es : Entries)
    → P (m, x)
    → All P es
    → All P (place m x es)
place-All P m x [] p h = (p, tt)
place-All P m x (e ∷ es) p h = elim (Bool-cases (leb e.1 x)) [
  | inl low ↦ rw low (p, h)
  | inr high ↦ rw high (h.0, place-All P m x es p h.1)
]

All-below :
    (x y : ℕ) (es : Entries)
    → leb y x ≡ true
    → All (λ e. leb e.1 y ≡ true) es
    → All (λ e. leb e.1 x ≡ true) es
All-below x y [] le h = tt
All-below x y (e ∷ es) le h = (ground (arith, h.0), All-below x y es le h.1)

pub place-Descending :
    (m : Bytes) (x : ℕ) (es : Entries) → Descending quarters es → Descending quarters (place m x es)
place-Descending m x [] h = (tt, tt)
place-Descending m x (e ∷ es) h = elim (Bool-cases (leb e.1 x)) [
  | inl low ↦ rw low ((low, All-below x e.1 es low h.0), h)
  | inr high ↦ rw high (place-All _ m x es (ground arith) h.0, place-Descending m x es h.1)
]

pub place-Different :
    (m : Bytes) (x : ℕ) (es : Entries)
    → All (λ e. e.0 ≢ m) es
    → Different (names_of es)
    → Different (names_of (place m x es))
place-Different m x [] new h = (tt, tt)
place-Different m x (e ∷ es) new h = elim (Bool-cases (leb e.1 x)) [
  | inl low ↦ rw low (All-names_of (λ k. k ≢ m) (e ∷ es) new, h)
  | inr high ↦ rw high (
    All-names_of (λ k. k ≢ e.0) (place m x es)
        (place-All (λ y. y.0 ≢ e.0) m x es (λ same. new.0 (sym same))
          (names_of-All (λ k. k ≢ e.0) es h.0)),
    place-Different m x es new.1 h.1,
  )
]

pub place-Has :
    (m k : Bytes) (x y : ℕ) (es : Entries)
    → Has k y (place m x es)
    → ((m ≡ k) × (x ≡ y)) ⊎ Has k y es
place-Has m k x y [] (inl is) = inl (ap (λ e. e.0) is, ap (λ e. e.1) is)
place-Has m k x y [] (inr h) = inr h
place-Has m k x y (e ∷ es) h = elim (Bool-cases (leb e.1 x)) [
  | inl low ↦ elim (subst (λ b. Has k y (if b then (m, x) ∷ e ∷ es else e ∷ place m x es)) low h) [
    | inl is ↦ inl (ap (λ e. e.0) is, ap (λ e. e.1) is)
    | inr rest ↦ inr rest
  ]
  | inr high ↦
      elim (subst (λ b. Has k y (if b then (m, x) ∷ e ∷ es else e ∷ place m x es)) high h) [
        | inl is ↦ inr (inl is)
        | inr rest ↦ elim (place-Has m k x y es rest) [
          | inl new ↦ inl new
          | inr old ↦ inr (inr old)
        ]
      ]
]

-- A set without one of its members.
abbrev pub without : Bytes → Entries → Entries
without m es = filter_by (λ e. not (bytes_eq e.0 m)) es

pub without-All : (m : Bytes) (es : Entries) → All (λ e. e.0 ≢ m) (without m es)
without-All m [] = tt
without-All m (e ∷ es) = elim (Bool-cases (bytes_eq e.0 m)) [
  | inl same ↦ rw same (without-All m es)
  | inr other ↦ rw other ((λ is. absurd (ground (arith, bytes_eq_iff e.0 m))), without-All m es)
]

abbrev pub score_of : Bytes → Entries → Option ℕ
score_of m [] = none
score_of m (e ∷ es) = if bytes_eq e.0 m then some e.1 else score_of m es

pub score_of-none : (m : Bytes) (y : ℕ) (es : Entries) → score_of m es ≡ none → Has m y es → ⊥
score_of-none m y [] h there = there
score_of-none m y (e ∷ es) h there = elim (Bool-cases (bytes_eq e.0 m)) [
  | inl same ↦ let hit : score_of m (e ∷ es) ≡ some e.1 = rw same refl in none_clash (sym h ∙ hit)
  | inr other ↦ elim there [
    | inl is ↦ absurd (ground (arith, other, ap (λ (p : Bytes × ℕ). p.0) is, bytes_eq_iff e.0 m))
    | inr later ↦ score_of-none m y es (ground arith) later
  ]
]

pub score_of-some : (m : Bytes) (y : ℕ) (es : Entries) → score_of m es ≡ some y → Has m y es
score_of-some m y [] h = absurd (none_clash h)
score_of-some m y (e ∷ es) h = elim (Bool-cases (bytes_eq e.0 m)) [
  | inl same ↦
      let is : e.1 ≡ y = ground arith in
      inl (ap (λ k. (k, e.1)) (bytes_eq-eq e.0 m same) ∙ ap (λ z. (m, z)) is)
  | inr other ↦ inr (score_of-some m y es (ground arith))
]

abbrev pub scale : ℕ → Entries → Entries
scale w [] = []
scale w (e ∷ es) = (e.0, mul w e.1) ∷ scale w es

mul-monotone : (w x y : ℕ) → leb x y ≡ true → leb (mul w x) (mul w y) ≡ true
mul-monotone w x y h = let le : w * x ≤ w * y = mul-le-mul_left w (ground arith) in ground arith

pub scale-Descending :
    (w : ℕ) (es : Entries) → Descending quarters es → Descending quarters (scale w es)
scale-Descending w [] h = tt
scale-Descending w (e ∷ es) h = (scale-All w e.1 es h.0, scale-Descending w es h.1)
  where
    scale-All :
        (w y : ℕ) (es : Entries)
        → All (λ e. leb e.1 y ≡ true) es
        → All (λ e. leb e.1 (mul w y) ≡ true) (scale w es)
    scale-All w y [] h = tt
    scale-All w y (e ∷ es) h = (mul-monotone w e.1 y h.0, scale-All w y es h.1)

pub scale-names : (w : ℕ) (es : Entries) → names_of (scale w es) ≡ names_of es
scale-names w [] = refl
scale-names w (e ∷ es) = ap (λ ns. e.0 ∷ ns) (scale-names w es)

pub scale-Has : (w y : ℕ) (m : Bytes) (es : Entries) → Has m y es → Has m (mul w y) (scale w es)
scale-Has w y m [] h = h
scale-Has w y m (e ∷ es) (inl is) = inl (ap (λ (p : Bytes × ℕ). (p.0, mul w p.1)) is)
scale-Has w y m (e ∷ es) (inr h) = inr (scale-Has w y m es h)

pub Has-scale :
    (w x : ℕ) (m : Bytes) (es : Entries)
    → Has m x (scale w es)
    → (y : ℕ) × Has m y es × (x ≡ mul w y)
Has-scale w x m [] h = elim h [ ]
Has-scale w x m (e ∷ es) (inl is) = (
  e.1,
  inl (ap (λ k. (k, e.1)) (ap (λ (p : Bytes × ℕ). p.0) is)),
  sym (ap (λ (p : Bytes × ℕ). p.1) is),
)
Has-scale w x m (e ∷ es) (inr h) = let (y, there, is) = Has-scale w x m es h in (y, inr there, is)
