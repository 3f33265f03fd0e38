-- ===== src/Tests/Zsets.antt =====
-- For the ranking of queried names: a sorted list in place of Redis.
use redis_dns.Prelude.{
  ℕ, ◌+◌, ◌*◌, ◌≡◌, ◌≢◌, ◌≤◌, ◌⊎◌, inl, inr, refl, sym, ap, subst, ◌∙◌, true, not, [], ◌∷◌, Option,
  none, some, arith, leb, take, filter_by, All, Bool-cases, Option-cases,
}
use native.Mathlib.Nat.{mul-le-mul}
use redis_dns.Prelude.Bytes.{Bytes, bytes_eq, bytes_eq_refl, bytes_eq-eq, bytes_eq_iff}
use redis_dns.Prelude.Int.{ℤ, pos, negsuc}
use redis_dns.Server.Prefetch.Spacing.{Different}
use redis_dns.Server.Ranking.{
  Command, zincrby, zunionstore, zremrangebyscore, zremrangebyrank, SortedSet,
}
use redis_dns.Server.Ranking.Law.{Has, names_of, Descending, IsSortedSet, IsRounded}
use redis_dns.Server.Ranking.Entries.{
  names_of-All, Has-filter_by, filter_by-Has, filter_by-Descending, filter_by-Different,
  take-Descending, take-Different,
}
use redis_dns.Tests.Scores.{
  quarters, mul, Entries, place, place-Has, place-Descending, place-Different, without, without-All,
  score_of, score_of-none, score_of-some, scale, scale-Descending, scale-names, scale-Has,
  Has-scale,
}

-- A sorted set: each member once, the highest first.
pub record Zset : Type 0 where
  pub entries : Entries
  pub descends : Descending quarters entries
  pub once : Different (names_of entries)

abbrev raised : Option ℕ → ℕ
raised none = 4
raised (some y) = y + 4

abbrev number : Bytes → ℕ
number [] = 0
number (x ∷ xs) = x

abbrev pub kept : ℤ → Entries → Entries
kept (pos n) es = es
kept (negsuc j) es = take j es

pub kept-Descending :
    (r : ℤ) (es : Entries) → Descending quarters es → Descending quarters (kept r es)
kept-Descending (pos n) es h = h
kept-Descending (negsuc j) es h = take-Descending quarters j es h

pub kept-Different :
    (r : ℤ) (es : Entries) → Different (names_of es) → Different (names_of (kept r es))
kept-Different (pos n) es h = h
kept-Different (negsuc j) es h = take-Different j es h

abbrev after : Zset → Command ℕ → Zset
after z (zincrby m) = record {
  entries = place m (raised (score_of m z.entries)) (without m z.entries);
  descends =
      place-Descending m (raised (score_of m z.entries)) (without m z.entries)
        (filter_by-Descending quarters _ z.entries z.descends);
  once =
      place-Different m (raised (score_of m z.entries)) (without m z.entries)
        (without-All m z.entries) (filter_by-Different _ z.entries z.once);
}
after z (zunionstore w) = record {
  entries = scale w z.entries;
  descends = scale-Descending w z.entries z.descends;
  once = subst Different (sym (scale-names w z.entries)) z.once;
}
after z (zremrangebyscore low high) = record {
  entries = filter_by (λ e. not (leb e.1 (number high))) z.entries;
  descends = filter_by-Descending quarters _ z.entries z.descends;
  once = filter_by-Different _ z.entries z.once;
}
after z (zremrangebyrank low high) = record {
  entries = kept high z.entries;
  descends = kept-Descending high z.entries z.descends;
  once = kept-Different high z.entries z.once;
}

abbrev limited : ℤ → Entries → Option Entries
limited (pos n) es = some (take n es)
limited (negsuc n) es = none

abbrev pub redis : SortedSet ℕ Zset
redis = record {
  after = after;
  zrevrangebyscore = λ z low high n. limited n (filter_by (λ e. leb (number low) e.1) z.entries);
}

raised-counted :
    (m : Bytes) (es : Entries)
    → ((raised (score_of m es) ≡ 4) × ((y : ℕ) → Has m y es → ⊥))
      ⊎ ((y : ℕ) × Has m y es × (raised (score_of m es) ≡ y + 4))
raised-counted m es = elim (Option-cases (score_of m es)) [
  | inl new ↦ inl (ap raised new, λ y there. score_of-none m y es new there)
  | inr (y, old) ↦ inr (y, score_of-some m y es old, ap raised old)
]

lacks : (m : Bytes) (x : ℕ) (es : Entries) → Has m x es → All (λ e. e.0 ≢ m) es → ⊥
lacks m x [] h new = elim h [ ]
lacks m x (e ∷ es) (inl is) new = new.0 (ap (λ (p : Bytes × ℕ). p.0) is)
lacks m x (e ∷ es) (inr h) new = lacks m x es h new.1

score_of-Has :
    (m : Bytes) (y : ℕ) (es : Entries)
    → Different (names_of es)
    → Has m y es
    → score_of m es ≡ some y
score_of-Has m y [] once h = elim h [ ]
score_of-Has m y (e ∷ es) once (inl is) =
    let same : bytes_eq e.0 m ≡ true =
      subst (λ (p : Bytes × ℕ). bytes_eq p.0 m ≡ true) (sym is) (bytes_eq_refl m) in
    rw same (ap (λ (p : Bytes × ℕ). some p.1) is)
score_of-Has m y (e ∷ es) once (inr later) = elim (Bool-cases (bytes_eq e.0 m)) [
  | inl same ↦
      let is : e.0 ≡ m = bytes_eq-eq e.0 m same in
      absurd (
        lacks m y es later
          (names_of-All (λ k. k ≢ m) es (subst (λ n. All (λ k. k ≢ n) (names_of es)) is once.0)))
  | inr other ↦ rw other (score_of-Has m y es once.1 later)
]

placed : (m : Bytes) (x : ℕ) (es : Entries) → Has m x (place m x es)
placed m x [] = inl refl
placed m x (e ∷ es) = elim (Bool-cases (leb e.1 x)) [
  | inl low ↦ rw low (inl refl)
  | inr high ↦ rw high (inr (placed m x es))
]

placed_other : (m k : Bytes) (x y : ℕ) (es : Entries) → Has k y es → Has k y (place m x es)
placed_other m k x y [] h = elim h [ ]
placed_other m k x y (e ∷ es) h = elim (Bool-cases (leb e.1 x)) [
  | inl low ↦ rw low (inr h)
  | inr high ↦
      rw high (elim h [ inl is ↦ inl is | inr later ↦ inr (placed_other m k x y es later) ])
]

unscored : (m : Bytes) (es : Entries) → ((y : ℕ) → Has m y es → ⊥) → score_of m es ≡ none
unscored m es nowhere = elim (Option-cases (score_of m es)) [
  | inl new ↦ new
  | inr (y, old) ↦ absurd (nowhere y (score_of-some m y es old))
]

product-share : (w x : ℕ) → leb w 4 ≡ true → leb x 4 ≡ true → leb (mul w x) 4 ≡ true
product-share w x hw hx =
    let le : w * x ≤ 4 * 4 =
      mul-le-mul {n₁ = w} {m₁ = x} {n₂ = 4} {m₂ = 4} (ground arith) (ground arith) in
    ground arith

pub law : IsSortedSet quarters redis mul (λ a b. a + b) (λ z. z.entries)
law = record {
  descends = λ z. z.descends;
  once = λ z. z.once;
  scales = λ z w m y h. scale-Has w y m z.entries h;
  scaled = λ z w m x h. Has-scale w x m z.entries h;
  drops_low = λ z bound. refl;
  keeps_highest = λ z j. refl;
  counted = λ z m x h.
      elim (place-Has m m (raised (score_of m z.entries)) x (without m z.entries) h) [
        | inl (_, is) ↦ elim (raised-counted m z.entries) [
          | inl (new, nowhere) ↦ inl (sym is ∙ new, nowhere)
          | inr (y, there, more) ↦ inr (y, there, sym is ∙ more)
        ]
        | inr there ↦ absurd (lacks m x (without m z.entries) there (without-All m z.entries))
      ];
  counts = λ z m. (
    λ nowhere.
        subst
          (λ o. Has m (raised o) (place m (raised (score_of m z.entries)) (without m z.entries)))
          (unscored m z.entries nowhere)
          (placed m (raised (score_of m z.entries)) (without m z.entries)),
    λ y there.
        subst
          (λ o. Has m (raised o) (place m (raised (score_of m z.entries)) (without m z.entries)))
          (score_of-Has m y z.entries z.once there)
          (placed m (raised (score_of m z.entries)) (without m z.entries)),
  );
  counted_other = λ z m k x other h.
      elim (place-Has m k (raised (score_of m z.entries)) x (without m z.entries) h) [
        | inl (is, _) ↦ absurd (other (sym is))
        | inr there ↦ (Has-filter_by _ k x z.entries there).0
      ];
  counts_other = λ z m k x other h.
      placed_other m k (raised (score_of m z.entries)) x (without m z.entries)
        (filter_by-Has _ k x z.entries h (ground (arith, bytes_eq_iff k m)));
  finds = λ z bound n. inr refl;
}

pub rounded : IsRounded quarters mul (λ a b. a + b)
rounded = record {
  one_share = (refl, refl);
  product = λ w x hw hx. (ground arith, product-share w x hw.1 hx.1);
  two_above = λ x h. ground arith;
  one_and_one = refl;
  same_two = refl;
  two_grows = λ x h. ground arith;
}
