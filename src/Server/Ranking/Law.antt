-- ===== src/Server/Ranking/Law.antt =====
-- internal/server/stats.go: what Redis documents of the sorted set, and what is used of `float64`.
use redis_dns.Prelude.{
  ℕ, suc, ◌≡◌, ◌≢◌, ◌⊎◌, true, false, not, List, [], ◌∷◌, none, some, All, Any, take, filter_by,
  map,
}
use redis_dns.Prelude.Bytes.{Bytes, ascii}
use redis_dns.Prelude.Int.{pos, negsuc}
use redis_dns.Server.Ranking.{
  Floats, SortedSet, zincrby, zunionstore, zremrangebyscore, zremrangebyrank,
}
use redis_dns.Server.Prefetch.Spacing.{Different}

abbrev pub Has : {F : Type 0} → Bytes → F → List (Bytes × F) → Type 0
Has m x entries = Any (λ e. e ≡ (m, x)) entries

abbrev pub names_of : {F : Type 0} → List (Bytes × F) → List Bytes
names_of entries = map (λ e. e.0) entries

module _ {F : Type 0} (floats : Floats F) where
  open floats use {zero, one, two, le, format_float}

  -- No entry ranks above one before it.
  abbrev pub Descending : List (Bytes × F) → Type 0
  Descending [] = Unit
  Descending (e ∷ es) = All (λ x. le x.1 e.1 ≡ true) es × Descending es

  -- `ranking` is what ZREVRANGE 0 -1 WITHSCORES returns: every member once, the highest first.
  -- Redis multiplies and adds doubles, and reads a bound back as the number that was formatted.
  -- From the rank 0 up to the rank -(j + 1) are all members but the j highest.
  pub record IsSortedSet {S : Type 0} (redis : SortedSet F S) (mul add : F → F → F)
      (ranking : S → List (Bytes × F)) : Type 0 where
    pub descends : (st : S) → Descending (ranking st)
    pub once : (st : S) → Different (names_of (ranking st))
    pub scales :
        (st : S) (w : F) (m : Bytes) (y : F)
        → Has m y (ranking st)
        → Has m (mul w y) (ranking (redis.after st (zunionstore w)))
    pub scaled :
        (st : S) (w : F) (m : Bytes) (x : F)
        → Has m x (ranking (redis.after st (zunionstore w)))
        → (y : F) × Has m y (ranking st) × (x ≡ mul w y)
    pub drops_low :
        (st : S) (bound : F)
        → ranking (redis.after st (zremrangebyscore (ascii "-inf") (format_float bound)))
          ≡ filter_by (λ e. not (le e.1 bound)) (ranking st)
    pub keeps_highest :
        (st : S) (j : ℕ)
        → ranking (redis.after st (zremrangebyrank (pos 0) (negsuc j))) ≡ take j (ranking st)
    pub counted :
        (st : S) (m : Bytes) (x : F)
        → Has m x (ranking (redis.after st (zincrby m)))
        → ((x ≡ one) × ((y : F) → Has m y (ranking st) → ⊥))
          ⊎ ((y : F) × Has m y (ranking st) × (x ≡ add y one))
    pub counts :
        (st : S) (m : Bytes)
        → (((y : F) → Has m y (ranking st) → ⊥) → Has m one (ranking (redis.after st (zincrby m))))
          × ((y : F)
              → Has m y (ranking st)
              → Has m (add y one) (ranking (redis.after st (zincrby m))))
    pub counted_other :
        (st : S) (m k : Bytes) (x : F)
        → k ≢ m
        → Has k x (ranking (redis.after st (zincrby m)))
        → Has k x (ranking st)
    pub counts_other :
        (st : S) (m k : Bytes) (x : F)
        → k ≢ m
        → Has k x (ranking st)
        → Has k x (ranking (redis.after st (zincrby m)))
    pub finds :
        (st : S) (bound : F) (n : ℕ)
        → (redis.zrevrangebyscore st (format_float bound) (ascii "+inf") (pos (suc n)) ≡ none)
          ⊎ (redis.zrevrangebyscore st (format_float bound) (ascii "+inf") (pos (suc n))
              ≡ some (take (suc n) (filter_by (λ e. le bound e.1) (ranking st))))

  -- A number from 0 to 1.
  abbrev pub IsShare : F → Type 0
  IsShare x = (le zero x ≡ true) × (le x one ≡ true)

  -- A product of two such numbers is one, also when it is rounded; 2 is more than 1, 1 + 1 is 2, and
  -- a number from 2 on stays there when 1 is added.
  pub record IsRounded (mul add : F → F → F) : Type 0 where
    pub one_share : IsShare one
    pub product : (w x : F) → IsShare w → IsShare x → IsShare (mul w x)
    pub two_above : (x : F) → le x one ≡ true → le two x ≡ false
    pub one_and_one : add one one ≡ two
    pub same_two : le two two ≡ true
    pub two_grows : (x : F) → le two x ≡ true → le two (add x one) ≡ true
