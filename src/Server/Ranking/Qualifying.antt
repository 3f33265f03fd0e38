-- ===== src/Server/Ranking/Qualifying.antt =====
-- internal/server/stats.go: which names qualify for prefetching.
use redis_dns.Prelude.{
  ℕ, suc, ◌≡◌, ◌⊎◌, ◌≤◌, inl, inr, refl, sym, subst, ◌∙◌, true, List, [], ◌∷◌, some, if◌then◌else◌,
  arith, All, none_clash, Bool-cases,
}
use redis_dns.Prelude.Bytes.{Bytes, ascii, bytes_eq, bytes_eq-eq, bytes_eq_iff}
use redis_dns.Prelude.Int.{pos, negsuc}
use redis_dns.Server.Ranking.{
  Floats, Command, zincrby, zunionstore, zremrangebyscore, zremrangebyrank, SortedSet, ScoredMember,
  count_batch, decay, exec, top, min_prefetch_score, prune_below_score, max_count_members,
}
use redis_dns.Server.Ranking.Law.{Has, IsSortedSet, IsShare, IsRounded}
use redis_dns.Server.Ranking.Entries.{Has-filter_by, Has-take}
use redis_dns.Server.Ranking.Topping.{entries_of, top-IsTop}

-- How often a name stands in a batch.
abbrev pub queries_for : Bytes → List Bytes → ℕ
queries_for m [] = 0
queries_for m (k ∷ ks) = if bytes_eq k m then suc (queries_for m ks) else queries_for m ks

module _ {F : Type 0} (floats : Floats F) where
  open floats use {one, two, zero, le, format_float}

  -- A command that `runCounter` or `Decay` sends, with a factor from 0 to 1.
  abbrev pub IsRankCommand : Command F → Type 0
  IsRankCommand (zincrby m) = Unit
  IsRankCommand (zunionstore w) = IsShare floats w
  IsRankCommand (zremrangebyscore low high) =
      (low ≡ ascii "-inf") × (high ≡ format_float (prune_below_score floats))
  IsRankCommand (zremrangebyrank low high) = (low ≡ pos 0) × (high ≡ negsuc max_count_members)

  -- How often a name is counted.
  abbrev pub times : Bytes → List (Command F) → ℕ
  times m [] = 0
  times m (zincrby k ∷ cs) = if bytes_eq k m then suc (times m cs) else times m cs
  times m (zunionstore w ∷ cs) = times m cs
  times m (zremrangebyscore low high ∷ cs) = times m cs
  times m (zremrangebyrank low high ∷ cs) = times m cs

  pub count_batch-IsRankCommand :
      (batch : List Bytes) → All IsRankCommand (count_batch floats batch)
  unfolding count_batch
  count_batch-IsRankCommand [] = tt
  count_batch-IsRankCommand (m ∷ ms) = (tt, count_batch-IsRankCommand ms)

  pub decay-IsRankCommand : (w : F) → IsShare floats w → All IsRankCommand (decay floats w)
  unfolding decay
  decay-IsRankCommand w share = elim (Bool-cases (le one w)) [
    | inl high ↦ rw (high, decay) tt
    | inr below ↦ elim (Bool-cases (le w zero)) [
      | inl low ↦ rw (below, decay) (rw low tt)
      | inr above ↦ rw (below, decay) (rw above (share, ((refl, refl), ((refl, refl), tt))))
    ]
  ]

  module _ {S : Type 0} (redis : SortedSet F S) (mul add : F → F → F)
      (ranking : S → List (Bytes × F)) (law : IsSortedSet floats redis mul add ranking)
      (rounded : IsRounded floats mul add) (m : Bytes) where
    -- The name is not in the set, and is counted once at most from here; or its score is from 0
    -- to 1, and it is not counted any more.
    abbrev Low : S → List (Command F) → Type 0
    Low st cs =
        (((x : F) → Has m x (ranking st) → ⊥) × (times m cs ≤ 1))
        ⊎ (((x : F) → Has m x (ranking st) → IsShare floats x) × (times m cs ≡ 0))

    -- A command that counts nothing and leaves no score but old ones and shares of them.
    same-Low :
        (st : S) (c : Command F) (cs : List (Command F))
        → times m (c ∷ cs) ≡ times m cs
        → ((x : F)
            → Has m x (ranking (redis.after st c))
            → (y : F) × Has m y (ranking st) × (IsShare floats y → IsShare floats x))
        → Low st (c ∷ cs)
        → Low (redis.after st c) cs
    same-Low st c cs same old (inl (none_there, few)) =
        inl (λ x h. let (y, there, _) = old x h in none_there y there, omega (arith, same))
    same-Low st c cs same old (inr (low, done)) =
        inr (λ x h. let (y, there, keeps) = old x h in keeps (low y there), sym same ∙ done)

    own-Low :
        (st : S) (k : Bytes) (cs : List (Command F))
        → bytes_eq k m ≡ true
        → Low st (zincrby k ∷ cs)
        → Low (redis.after st (zincrby k)) cs
    own-Low st k cs same (inl (none_there, few)) =
        let one_more : suc (times m cs) ≤ 1 = ground arith in
        inr (
          λ x h.
              let own =
                subst (λ j. Has m x (ranking (redis.after st (zincrby j)))) (bytes_eq-eq k m same)
                  h in
              elim (law.counted st m x own) [
                | inl (is, _) ↦ subst (IsShare floats) (sym is) rounded.one_share
                | inr (y, there, _) ↦ absurd (none_there y there)
              ],
          omega arith,
        )
    own-Low st k cs same (inr (low, done)) =
        let one_more : suc (times m cs) ≡ 0 = ground arith in absurd (omega arith)

    counted-Low :
        (st : S) (k : Bytes) (cs : List (Command F))
        → Low st (zincrby k ∷ cs)
        → Low (redis.after st (zincrby k)) cs
    counted-Low st k cs low = elim (Bool-cases (bytes_eq k m)) [
      | inl same ↦ own-Low st k cs same low
      | inr other ↦
          same-Low st (zincrby k) cs (rw other refl)
            (λ x h. (
              x,
              law.counted_other st k m x (λ e. absurd (ground (arith, bytes_eq_iff k m))) h,
              λ s. s,
            ))
            low
    ]

    after-Low :
        (st : S) (c : Command F) (cs : List (Command F))
        → IsRankCommand c
        → Low st (c ∷ cs)
        → Low (redis.after st c) cs
    after-Low st (zincrby k) cs sent low = counted-Low st k cs low
    after-Low st (zunionstore w) cs sent low =
        same-Low st (zunionstore w) cs refl
          (λ x h.
            let (y, there, is) = law.scaled st w m x h in
            (y, there, λ s. subst (IsShare floats) (sym is) (rounded.product w y sent s)))
          low
    after-Low st (zremrangebyscore lo hi) cs sent low =
        same-Low st (zremrangebyscore lo hi) cs refl
          (λ x h.
            let old =
              subst (λ es. Has m x es) (law.drops_low st (prune_below_score floats))
                (subst (λ b. Has m x (ranking (redis.after st (zremrangebyscore (ascii "-inf") b))))
                  sent.1
                  (subst (λ a. Has m x (ranking (redis.after st (zremrangebyscore a hi)))) sent.0
                    h)) in
            (x, (Has-filter_by _ m x (ranking st) old).0, λ s. s))
          low
    after-Low st (zremrangebyrank lo hi) cs sent low =
        same-Low st (zremrangebyrank lo hi) cs refl
          (λ x h.
            let old =
              subst (λ es. Has m x es) (law.keeps_highest st max_count_members)
                (subst (λ b. Has m x (ranking (redis.after st (zremrangebyrank (pos 0) b)))) sent.1
                  (subst (λ a. Has m x (ranking (redis.after st (zremrangebyrank a hi)))) sent.0
                    h)) in
            (x, Has-take max_count_members m x (ranking st) old, λ s. s))
          low

    exec-Low :
        (st : S) (cs : List (Command F))
        → All IsRankCommand cs
        → Low st cs
        → Low (exec floats redis st cs) []
    unfolding exec
    exec-Low st [] sent low = low
    exec-Low st (c ∷ cs) sent low =
        exec-Low (redis.after st c) cs sent.1 (after-Low st c cs sent.0 low)

    -- A name that is not in the ranking and is then counted once at most never qualifies, in
    -- whatever order counts and decays by factors from 0 to 1 reach Redis: what `Top` finds with the
    -- least score for prefetching does not have it.
    pub one_off_never_found :
        (st : S) (cs : List (Command F))
        → ((x : F) → Has m x (ranking st) → ⊥)
        → All IsRankCommand cs
        → times m cs ≤ 1
        → (n : ℕ) (found : List (ScoredMember F))
        → top floats redis (exec floats redis st cs) (pos (suc n)) (min_prefetch_score floats)
          ≡ some found
        → (x : F) → Has m x (entries_of found)
        → ⊥
    one_off_never_found st cs none_there sent few n found at x h =
        let end = exec floats redis st cs in
        elim (top-IsTop floats redis mul add ranking law end n (min_prefetch_score floats)) [
          | inl down ↦ absurd (none_clash (sym down ∙ at))
          | inr (got, is, tops) ↦
              let same : found ≡ got = let e = sym at ∙ is in cc in
              let (there, high) = tops.listed m x (subst (λ f. Has m x (entries_of f)) same h) in
              elim (exec-Low st cs sent (inl (none_there, few))) [
                | inl (nowhere, _) ↦ nowhere x there
                | inr (low, _) ↦ let too_low = rounded.two_above x (low x there).1 in absurd (cc)
              ]
        ]

    -- What counts in a row make of the name's score: they bring it to 2 at least.
    abbrev Due : S → List (Command F) → Type 0
    Due st cs =
        (((x : F) → Has m x (ranking st) → ⊥) × (2 ≤ times m cs))
        ⊎ (Has m one (ranking st) × (1 ≤ times m cs))
        ⊎ ((x : F) × (le two x ≡ true) × Has m x (ranking st))
