-- ===== src/Server/Ranking/Decaying.antt =====
-- internal/server/stats.go: what `Decay` makes of the ranking.
use redis_dns.Prelude.{
  ◌≡◌, ◌⊎◌, ◌≤◌, inl, inr, sym, ap, subst, ◌∙◌, true, false, not, List, arith, All, take, filter_by,
  length, Bool-cases,
}
use redis_dns.Prelude.Bytes.{Bytes}
use redis_dns.Server.Ranking.{
  Floats, SortedSet, zunionstore, decay, exec, prune_below_score, max_count_members,
}
use redis_dns.Server.Ranking.Law.{Has, IsSortedSet}
use redis_dns.Server.Ranking.Entries.{
  length-take-le, Has-take, Has-filter_by, filter_by-Has, filter_by-Descending, take-cases,
}

-- One ranking after another: it has no more than 10000 members, whose scores are old ones times the
-- factor and above the line; a member that is gone is at or below the line, or ranks no higher
-- than any of 10000 that stayed.
pub record Decayed {F : Type 0} (floats : Floats F) (mul : F → F → F) (factor : F)
    (before after : List (Bytes × F)) : Type 0 where
  pub capped : length after ≤ max_count_members
  pub from_old :
      (m : Bytes) (x : F)
      → Has m x after
      → (floats.le x (prune_below_score floats) ≡ false)
        × (y : F) × Has m y before
        × (x ≡ mul factor y)
  pub stays :
      (m : Bytes) (y : F)
      → Has m y before
      → Has m (mul factor y) after
        ⊎ (floats.le (mul factor y) (prune_below_score floats) ≡ true)
        ⊎ ((length after ≡ max_count_members)
            × All (λ e. floats.le (mul factor y) e.1 ≡ true) after)

module _ {F S : Type 0} (floats : Floats F) (redis : SortedSet F S) (mul add : F → F → F)
    (ranking : S → List (Bytes × F)) (law : IsSortedSet floats redis mul add ranking) where
  open floats use {zero, one, le, format_float}

  abbrev line : F
  line = prune_below_score floats

  -- The ranking that the three commands leave.
  abbrev left : S → F → List (Bytes × F)
  left st w =
      take max_count_members
        (filter_by (λ e. not (le e.1 line)) (ranking (redis.after st (zunionstore w))))

  exec-decay :
      (st : S) (w : F)
      → le one w ≡ false
      → le w zero ≡ false
      → ranking (exec floats redis st (decay floats w)) ≡ left st w
  unfolding exec decay
  exec-decay st w below above =
      rw (below, decay)
        (rw (above, decay)
          (law.keeps_highest _ max_count_members
            ∙ ap (take max_count_members) (law.drops_low (redis.after st (zunionstore w)) line)))

  left-Decayed : (st : S) (w : F) → Decayed floats mul w (ranking st) (left st w)
  left-Decayed st w =
      let scaled_set = ranking (redis.after st (zunionstore w)) in
      let above = filter_by (λ e. not (le e.1 line)) scaled_set in
      record {
        capped = length-take-le max_count_members above;
        from_old = λ m x h.
            let (there, over) =
              Has-filter_by (λ e. not (le e.1 line)) m x scaled_set
                (Has-take max_count_members m x above h) in
            let (y, old, is) = law.scaled st w m x there in (ground arith, y, old, is);
        stays = λ m y h. elim (Bool-cases (le (mul w y) line)) [
          | inl low ↦ inr (inl low)
          | inr high ↦
              elim (take-cases floats max_count_members m (mul w y) above
                (filter_by-Descending floats _ scaled_set (law.descends _))
                (filter_by-Has (λ e. not (le e.1 line)) m (mul w y) scaled_set
                  (law.scales st w m y h) (ground arith))) [
                    | inl kept ↦ inl kept
                    | inr crowded ↦ inr (inr crowded)
                  ]
        ];
      }

  -- For a factor between 0 and 1, `Decay` multiplies every score by it, drops what is then at or
  -- below 0.5, and of the rest keeps the 10000 that rank highest.
  pub decay-Decayed :
      (st : S) (factor : F)
      → le one factor ≡ false
      → le factor zero ≡ false
      → Decayed floats mul factor
          (ranking st)
          (ranking (exec floats redis st (decay floats factor)))
  decay-Decayed st factor below above =
      subst (Decayed floats mul factor (ranking st)) (sym (exec-decay st factor below above))
        (left-Decayed st factor)
