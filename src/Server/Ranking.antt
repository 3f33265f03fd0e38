-- ===== src/Server/Ranking.antt =====
-- internal/server/stats.go: the ranking of queried names (`rankStore`, `redisRankStore`,
-- `decayFactor`), and its part in internal/server/server.go. Floating-point numbers and Redis's
-- sorted sets are parameters. Every command is about the one key `dns:count:q`.
pub mod Law
pub mod Entries
pub mod Decaying
pub mod Topping
pub mod Qualifying
pub mod Sweeping
use redis_dns.Prelude.{
  ℕ, Bool, true, ◌||◌, List, [], ◌∷◌, ◌++◌, Option, none, some, if◌then◌else◌, map,
}
use mathlib.Core.Option
use redis_dns.Prelude.Bytes.{Bytes, Map, ascii}
use redis_dns.Prelude.Int.{ℤ, pos, negsuc, nonpos}
use redis_dns.Proto.{Request, Response, Update, Json}
use redis_dns.Dns.{DnsLib}
use redis_dns.Server.{Server}
use redis_dns.Server.Prefetch.{Sweep, Progress, prefetch_sweep}

-- `float64`: its literals 0, 0.5, 1 and 2, the comparison `<=`, division, `math.Pow`, the conversion
-- from a duration, and `strconv.FormatFloat(x, 'f', -1, 64)`.
pub record Floats (F : Type 0) : Type 0 where
  pub zero : F
  pub half : F
  pub one : F
  pub two : F
  pub le : F → F → Bool
  pub div : F → F → F
  pub pow : F → F → F
  pub of_duration : ℤ → F
  pub format_float : F → Bytes

-- ZINCRBY by 1, ZUNIONSTORE of the set with itself by a weight, and the two removals.
pub data Command (F : Type 0) : Type 0 where
  zincrby : Bytes → Command F
  zunionstore : F → Command F
  zremrangebyscore : Bytes → Bytes → Command F
  zremrangebyrank : ℤ → ℤ → Command F

-- Redis, as far as that key goes: what a command makes of it, and ZREVRANGEBYSCORE between two
-- bounds, with a limit, where `none` is an error.
pub record SortedSet (F S : Type 0) : Type 0 where
  pub after : S → Command F → S
  pub zrevrangebyscore : S → Bytes → Bytes → ℤ → Option (List (Bytes × F))

-- `scoredMember`
pub record ScoredMember (F : Type 0) : Type 0 where
  pub member : Bytes
  pub score : F

abbrev pub max_count_members : ℕ
max_count_members = 10000

module _ {F : Type 0} (floats : Floats F) where
  open floats use {zero, half, one, two, le, div, pow, of_duration, format_float}

  -- `minPrefetchScore` and `pruneBelowScore`
  abbrev pub min_prefetch_score : F
  min_prefetch_score = two

  abbrev pub prune_below_score : F
  prune_below_score = half

  -- `decayFactor`
  unfoldable pub decay_factor : ℤ → ℤ → F
  decay_factor half_life elapsed =
      if nonpos half_life || nonpos elapsed
      then one
      else pow half (div (of_duration elapsed) (of_duration half_life))

  -- The commands that `Decay` puts into its pipeline.
  unfoldable pub decay : F → List (Command F)
  decay factor =
      if le one factor || le factor zero
      then []
      else zunionstore factor
        ∷ zremrangebyscore (ascii "-inf") (format_float prune_below_score)
        ∷ zremrangebyrank (pos 0) (negsuc max_count_members)
        ∷ []

  -- The commands of one flush of `runCounter`.
  unfoldable pub count_batch : List Bytes → List (Command F)
  count_batch [] = []
  count_batch (m ∷ ms) = zincrby m ∷ count_batch ms

  -- The decay at the end of `prefetchSweep`, which returns early when HGETALL fails.
  unfoldable pub sweep_decay : Server → Sweep → List (Command F)
  sweep_decay s sweep = elim sweep.domains [
    | none ↦ []
    | some ds ↦ if nonpos s.half_life then [] else decay (decay_factor s.half_life s.prefetch)
  ]

  module _ {S : Type 0} (redis : SortedSet F S) where
    open redis use {after, zrevrangebyscore}

    -- A pipeline that Redis carries out.
    unfoldable pub exec : S → List (Command F) → S
    exec st [] = st
    exec st (c ∷ cs) = exec (after st c) cs

    -- `Top`
    unfoldable pub top : S → ℤ → F → Option (List (ScoredMember F))
    top st n min_score = elim (zrevrangebyscore st (format_float min_score) (ascii "+inf") n) [
      | none ↦ none
      | some zs ↦ some (map (λ z. record { member = z.0; score = z.1 }) zs)
    ]

    -- A sweep that asks Redis for the ranking.
    unfoldable pub asking_top : Server → S → Sweep → Sweep
    asking_top s st sweep = record sweep {
      top = Option.map (map (λ (m : ScoredMember F). m.member)) (top st s.top_n min_prefetch_score);
    }

    -- `prefetchSweep` with its ranking, as it is asked for and as it is when it is decayed: the
    -- progress, and the ranking that is left.
    unfoldable pub ranked_sweep :
        DnsLib
        → Json Request
        → Json Response
        → Json Update
        → Server
        → S
        → S
        → Sweep
        → Map ℤ
        → Progress × S
    ranked_sweep lib requests responses updates s st later sweep next = (
      prefetch_sweep lib requests responses updates s (asking_top s st sweep) next,
      exec later (sweep_decay s sweep),
    )
