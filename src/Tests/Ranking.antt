-- ===== src/Tests/Ranking.antt =====
-- The ranking of queried names, decayed and swept at concrete counts.
use redis_dns.Prelude.{
  ℕ, ◌+◌, ◌≡◌, ◌≤◌, refl, ap, List, [], ◌∷◌, ◌++◌, All-append, some, arith, All,
}
use redis_dns.Prelude.Bytes.{Bytes, ascii, bytes_eq, empty}
use redis_dns.Prelude.Int.{pos}
use redis_dns.Server.Ranking.{
  Command, decay, exec, ScoredMember, count_batch, top, decay_factor, ranked_sweep,
}
use redis_dns.Server.Ranking.Decaying.{Decayed, decay-Decayed}
use redis_dns.Server.Ranking.Qualifying.{
  IsRankCommand, times, count_batch-IsRankCommand, decay-IsRankCommand, one_off_never_found,
}
use redis_dns.Server.Ranking.Sweeping.{Refreshes, ranked_sweep-Refreshes}
use redis_dns.Server.Ranking.Law.{Has}
use redis_dns.Tests.Samples.{lib}
use redis_dns.Tests.Following.{server, sweep, requests, updates, replies, first_byte}
use redis_dns.Tests.Scores.{quarters, mul}
use redis_dns.Tests.Zsets.{Zset, redis, law, rounded}

-- One query for one name, two for another; then a decay by a half.
abbrev nothing : Zset
nothing = record { entries = []; descends = tt; once = tt }

abbrev once_asked : Bytes
once_asked = ascii "a.|A"

abbrev often_asked : Bytes
often_asked = ascii "b.|A"

abbrev queries : List Bytes
queries = once_asked ∷ often_asked ∷ often_asked ∷ often_asked ∷ often_asked ∷ []

abbrev commands : List (Command ℕ)
commands = count_batch quarters queries ++ decay quarters 2

commands-IsRankCommand : All (IsRankCommand quarters) commands
commands-IsRankCommand =
    All-append (IsRankCommand quarters) (count_batch quarters queries) (decay quarters 2)
      (count_batch-IsRankCommand quarters queries) (decay-IsRankCommand quarters 2 (refl, refl))

abbrev asked_often : Zset
asked_often = record {
  entries = (often_asked, 8) ∷ (once_asked, 4) ∷ [];
  descends = ((refl, tt), (tt, tt));
  once = ((λ e. omega (arith, ap first_byte e), tt), (tt, tt));
}

decay-Decayed_example :
    Decayed quarters mul 2 asked_often.entries
      (exec quarters redis asked_often (decay quarters 2)).entries
decay-Decayed_example =
    decay-Decayed quarters redis mul (λ a b. a + b) (λ z. z.entries) law asked_often 2 refl refl

abbrev listed : List (ScoredMember ℕ)
listed = record { member = often_asked; score = 8 } ∷ []

once_counted : times quarters once_asked commands ≤ 1
unfolding count_batch decay bytes_eq
once_counted = omega arith

listed_is_top : top quarters redis (exec quarters redis nothing commands) (pos 50) 8 ≡ some listed
unfolding count_batch decay bytes_eq exec top
listed_is_top = refl

-- Two queries for a name, with one for another in between.
abbrev twice_asked : List Bytes
twice_asked = often_asked ∷ once_asked ∷ often_asked ∷ []

one_off_never_found_example : Has {F = ℕ} once_asked 8 ((often_asked, 8) ∷ []) → ⊥
one_off_never_found_example =
    one_off_never_found quarters redis mul (λ a b. a + b) (λ z. z.entries) law rounded once_asked
      nothing commands (λ x h. h) commands-IsRankCommand once_counted 49 listed listed_is_top 8

ranked_sweep-Refreshes_example :
    Refreshes quarters redis mul
      (λ a b. a + b)
      (λ z. z.entries)
      law
      lib
      requests
      replies
      updates
      server
      asked_often
      asked_often
      sweep
      50
      empty
      []
    × Decayed quarters mul 2 asked_often.entries
        (ranked_sweep quarters redis lib requests replies updates server asked_often asked_often
          sweep empty).1.entries
unfolding decay_factor
ranked_sweep-Refreshes_example =
    ranked_sweep-Refreshes quarters redis mul (λ a b. a + b) (λ z. z.entries) law lib requests
      replies updates server asked_often asked_often sweep 49 empty [] refl refl refl refl refl
