-- ===== src/Client/Follow.antt =====
-- internal/client/follow.go: `RunFollow`, and `SwapRedis` of client.go. What the controller and the
-- backends answer at one poll is a parameter; the close of the old pool is left out.
pub mod Switching
use redis_dns.Prelude.{
  ℕ, ◌≡◌, refl, sym, ◌∙◌, ◌⊎◌, inl, inr, Bool, true, false, ◌||◌, List, [], ◌∷◌, Option, none, some,
  arith, if◌then◌else◌, Any, Bool-cases, Option-cases,
}
use redis_dns.Prelude.Bytes.{Bytes, bytes_eq, empty}
use redis_dns.Prelude.Int.{ℤ, pos, nonpos, ◌*64◌}
use redis_dns.Dns.{Msg}
use redis_dns.Config.{FollowBackend, Follow}
use redis_dns.Client.Local.{Local, Op, apply, second}

-- The names of the two nested groups, in UTF-8.
abbrev pub auto_select : Bytes
auto_select = 232 ∷ 135 ∷ 170 ∷ 229 ∷ 138 ∷ 168 ∷ 233 ∷ 128 ∷ 137 ∷ 230 ∷ 139 ∷ 169 ∷ []

abbrev pub fail_over : Bytes
fail_over = 230 ∷ 149 ∷ 133 ∷ 233 ∷ 154 ∷ 156 ∷ 232 ∷ 189 ∷ 172 ∷ 231 ∷ 167 ∷ 187 ∷ []

-- `now` is the closure of that name, empty on an error; `answers` says whether a ping succeeds.
pub record Poll : Type 0 where
  pub now : Bytes → Bytes
  pub answers : FollowBackend → Bool

-- `current`, the backend of the client (`none` for the one it was started with) and its cache.
pub record Follower : Type 0 where
  pub current : Bytes
  pub backend : Option FollowBackend
  pub local : Local

unfoldable pub poll_interval : Follow → ℤ
poll_interval cfg =
    let interval = cfg.interval *64 second in if nonpos interval then pos 10000000000 else interval

unfoldable pub lookup : Bytes → List (Bytes × FollowBackend) → Option FollowBackend
lookup node [] = none
lookup node ((name, be) ∷ bs) = if bytes_eq name node then some be else lookup node bs

unfoldable pub node_of : Poll → Bytes → Bytes
node_of poll group =
    let node = poll.now group in
    if bytes_eq node auto_select || bytes_eq node fail_over then poll.now node else node

-- `SwapRedis`
unfoldable pub swap_redis : FollowBackend → Follower → Follower
swap_redis be f = record f { backend = some be; local = empty }

-- A backend that a poll names.
unfoldable pub follow_backend : Poll → Follower → FollowBackend → Follower
follow_backend poll f be =
    if bytes_eq be.addr f.current
    then f
    else if poll.answers be
    then record (swap_redis be f) { current = be.addr }
    else f

-- One turn of the loop.
unfoldable pub follow_step : Follow → Follower → Poll → Follower
follow_step cfg f poll = elim (lookup (node_of poll cfg.group) cfg.backends) [
  | none ↦ f
  | some be ↦ follow_backend poll f be
]

-- Polls, with what happens to the cache in between.
pub data Moment : Type 0 where
  polled : Poll → Moment
  served : Op → Moment

module _ (unpack : Bytes → Option Msg) (local_ttl : ℤ) (cfg : Follow) where
  unfoldable pub follow_moment : Follower → Moment → Follower
  follow_moment f (polled poll) = follow_step cfg f poll
  follow_moment f (served op) = record f { local = apply unpack local_ttl f.local op }

  unfoldable pub run_follow : Follower → List Moment → Follower
  run_follow f [] = f
  run_follow f (m ∷ ms) = run_follow (follow_moment f m) ms
