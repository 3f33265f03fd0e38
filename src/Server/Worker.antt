-- ===== src/Server/Worker.antt =====
-- internal/server/server.go: `Run`, `worker` and `ensureGroup`. What XREADGROUP answers is an event,
-- and what the loop does is a row of actions; times are in nanoseconds. The text of an error is
-- `none` where there is no error.
pub mod Backoff
pub mod Acks
use redis_dns.Prelude.{
  ℕ, zero, suc, ◌+◌, Bool, true, false, List, [], ◌∷◌, ◌++◌, Option, none, some, if◌then◌else◌, map,
}
use redis_dns.Prelude.Bytes.{Bytes, ascii, contains}
use redis_dns.Prelude.Decimal.{itoa}
use redis_dns.Prelude.Int.{ℤ, pos, negsuc, ltb_ℤ, ◌*64◌}
use redis_dns.Server.{Server}

-- `redis.XMessage`, with its field `data` if it has one.
pub record Message : Type 0 where
  pub id : Bytes
  pub payload : Option Bytes

-- What one turn of the loop meets: the context is over when the turn starts, or while the read
-- waits; the read fails, with what XGROUP CREATE would then answer; it returns nothing
-- (`redis.Nil`); or it returns messages.
pub data Fetch : Type 0 where
  cancelled : Fetch
  failed : Bytes → Option Bytes → Fetch
  nil : Fetch
  fetched : List Message → Fetch

-- What the loop does: create the group again, sleep, or start a goroutine for a message.
pub data Action : Type 0 where
  create : Action
  sleep : ℤ → Action
  start : Message → Action

-- The error that `ensureGroup` returns, from the error of XGROUP CREATE.
unfoldable pub ensure_group : Option Bytes → Option Bytes
ensure_group none = none
ensure_group (some e) = if contains e (ascii "BUSYGROUP") then none else some e

abbrev pub second : ℕ
second = 1000000000

-- `if backoff < 5*time.Second { backoff *= 2 }`
abbrev pub longer : ℤ → ℤ
longer b = if ltb_ℤ b (pos 5000000000) then b *64 2 else b

-- After an error. What `ensureGroup` returns is only logged.
unfoldable pub recover : Bytes → List Action
recover e = if contains e (ascii "NOGROUP") then create ∷ [] else []

-- The loop of `worker`, from a back-off.
unfoldable pub worker_loop : ℤ → List Fetch → List Action
worker_loop backoff [] = []
worker_loop backoff (cancelled ∷ fs) = []
worker_loop backoff (failed e created ∷ fs) =
    recover e ++ sleep backoff ∷ worker_loop (longer backoff) fs
worker_loop backoff (nil ∷ fs) = worker_loop backoff fs
worker_loop backoff (fetched ms ∷ fs) = map start ms ++ worker_loop (pos second) fs

unfoldable pub worker : List Fetch → List Action
worker fs = worker_loop (pos second) fs

-- `fmt.Sprintf("%s-%d", s.consumer, i)`, for the workers from `i` on.
unfoldable pub consumer_names : Bytes → ℕ → ℕ → List Bytes
consumer_names consumer i zero = []
consumer_names consumer i (suc n) = (consumer ++ b'-' ∷ itoa i) ∷ consumer_names consumer (i + 1) n

-- What `Run` starts, if the group is there: the counter in any case, the prefetching if it has an
-- interval, and the workers.
pub record Started : Type 0 where
  pub prefetches : Bool
  pub consumers : List Bytes

abbrev pub count_of : ℤ → ℕ
count_of (pos n) = n
count_of (negsuc n) = 0

-- `none` stands for the error of `ensureGroup`.
unfoldable pub run : Server → Option Bytes → Option Started
run s created = elim (ensure_group created) [
  | some e ↦ none
  | none ↦ some (record {
    prefetches = ltb_ℤ (pos 0) s.prefetch;
    consumers = consumer_names s.consumer 0 (count_of s.workers);
  })
]
