-- ===== src/Client/Pending.antt =====
-- internal/client/client.go: the pending requests (`register`, `unregister`, `dispatch`) and the
-- wait of `resolve`. A channel is known by the request that it belongs to, and holds one response
-- at most. Times are in nanoseconds.
pub mod Routing
pub mod Waiting
use redis_dns.Prelude.{
  ℕ, Bool, true, false, List, [], ◌∷◌, Option, none, some, if◌then◌else◌, length, ◌==◌, leb, take,
}
use redis_dns.Prelude.Bytes.{Bytes, Map, empty, insert, erase, ascii}
use redis_dns.Prelude.Int.{ℤ, ltb_ℤ, ◌+ℤ◌}
use redis_dns.Net.{is_nil}
use redis_dns.Proto.{Request, Response}

-- What a buffered channel of capacity 1 holds.
abbrev pub Chan : Type 0
Chan = Option Response

abbrev pub Waits : Type 0
Waits = Map Chan

-- `make(chan proto.Response, 1)` and `register`
unfoldable pub register : Bytes → Waits → Waits
register id waits = insert id none waits

unfoldable pub unregister : Bytes → Waits → Waits
unregister id waits = erase id waits

-- The result of `dispatch`. A send into a full channel blocks the dispatcher.
pub data Dispatched : Type 0 where
  sent : Waits → Dispatched
  dropped : Dispatched
  blocked : Dispatched

unfoldable pub dispatch : Response → Waits → Dispatched
dispatch resp waits = elim (waits resp.id) [
  | none ↦ dropped
  | some ch ↦ elim ch [ none ↦ sent (insert resp.id (some resp) waits) | some _ ↦ blocked ]
]

-- What `resolve` can meet while it waits, at a time.
pub data Arrival : Type 0 where
  response : ℤ → Response → Arrival
  acked : ℤ → Arrival
  ack_failed : ℤ → Bytes → Arrival
  cancelled : ℤ → Arrival

-- What `resolve` returns: a response, or an error.
pub data Resolved : Type 0 where
  answered : Response → Resolved
  failed : Bytes → Resolved

-- The checks on a response, which stand twice in the source.
unfoldable pub accept : Response → Resolved
accept resp =
    if is_nil resp.err
    then (if is_nil resp.wire then failed (ascii "empty answer") else answered resp)
    else failed resp.err

abbrev pub timed_out : Resolved
timed_out = failed (ascii "resolution timed out")

-- The inner `select`, after the confirmation; its timer ends at `limit`.
unfoldable pub await_response : ℤ → List Arrival → Resolved
await_response limit [] = timed_out
await_response limit (response t resp ∷ as') = if ltb_ℤ limit t then timed_out else accept resp
await_response limit (acked t ∷ as') = elim (ltb_ℤ limit t) [
  | true ↦ timed_out
  | false ↦ await_response limit as'
]
await_response limit (ack_failed t err ∷ as') = elim (ltb_ℤ limit t) [
  | true ↦ timed_out
  | false ↦ await_response limit as'
]
await_response limit (cancelled t ∷ as') =
    if ltb_ℤ limit t then timed_out else failed (ascii "context canceled")

-- The outer `select`. The confirmation starts a new timer.
unfoldable pub await : ℤ → ℤ → List Arrival → Resolved
await block limit [] = timed_out
await block limit (response t resp ∷ as') = if ltb_ℤ limit t then timed_out else accept resp
await block limit (acked t ∷ as') = elim (ltb_ℤ limit t) [
  | true ↦ timed_out
  | false ↦ await_response (t +ℤ block) as'
]
await block limit (ack_failed t err ∷ as') = if ltb_ℤ limit t then timed_out else failed err
await block limit (cancelled t ∷ as') =
    if ltb_ℤ limit t then timed_out else failed (ascii "context canceled")

-- `resolve`, from the time at which its first timer starts.
unfoldable pub resolve : ℤ → ℤ → List Arrival → Resolved
resolve block start arrivals = await block (start +ℤ block) arrivals

-- `shortID`
unfoldable pub short_id : Bytes → Bytes
short_id id = if leb (length id) 8 then id else take 8 id
