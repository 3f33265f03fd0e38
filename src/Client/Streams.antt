-- ===== src/Client/Streams.antt =====
-- internal/client/client.go: `runDispatcher` and `runSubscriber`, for what one read brings. What
-- XREAD returns is an event; no request registers or unregisters while one batch is routed. Times
-- are in nanoseconds.
pub mod Delivery
pub mod Cursor
pub mod Warming
use redis_dns.Prelude.{List, [], ◌∷◌, Option, none, some, if◌then◌else◌}
use redis_dns.Prelude.Bytes.{Bytes, ascii}
use redis_dns.Prelude.Int.{ℤ, pos, ltb_ℤ, ◌*64◌}
use redis_dns.Net.{is_nil}
use redis_dns.Dns.{Msg}
use redis_dns.Proto.{Response, Update, Json}
use redis_dns.Redisx.{cache_key}
use redis_dns.Client.Local.{Local, local_set}
use redis_dns.Client.Pending.{Waits, dispatch, sent, dropped, blocked}

-- A message of the response stream. Its field `data` may be missing.
pub record Entry : Type 0 where
  pub id : Bytes
  pub data_field : Option Bytes

-- What XREAD returns: an error, nothing (`redis.Nil`), or messages.
pub data Read : Type 0 where
  read_failed : Read
  nothing : Read
  entries : List Entry → Read

-- The variables of the loop, with the pending requests.
pub record Dispatcher : Type 0 where
  pub last_id : Bytes
  pub backoff : ℤ
  pub waits : Waits

-- Before the loop.
unfoldable pub start_dispatcher : Waits → Dispatcher
start_dispatcher waits = record { last_id = ascii "$"; backoff = pos 1000000000; waits = waits }

-- `if backoff < 5*time.Second { backoff *= 2 }`
abbrev pub back_off : ℤ → ℤ
back_off b = if ltb_ℤ b (pos 5000000000) then b *64 2 else b

module _ (responses : Json Response) where
  -- The response of a message, if it has one.
  abbrev pub entry_response : Option Bytes → Option Response
  entry_response none = none
  entry_response (some payload) = responses.unmarshal payload

  -- `none` while the send into a full channel blocks.
  unfoldable pub deliver : Waits → Option Response → Option Waits
  deliver waits none = some waits
  deliver waits (some resp) = elim (dispatch resp waits) [
    | sent waits' ↦ some waits'
    | dropped ↦ some waits
    | blocked ↦ none
  ]

  unfoldable pub read_entries : Bytes → Waits → List Entry → Option (Bytes × Waits)
  read_entries last_id waits [] = some (last_id, waits)
  read_entries last_id waits (e ∷ es) = elim (deliver waits (entry_response e.data_field)) [
    | none ↦ none
    | some waits' ↦ read_entries e.id waits' es
  ]

  -- One turn of the loop; `none` while it is blocked.
  unfoldable pub dispatcher_step : Dispatcher → Read → Option Dispatcher
  dispatcher_step d read_failed = some (record d { backoff = back_off d.backoff })
  dispatcher_step d nothing = some d
  dispatcher_step d (entries es) = elim (read_entries d.last_id d.waits es) [
    | none ↦ none
    | some (last_id, waits) ↦
        some (record { last_id = last_id; backoff = pos 1000000000; waits = waits })
  ]

-- One message of the updates channel, at a time, in `runSubscriber`.
unfoldable pub warm : Json Update → (Bytes → Option Msg) → ℤ → Local → ℤ → Bytes → Local
warm updates unpack local_ttl m now payload = elim (updates.unmarshal payload) [
  | none ↦ m
  | some upd ↦
      if is_nil upd.wire
      then m
      else local_set unpack local_ttl m now (cache_key upd.name upd.qtype) upd.wire upd.resolved_at
]

-- What the loop of `runSubscriber` meets: a message at a time, a lost connection, after which it
-- subscribes again, or the end of the context.
pub data Notice : Type 0 where
  message : ℤ → Bytes → Notice
  lost : Notice
  over : Notice

unfoldable pub run_subscriber : Json Update → (Bytes → Option Msg) → ℤ → Local → List Notice → Local
run_subscriber updates unpack local_ttl m [] = m
run_subscriber updates unpack local_ttl m (message now payload ∷ ns) =
    run_subscriber updates unpack local_ttl (warm updates unpack local_ttl m now payload) ns
run_subscriber updates unpack local_ttl m (lost ∷ ns) = run_subscriber updates unpack local_ttl m ns
run_subscriber updates unpack local_ttl m (over ∷ ns) = m
