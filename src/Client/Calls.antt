-- ===== src/Client/Calls.antt =====
-- internal/client/client.go: the goroutines that share `waits`. `dispatch` looks a channel up under
-- the lock and sends after it has let go of it; every call of `resolve` registers its channel,
-- receives or gives up, and then unregisters. A step is what one goroutine does between two points
-- at which another can run. Calls are numbered, and a channel is known by the call that made it.
-- Nothing is assumed of the IDs: two calls may have the same.
pub mod Owners
pub mod Sending
pub mod Duplicates
pub mod Together
pub mod Keeping
pub mod Listing
use redis_dns.Prelude.{
  ℕ, Bool, true, false, List, [], ◌∷◌, Option, none, some, if◌then◌else◌, ◌==◌, ◌≡◌,
}
use redis_dns.Prelude.Bytes.{Bytes, Map, empty, insert, erase, ascii}
use redis_dns.Proto.{Response}
use redis_dns.Client.Pending.{Chan, Resolved, failed, accept, timed_out}

-- Where a call of `resolve` stands: not begun, in a `select` with its ID (the second `select` once
-- XADD is confirmed), on its way out with a result, or out.
pub data Stage : Type 0 where
  absent : Stage
  waiting : Bytes → Bool → Stage
  leaving : Bytes → Resolved → Stage
  over : Bytes → Resolved → Stage

-- Where the dispatcher stands: between two responses, or about to send one to a call.
pub data Reader : Type 0 where
  ready : Reader
  sending : ℕ → Response → Reader

abbrev pub update {ℓ} : {A : Type ℓ} → (ℕ → A) → ℕ → A → ℕ → A
update m n x k = if k == n then x else m k

-- `returned` lists the IDs of the responses with which `dispatch` is done.
pub record System : Type 0 where
  pub waits : Map ℕ
  pub chan : ℕ → Chan
  pub calls : ℕ → Stage
  pub reader : Reader
  pub returned : List Bytes

abbrev pub init : System
init = record {
  waits = empty;
  chan = λ n. none;
  calls = λ n. absent;
  reader = Reader.ready;
  returned = [];
}

-- What can end a wait without a response: XADD fails before it was confirmed, the timer, or the
-- context.
pub data GivesUp : Bool → Resolved → Type 0 where
  add_failed : (err : Bytes) → GivesUp false (failed err)
  timer : (confirmed : Bool) → GivesUp confirmed timed_out
  cancelled : (confirmed : Bool) → GivesUp confirmed (failed (ascii "context canceled"))

-- `make(chan proto.Response, 1)` and `register`
unfoldable pub begin_call : ℕ → Bytes → System → System
begin_call n id s = record s {
  waits = insert id n s.waits;
  chan = update s.chan n none;
  calls = update s.calls n (waiting id false);
}

-- The confirmation of XADD.
unfoldable pub confirm_call : ℕ → Bytes → System → System
confirm_call n id s = record s { calls = update s.calls n (waiting id true) }

-- A receive in one of the two `select`s.
unfoldable pub receive_call : ℕ → Bytes → Response → System → System
receive_call n id resp s = record s {
  chan = update s.chan n none;
  calls = update s.calls n (leaving id (accept resp));
}

unfoldable pub end_call : ℕ → Bytes → Resolved → System → System
end_call n id r s = record s { calls = update s.calls n (leaving id r) }

-- The deferred `unregister`.
unfoldable pub leave_call : ℕ → Bytes → Resolved → System → System
leave_call n id r s = record s { waits = erase id s.waits; calls = update s.calls n (over id r) }

-- `dispatch` up to the end of its locked part; with no such request it returns.
unfoldable pub look_up : Response → System → System
look_up resp s = elim (s.waits resp.id) [
  | none ↦ record s { returned = resp.id ∷ s.returned }
  | some n ↦ record s { reader = sending n resp }
]

-- The send `ch <- resp`.
unfoldable pub send_to : ℕ → Response → System → System
send_to n resp s = record s {
  chan = update s.chan n (some resp);
  reader = Reader.ready;
  returned = resp.id ∷ s.returned;
}

-- A send waits for room in the channel, and a receive for a response.
pub data Step (s : System) : System → Type 0 where
  begin : (n : ℕ) (id : Bytes) → s.calls n ≡ absent → Step s (begin_call n id s)
  confirm : (n : ℕ) (id : Bytes) → s.calls n ≡ waiting id false → Step s (confirm_call n id s)
  receive :
      (n : ℕ) (id : Bytes) (confirmed : Bool) (resp : Response)
      → s.calls n ≡ waiting id confirmed
      → s.chan n ≡ some resp
      → Step s (receive_call n id resp s)
  give_up :
      (n : ℕ) (id : Bytes) (confirmed : Bool) (r : Resolved)
      → s.calls n ≡ waiting id confirmed
      → GivesUp confirmed r
      → Step s (end_call n id r s)
  leave :
      (n : ℕ) (id : Bytes) (r : Resolved) → s.calls n ≡ leaving id r → Step s (leave_call n id r s)
  route : (resp : Response) → s.reader ≡ Reader.ready → Step s (look_up resp s)
  send :
      (n : ℕ) (resp : Response)
      → s.reader ≡ sending n resp
      → s.chan n ≡ none
      → Step s (send_to n resp s)

-- The states that follow on a state.
pub data Reach (s : System) : System → Type 0 where
  here : Reach s s
  next : {t u : System} → Reach s t → Step t u → Reach s u
