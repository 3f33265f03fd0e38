-- ===== src/Bridge.antt =====
-- The two services over Redis: cmd/client and cmd/server with internal/client and internal/server
-- between them. Redis is known by what was put into it alone: a read gives back something that was
-- put there before, in any order and as often as it likes, or nothing.
pub mod Origin
pub mod Serving
pub mod Invariant
pub mod Steps
pub mod Genuineness
pub mod Progress
use redis_dns.Prelude.{ℕ, suc, ◌≡◌, List, [], ◌∷◌, ◌++◌, ◌⊎◌, Option, none, some, Any}
use redis_dns.Prelude.Bytes.{Bytes, Map, insert, empty}
use redis_dns.Prelude.Int.{ℤ}
use redis_dns.Dns.{Msg, DnsLib}
use redis_dns.Proto.{Request, Response, Update, Json}
use redis_dns.Redisx.{cache_key}
use redis_dns.Client.Local.{Local, local_get, local_set}
use redis_dns.Client.Pending.{Waits, register, unregister, dispatch, sent, accept, answered}
use redis_dns.Client.Streams.{warm}
use redis_dns.Server.{Server}
use redis_dns.Server.Handle
use redis_dns.Server.Handle.{Command, store, publish, respond, process}
use redis_dns.Server.Prefetch.{Sweep, prefetch_sweep}

-- An answer that the client gave for a name and a type.
pub record Reply : Type 0 where
  pub name : Bytes
  pub qtype : ℕ
  pub wire : Bytes

-- What a resolution returned for a name and a type, to every query that shares it.
pub record Returned : Type 0 where
  pub name : Bytes
  pub qtype : ℕ
  pub response : Response

-- What was put on the request stream, what the server sent, and the client's state. `opened` has
-- the name and the type of every request so far, `returned` what the resolutions returned, `stored`
-- what a query wrote to the local cache and answers next, and `replies` every answer.
pub record Bridge : Type 0 where
  pub requested : List Bytes
  pub commands : List Command
  pub local : Local
  pub waits : Waits
  pub opened : Map (Bytes × ℕ)
  pub returned : List Returned
  pub stored : List Returned
  pub replies : List Reply

abbrev pub init : Bridge
init = record {
  requested = [];
  commands = [];
  local = empty;
  waits = empty;
  opened = empty;
  returned = [];
  stored = [];
  replies = [];
}

module _ (lib : DnsLib) (requests : Json Request) (responses : Json Response)
    (updates : Json Update) (local_ttl : ℤ) (Gives : Bytes → ℕ → Msg → Type 0) where
  open lib use {unpack}

  -- The upstream side answers as `Gives` allows, and the Redis cache holds what was stored.
  pub record IsHonest (s : Bridge) (upstream : Bytes → ℕ → Handle.Resolved)
      (cached : Bytes → Option Bytes) : Type 0 where
    pub resolves :
        (name : Bytes) (qtype : ℕ) (m : Msg)
        → upstream name qtype ≡ Handle.answered m
        → Gives name qtype m
    pub holds :
        (key wire : Bytes)
        → cached key ≡ some wire
        → Any (λ c. (life : ℤ) × (c ≡ store key wire life)) s.commands

  -- `resolve` registers a request and sends it.
  abbrev pub send_request : Bytes → Bytes → ℕ → Bridge → Bridge
  send_request id name qtype s = record s {
    requested = requests.marshal (record { id = id; name = name; qtype = qtype }) ∷ s.requested;
    waits = register id s.waits;
    opened = insert id (name, qtype) s.opened;
  }

  -- `resolve` unregisters and returns a response.
  abbrev pub return_response : Bytes → Bytes → ℕ → Response → Bridge → Bridge
  return_response id name qtype resp s = record s {
    waits = unregister id s.waits;
    returned = record { name = name; qtype = qtype; response = resp } ∷ s.returned;
  }

  -- `resolveQuery` stores what its resolution returned, and then answers with it.
  abbrev pub store_answer : Returned → ℤ → Bridge → Bridge
  store_answer a now s = record s {
    local =
        local_set unpack local_ttl s.local now (cache_key a.name a.qtype) a.response.wire
          a.response.resolved_at;
    stored = a ∷ s.stored;
  }

  abbrev pub tell_answer : Returned → Bridge → Bridge
  tell_answer a s = record s {
    replies = record { name = a.name; qtype = a.qtype; wire = a.response.wire } ∷ s.replies;
  }

  -- The server processes a message and acknowledges it.
  abbrev pub serve_message : Server → Handle.Scene → List Bytes → Bytes → Bytes → Bridge → Bridge
  serve_message server scene queue id payload s = record s {
    commands =
        (process lib requests responses updates server scene queue id (some payload)).1
        ++ s.commands;
  }

  -- A tick of `runPrefetch`.
  abbrev pub run_sweep : Server → Sweep → Map ℤ → Bridge → Bridge
  run_sweep server sweep next s = record s {
    commands = (prefetch_sweep lib requests responses updates server sweep next).sent ++ s.commands;
  }

  -- One step of either side, or of what lies between them.
  pub data Step (s : Bridge) : Bridge → Type 0 where
    -- `resolve` registers a request under an ID of its own and sends it.
    ask : (id name : Bytes) (qtype : ℕ) → s.opened id ≡ none → Step s (send_request id name qtype s)
    -- The server processes a message of the request stream.
    serve :
        (server : Server) (scene : Handle.Scene) (queue : List Bytes) (id payload : Bytes)
        → Any (λ p. p ≡ payload) s.requested
        → IsHonest s scene.upstream scene.cached
        → Step s (serve_message server scene queue id payload s)
    -- The server runs a sweep of its prefetching.
    prefetch :
        (server : Server) (sweep : Sweep) (next : Map ℤ)
        → IsHonest s sweep.upstream (λ k. none)
        → Step s (run_sweep server sweep next s)
    -- The dispatcher takes a response off its stream.
    deliver :
        (payload : Bytes) (resp : Response) (waits' : Waits)
        → Any (λ c. c ≡ respond payload) s.commands
        → responses.unmarshal payload ≡ some resp
        → dispatch resp s.waits ≡ sent waits'
        → Step s (record s { waits = waits' })
    -- `resolve` returns the response that came.
    finish :
        (id name : Bytes) (qtype : ℕ) (resp r : Response)
        → s.opened id ≡ some (name, qtype)
        → s.waits id ≡ some (some resp)
        → accept resp ≡ answered r
        → Step s (return_response id name qtype r s)
    -- A query stores the answer that it was given: the one that asked, or one that shares it.
    keep : (a : Returned) (now : ℤ) → Any (λ x. x ≡ a) s.returned → Step s (store_answer a now s)
    -- A query that has stored its answer is told.
    tell : (a : Returned) → Any (λ x. x ≡ a) s.stored → Step s (tell_answer a s)
    -- `resolve` returns an error.
    give_up : (id : Bytes) → Step s (record s { waits = unregister id s.waits })
    -- A query is answered from the local cache.
    hit :
        (now : ℤ) (name : Bytes) (qtype : ℕ) (wire : Bytes) (m : Local)
        → local_get s.local now (cache_key name qtype) ≡ (m, some wire)
        → Step s (record s {
          local = m;
          replies = record { name = name; qtype = qtype; wire = wire } ∷ s.replies;
        })
    -- Entries of the local cache go: they expire, or the backend is swapped.
    forget :
        (m : Local)
        → ((k : Bytes) → (m k ≡ none) ⊎ (m k ≡ s.local k))
        → Step s (record s { local = m })
    -- The subscriber takes a pushed answer.
    warmed :
        (payload : Bytes) (now : ℤ)
        → Any (λ c. c ≡ publish payload) s.commands
        → Step s (record s { local = warm updates unpack local_ttl s.local now payload })

  pub data Reach (s : Bridge) : Bridge → Type 0 where
    here : Reach s s
    next : {t u : Bridge} → Reach s t → Step t u → Reach s u

  -- The number of its steps.
  abbrev pub steps_of : {s t : Bridge} → Reach s t → ℕ
  steps_of here = 0
  steps_of (next run step) = suc (steps_of run)
