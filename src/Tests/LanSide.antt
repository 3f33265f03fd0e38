-- ===== src/Tests/LanSide.antt =====
-- The LAN side at concrete queries and messages.
use redis_dns.Prelude.{
  ◌≡◌, refl, List, [], ◌∷◌, Option, none, some, inl, inr, false, arith, All, Any,
}
use redis_dns.Prelude.Bytes.{Bytes, ascii, bytes_eq, insert, empty}
use redis_dns.Prelude.Int.{pos, ◌≤ℤ◌, ◌+ℤ◌}
use redis_dns.Net.{is_nil}
use redis_dns.Dns.{Msg, rcode_success}
use redis_dns.Proto.{Response}
use redis_dns.Redisx.{cache_key}
use redis_dns.Resolver.Ttl.{min_ttl, scan_ns, scan_answer, consider}
use redis_dns.Client.Local.{Op, get, evict, set, local_get, local_set, lifetime, run, apply}
use redis_dns.Client.Local.Freshness.{Stored, written, local_get-Stored}
use redis_dns.Client.Local.Versions.{Write, Recent, write_all, write_all-Recent}
use redis_dns.Client.Pending.{
  Waits, Arrival, response, acked, answered, accept, await, await_response, resolve,
}
use redis_dns.Client.Pending.Waiting.{Answers, resolve-Answers}
use redis_dns.Client.Query.{
  Result, Scene, query_name, query_key, resolve_query, dispatch_questions, answer_question,
  ask_server, handle, doh_answer,
}
use redis_dns.Client.Query.Cases.{Leaves, answered_once}
use redis_dns.Client.Query.Frontends.{doh_ignores_id}
use redis_dns.Tests.Samples.{name, question, query, two_ips, lib}

abbrev key : Bytes
key = ascii "k"

abbrev wire : Bytes
wire = 1 ∷ []

abbrev unpack : Bytes → Option Msg
unpack w = some two_ips

-- All that the definitions here call.
program : Unit {0}
unfolding local_get local_set lifetime run apply min_ttl scan_ns scan_answer consider bytes_eq
    resolve_query dispatch_questions answer_question ask_server accept await await_response resolve
program = tt

-- The local cache: a stale write does not replace the fresher one, and the answer lasts 30 s.
abbrev history : List Op
history =
    set (pos 0) key wire (pos 5)
    ∷ get (pos 1) key
    ∷ evict (ascii "other")
    ∷ set (pos 2) key (2 ∷ []) (pos 4)
    ∷ []

still_there : (local_get (run unpack (pos 300) empty history) (pos 30000000000) key).1 ≡ some wire
unfolding program
still_there = refl

local_get-Stored_example : Any (Stored unpack (pos 300) (pos 30000000000) key wire) history
local_get-Stored_example =
    local_get-Stored unpack (pos 300) history (pos 30000000000) key wire still_there

abbrev writes : List Write
writes =
    record { at = pos 0; key = key; wire = wire; version = pos 5 }
    ∷ record { at = pos 2; key = key; wire = 2 ∷ []; version = pos 4 }
    ∷ []

write_all-Recent_example :
    All (λ w. Recent w.version (write_all unpack (pos 300) empty writes w.key)) writes
write_all-Recent_example = write_all-Recent unpack (pos 300) empty writes

-- Pending requests.
abbrev answer : Response
answer = record {
  id = ascii "r1";
  name = name;
  qtype = 1;
  rcode = 0;
  resolved_at = pos 5;
  wire = wire;
  err = [];
}

abbrev waiting : Waits
waiting = insert (ascii "r2") none empty

abbrev late : List Arrival
late = acked (pos 5) ∷ response (pos 10) answer ∷ []

late_answer : resolve (pos 5) (pos 0) late ≡ answered answer
unfolding program
late_answer = refl

resolve-Answers_example : Any (Answers (pos 0 +ℤ pos 5 +ℤ pos 5) answer) late
resolve-Answers_example = resolve-Answers (pos 5) (pos 0) late answer (omega arith) late_answer

-- Queries.
abbrev online : Scene
online = record { start = pos 0; stored = pos 1; answer = λ n t. some answer }

abbrev offline : Scene
offline = record { start = pos 2; stored = pos 3; answer = λ n t. none }

abbrev after_first : Result
after_first = resolve_query lib (pos 300) online empty query

young : pos 2 ≤ℤ pos 1 +ℤ lifetime lib.unpack (pos 300) wire
unfolding program
young = omega arith

nothing_local : (local_get empty (pos 0) (query_key lib (pos 300) question)).1 ≡ none
unfolding program
nothing_local = refl

-- A lookup of the entry, one of another, an older write and an eviction of another.
abbrev between : List Op
between =
    get (pos 1) (query_key lib (pos 300) question)
    ∷ get (pos 9000000000000) key
    ∷ set (pos 2) (query_key lib (pos 300) question) (9 ∷ []) (pos 4)
    ∷ evict key
    ∷ []

between-Leaves :
    All
      (Leaves lib
        (pos 300)
        (query_key lib (pos 300) question)
        (written lib.unpack (pos 300) (pos 1) wire (pos 5)))
      between
unfolding program query_key cache_key
between-Leaves = (inr (omega arith), (inl refl, (inr (omega arith), (refl, tt))))

answered_once_example :
    (after_first.asked ≡ some (query_name lib (pos 300) question, 1))
    × (after_first.wire ≡ wire)
    × (resolve_query lib
          (pos 300)
          offline
          (run lib.unpack (pos 300) after_first.local between)
          query
        ≡ record {
          local = run lib.unpack (pos 300) after_first.local between;
          wire = wire;
          rcode = rcode_success;
          asked = none;
        })
answered_once_example =
    answered_once lib (pos 300) online offline empty query question answer between refl
      nothing_local refl young between-Leaves

abbrev no_question : Msg
no_question = record query { question = [] }

abbrev replied : Msg
replied = (handle lib (pos 300) online empty query).0

abbrev renumbered : Msg
renumbered = record query { id = 10 }

has_answer : is_nil (resolve_query lib (pos 300) online empty query).wire ≡ false
unfolding program
has_answer = refl

doh_ignores_id_example :
    (doh_answer lib (pos 300) online empty query).0
    ≡ (doh_answer lib (pos 300) online empty renumbered).0
doh_ignores_id_example = doh_ignores_id lib (pos 300) online empty query renumbered refl has_answer
