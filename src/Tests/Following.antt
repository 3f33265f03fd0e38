-- ===== src/Tests/Following.antt =====
-- The loops of the two services at concrete batches, sweeps and polls.
use redis_dns.Prelude.{
  ℕ, ◌≡◌, ap, sym, subst, ◌∙◌, refl, ◌≢◌, inl, inr, List, [], ◌∷◌, Option, none, some, true, arith,
  All,
}
use redis_dns.Prelude.Bytes.{Bytes, ascii, bytes_eq, insert, empty}
use redis_dns.Prelude.Int.{pos}
use redis_dns.Proto.{Request, Response, Update, Json}
use redis_dns.Config.{Follow, FollowBackend}
use redis_dns.Client.Local.{get, set}
use redis_dns.Client.Pending.{Waits, dispatch}
use redis_dns.Client.Streams.{
  deliver, read_entries, Entry, Dispatcher, entries, read_failed, dispatcher_step,
}
use redis_dns.Client.Streams.Delivery.{
  Delivered, HasRoom, Leaves, responses_of, dispatcher_step-Delivered,
}
use redis_dns.Client.Streams.Cursor.{
  Event, added, returned, EndsWith, Succeeds, Fed, run_dispatcher, reads_without_gap,
}
use redis_dns.Client.Follow.{Follower, Moment, polled, served, run_follow}
use redis_dns.Client.Follow.Switching.{Follows, run_follow-Follows}
use redis_dns.Server.{Server}
use redis_dns.Server.Handle.{answered}
use redis_dns.Server.Prefetch.{Sweep}
use redis_dns.Tests.Samples.{name, two_ips, lib}

abbrev pub first_byte : Bytes → ℕ
first_byte [] = 0
first_byte (c ∷ cs) = c

-- Two responses, one of them for a request that waits, and a message that is none.
abbrev parse_response : Bytes → Option Response
parse_response [] = none
parse_response (c ∷ cs) = some (record {
  id = c ∷ [];
  name = name;
  qtype = 1;
  rcode = 0;
  resolved_at = pos 5;
  wire = 1 ∷ [];
  err = [];
})

abbrev pub replies : Json Response
replies = record { marshal = λ r. r.id; unmarshal = parse_response }

abbrev answer_b : Response
answer_b = record {
  id = b'b' ∷ [];
  name = name;
  qtype = 1;
  rcode = 0;
  resolved_at = pos 5;
  wire = 1 ∷ [];
  err = [];
}

abbrev batch : List Entry
batch =
    record { id = ascii "1"; data_field = some (b'a' ∷ []) }
    ∷ record { id = ascii "2"; data_field = none }
    ∷ record { id = ascii "3"; data_field = some (b'b' ∷ []) }
    ∷ []

abbrev dispatcher : Dispatcher
dispatcher = record {
  last_id = ascii "$";
  backoff = pos 4000000000;
  waits = insert (b'b' ∷ []) none empty;
}

waiting_for_b : All (HasRoom dispatcher.waits) (responses_of replies batch)
unfolding bytes_eq
waiting_for_b = (inl refl, (inr refl, tt))

different : All (λ (q : Response). q.id ≢ b'a' ∷ []) (record answer_b { id = b'b' ∷ [] } ∷ [])
different = (λ e. omega (arith, ap first_byte e), tt)

dispatcher_step-Delivered_example :
    (waits' : Waits) × (dispatcher_step replies dispatcher (entries batch)
      ≡ some (record { last_id = ascii "3"; backoff = pos 1000000000; waits = waits' }))
    × All (Delivered dispatcher.waits waits') (responses_of replies batch)
    × Leaves (responses_of replies batch) dispatcher.waits waits'
dispatcher_step-Delivered_example =
    dispatcher_step-Delivered replies dispatcher batch waiting_for_b (different, (tt, tt))

-- The stream grows by an entry while a read fails, and the next read brings it.
abbrev second : Entry
second = record { id = ascii "3"; data_field = some (b'b' ∷ []) }

abbrev first : Entry
first = record { id = ascii "1"; data_field = some (b'a' ∷ []) }

abbrev at_first : Dispatcher
at_first = record dispatcher { last_id = ascii "1" }

abbrev growing : List Event
growing = returned read_failed ∷ added (second ∷ []) ∷ returned (entries (second ∷ [])) ∷ []

abbrev cursor_of : Option Dispatcher → Bytes
cursor_of none = []
cursor_of (some d) = d.last_id

abbrev tail_of : List Entry → List Entry
tail_of [] = []
tail_of (e ∷ es) = es

abbrev id_at_head : List Entry → Bytes
id_at_head [] = []
id_at_head (e ∷ es) = e.id

second-Succeeds : Succeeds (first ∷ second ∷ []) (ascii "1") (entries (second ∷ []))
second-Succeeds [] back cut at = elim at [ ]
second-Succeeds (f ∷ []) back cut at = ([], sym (ap tail_of cut))
second-Succeeds (f ∷ g ∷ []) back cut at =
    let g_is : ascii "3" ≡ g.id = ap (λ es. id_at_head (tail_of es)) cut in
    absurd (omega (arith, ap first_byte (g_is ∙ at)))
second-Succeeds (f ∷ g ∷ h ∷ fs) back cut at =
    let over = ap (λ es. tail_of (tail_of es)) cut in absurd (cc)

growing-Fed : Fed replies (first ∷ []) at_first growing
unfolding dispatcher_step
growing-Fed = (
  tt,
  λ d' turn.
      let cursor : ascii "1" ≡ d'.last_id = ap cursor_of turn in
      (
        subst (λ id. Succeeds (first ∷ second ∷ []) id (entries (second ∷ []))) cursor
            second-Succeeds,
        λ d'' turn'. tt,
      ),
)

abbrev at_second : Dispatcher
at_second = record {
  last_id = ascii "3";
  backoff = pos 1000000000;
  waits = insert (b'b' ∷ []) (some (record answer_b { id = b'b' ∷ [] })) dispatcher.waits;
}

growing_run : run_dispatcher replies at_first growing ≡ some at_second
unfolding run_dispatcher dispatcher_step read_entries deliver dispatch bytes_eq
growing_run = refl

reads_without_gap_example :
    EndsWith at_second.last_id (first ∷ second ∷ [])
    × (rest : List Entry) × (first ∷ second ∷ [] ≡ first ∷ second ∷ rest)
reads_without_gap_example =
    reads_without_gap replies (first ∷ []) (first ∷ []) [] at_first at_second growing refl refl
      growing-Fed growing_run

-- A server, and a sweep with no fixed domain.
abbrev pub server : Server
server = record {
  group = ascii "dns";
  consumer = ascii "resolver";
  cache_ttl = pos 300000000000;
  neg_ttl = pos 60000000000;
  resp_max = pos 1000;
  workers = pos 1;
  prefetch = pos 60000000000;
  top_n = pos 50;
  half_life = pos 86400000000000;
}

abbrev pub sweep : Sweep
sweep = record {
  trim = λ t. t;
  domains = some [];
  top = none;
  upstream = λ n t. answered two_ips;
  looked_at = λ d. pos 0;
  ranked_at = pos 0;
  stamped = λ d. pos 1;
  finished = λ d. pos 2;
}

abbrev pub requests : Json Request
requests = record { marshal = λ r. r.id; unmarshal = λ b. none }

abbrev pub updates : Json Update
updates = record { marshal = λ u. u.name; unmarshal = λ b. none }

-- A poll that names the second backend.
abbrev first_backend : FollowBackend
first_backend = record { addr = ascii "10.0.0.1:6379"; sni = [] }

abbrev second_backend : FollowBackend
second_backend = record { addr = ascii "10.0.0.2:6379"; sni = [] }

abbrev settings : Follow
settings = record {
  api = [];
  token = [];
  group = ascii "proxy";
  interval = pos 10;
  backends = (ascii "one", first_backend) ∷ (ascii "two", second_backend) ∷ [];
}

abbrev follower : Follower
follower = record { current = []; backend = none; local = empty }

abbrev moments : List Moment
moments =
    served (set (pos 0) (ascii "k") (1 ∷ []) (pos 1))
    ∷ polled (record { now = λ g. ascii "two"; answers = λ be. true })
    ∷ served (get (pos 2) (ascii "k"))
    ∷ []

run_follow-Follows_example :
    Follows lib.unpack
      (pos 300)
      settings
      follower
      moments
      (run_follow lib.unpack (pos 300) settings follower moments)
run_follow-Follows_example = run_follow-Follows lib.unpack (pos 300) settings follower moments
