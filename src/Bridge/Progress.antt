-- ===== src/Bridge/Progress.antt =====
-- A query that nobody has asked before gets its answer, if the upstream side has one.
use redis_dns.Prelude.{
  none_clash, ℕ, ◌≡◌, refl, ◌∙◌, inl, inr, false, List, [], ◌∷◌, ◌++◌, none, some, Any,
}
use redis_dns.Prelude.Bytes.{Bytes, bytes_eq_refl}
use redis_dns.Prelude.Int.{ℤ}
use redis_dns.Net.{is_nil}
use redis_dns.Dns.{Msg, DnsLib}
use redis_dns.Proto.{Request, Response, Update, Json, IsFaithful}
use redis_dns.Client.Pending.Routing.{dispatch-register}
use redis_dns.Client.Pending.Waiting.{accept_good}
use redis_dns.Server.{Server}
use redis_dns.Server.Handle
use redis_dns.Server.Handle.{Command, respond, publish, ack, cache, blank, process, answer_request}
use redis_dns.Server.Handle.Answering.{by_miss, by_answer, by_wire}
use redis_dns.Server.Handle.Responding.{process_request}
use redis_dns.Bridge.{
  Bridge, ask, serve, Returned, deliver, finish, keep, tell, Reach, here, next, steps_of,
}

Any-append_right : (P : Command → Type 0) (xs ys : List Command) → Any P ys → Any P (xs ++ ys)
Any-append_right P [] ys m = m
Any-append_right P (x ∷ xs) ys m = inr (Any-append_right P xs ys m)

Any-append_left : (P : Command → Type 0) (xs ys : List Command) → Any P xs → Any P (xs ++ ys)
Any-append_left P [] ys m = elim m [ ]
Any-append_left P (x ∷ xs) ys (inl h) = inl h
Any-append_left P (x ∷ xs) ys (inr m) = inr (Any-append_left P xs ys m)

module _ (lib : DnsLib) (Gives : Bytes → ℕ → Msg → Type 0) (requests : Json Request)
    (responses : Json Response) (updates : Json Update) (asks : IsFaithful requests)
    (law : IsFaithful responses) (local_ttl : ℤ) where
  open lib use {pack}

  -- The response to a request for which the Redis cache has nothing.
  abbrev fresh_response : ℤ → Bytes → Bytes → ℕ → Msg → Bytes → Response
  fresh_response now id name qtype m wire = record {
    id = id;
    name = name;
    qtype = qtype;
    rcode = m.rcode;
    resolved_at = now;
    wire = wire;
    err = [];
  }

  -- Such a request brings that response.
  responds :
      (server : Server) (upstream : Bytes → ℕ → Handle.Resolved) (now : ℤ) (queue : List Bytes)
      (message id name : Bytes) (qtype : ℕ) (m : Msg) (wire : Bytes)
      → upstream name qtype ≡ Handle.answered m
      → pack m ≡ some wire
      → let scene : Handle.Scene = record {
        cached = λ k. none;
        upstream = upstream;
        pack_error = λ x. [];
        now = now;
      } in
        Any
          (λ c. c ≡ respond (responses.marshal (fresh_response now id name qtype m wire)))
          (process lib requests responses updates server scene queue message
            (some (requests.marshal (record { id = id; name = name; qtype = qtype })))).1
  responds server upstream now queue message id name qtype m wire up good =
      let scene : Handle.Scene = record {
        cached = λ k. none;
        upstream = upstream;
        pack_error = λ x. [];
        now = now;
      } in
      let req : Request = record { id = id; name = name; qtype = qtype } in
      let made =
        by_miss lib requests responses updates server scene req refl
        ∙ by_answer lib requests responses updates server scene req m up
        ∙ by_wire lib requests responses updates server scene req m wire good in
      rw
        (process_request lib requests responses updates server scene queue message
          (requests.marshal req) req (asks.reads_back req))
        (Any-append_left _ (answer_request lib requests responses updates server scene req) _
          (rw made (Any-append_right _ (cache server name qtype wire m).1 _ (inr (inl refl)))))

  -- From any state, a query under an ID that was never used can be answered, with what the upstream
  -- side gives for its name and type at that time, in six steps: the request is sent and served, its
  -- response delivered and returned, and the answer stored and given. The other requests in flight do not matter.
  -- The answer must pack to a wire that is not empty, the upstream side answers only what it
  -- gives, and JSON reads back what it wrote.
  pub cold_query_is_answered :
      (s : Bridge) (server : Server) (upstream : Bytes → ℕ → Handle.Resolved) (now : ℤ)
      (id name : Bytes) (qtype : ℕ) (m : Msg) (wire : Bytes)
      → s.opened id ≡ none
      → ((n : Bytes) (t : ℕ) (x : Msg) → upstream n t ≡ Handle.answered x → Gives n t x)
      → upstream name qtype ≡ Handle.answered m
      → pack m ≡ some wire
      → is_nil wire ≡ false
      → (t : Bridge) × (run : Reach lib requests responses updates local_ttl Gives s t) × (steps_of
            lib requests responses updates local_ttl Gives run
          ≡ 6)
        × (t.replies ≡ record { name = name; qtype = qtype; wire = wire } ∷ s.replies)
  cold_query_is_answered s server upstream now id name qtype m wire new honest up good full =
      let resp = fresh_response now id name qtype m wire in
      let payload = requests.marshal (record { id = id; name = name; qtype = qtype }) in
      let scene : Handle.Scene = record {
        cached = λ k. none;
        upstream = upstream;
        pack_error = λ x. [];
        now = now;
      } in
      let (waits', sends, at, _) = dispatch-register resp resp s.waits refl in
      let asked = next here (ask id name qtype new) in
      let served = next asked (
        serve server scene [] [] payload (inl refl)
          (record { resolves = honest; holds = λ key w e. absurd (none_clash e) })) in
      let delivered = next served (
        deliver (responses.marshal resp) resp waits'
          (Any-append_left _ _ s.commands
            (responds server upstream now [] [] id name qtype m wire up good))
          (law.reads_back resp) sends) in
      let returned =
        next delivered (
          finish id name qtype resp resp (rw (bytes_eq_refl id)) at (accept_good resp refl full)) in
      let a : Returned = record { name = name; qtype = qtype; response = resp } in
      let stored = next returned (keep a now (inl refl)) in
      (_, next stored (tell a (inl refl)), refl, refl)
