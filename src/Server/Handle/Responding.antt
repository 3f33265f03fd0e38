-- ===== src/Server/Handle/Responding.antt =====
-- internal/server/server.go: each message gets one acknowledgement, and each request one response.
use redis_dns.Prelude.{
  ℕ, ◌≡◌, refl, sym, ap, subst, ◌∙◌, ◌⊎◌, inl, inr, List, [], ◌∷◌, ◌++◌, Option, none, some, arith,
  Option-cases, Bool-cases, ltb, length, ◌<◌, ◌≤◌,
}
use mathlib.Core.List.{append_assoc}
use redis_dns.Prelude.Bytes.{Bytes}
use redis_dns.Dns.{Msg, DnsLib}
use redis_dns.Proto.{Request, Response, Update, Json}
use redis_dns.Redisx.{cache_key}
use redis_dns.Server.{Server}
use redis_dns.Server.Stats.{count_member, count_query, count_queue_size}
use redis_dns.Server.Handle.Answering.{
  Answered, from_cache, with_error, fresh, answer_request-Answered,
}
use redis_dns.Server.Handle.{
  Command, store, publish, respond, ack, Scene, cache, rcode_of, answer_request, handle, process,
  blank,
}

-- The responses and the acknowledgements among the commands.
unfoldable pub responses_in : List Command → List Bytes
responses_in [] = []
responses_in (respond p ∷ cs) = p ∷ responses_in cs
responses_in (_ ∷ cs) = responses_in cs

unfoldable pub acks_in : List Command → List Bytes
acks_in [] = []
acks_in (ack id ∷ cs) = id ∷ acks_in cs
acks_in (_ ∷ cs) = acks_in cs

pub cache_sends :
    (s : Server) (name : Bytes) (qtype : ℕ) (wire : Bytes) (m : Msg)
    → ((cache s name qtype wire m).1 ≡ [])
      ⊎ ((cache s name qtype wire m).1
          ≡ store (cache_key name qtype) wire (cache s name qtype wire m).0 ∷ [])
unfolding cache
cache_sends s name qtype wire m = ground arith

-- One response, and one acknowledgement after it.
responses_after_cache :
    (s : Server) (name : Bytes) (qtype : ℕ) (wire : Bytes) (m : Msg) (rest : List Command)
    → (responses_in ((cache s name qtype wire m).1 ++ rest) ≡ responses_in rest)
      × (acks_in ((cache s name qtype wire m).1 ++ rest) ≡ acks_in rest)
unfolding responses_in acks_in
responses_after_cache s name qtype wire m rest = elim (cache_sends s name qtype wire m) [
  | inl e ↦ (rw e, rw e)
  | inr e ↦ (rw e, rw e)
]

-- The member is added at the end of the queue, or the queue is full and stays as it is.
abbrev pub Counted : Bytes → List Bytes → List Bytes → Type 0
Counted member queue after =
    ((length queue < count_queue_size) × (after ≡ queue ++ member ∷ []))
    ⊎ ((count_queue_size ≤ length queue) × (after ≡ queue))

count_query-Counted :
    (member : Bytes) (queue : List Bytes) → Counted member queue (count_query member queue)
unfolding count_query
count_query-Counted member queue = elim (Bool-cases (ltb (length queue) count_queue_size)) [
  | inl room ↦ inl (ground arith, rw room refl)
  | inr full ↦ inr (ground arith, rw full refl)
]

module _ (lib : DnsLib) (requests : Json Request) (responses : Json Response)
    (updates : Json Update) where
  open lib use {pack, unpack}

  -- One response that echoes the request, and one acknowledgement.
  abbrev pub AnswersOnce : Request → Bytes → List Command → Type 0
  AnswersOnce req id sent =
      (resp : Response) × (responses_in sent ≡ responses.marshal resp ∷ [])
      × (acks_in sent ≡ id ∷ [])
      × (resp.id ≡ req.id)
      × (resp.name ≡ req.name)
      × (resp.qtype ≡ req.qtype)

  Answered-AnswersOnce :
      (s : Server) (scene : Scene) (req : Request) (id : Bytes) (sent : List Command)
      → Answered lib requests responses updates s scene req sent
      → AnswersOnce req id (sent ++ ack id ∷ [])
  unfolding responses_in acks_in
  Answered-AnswersOnce s scene req id sent (from_cache wire hit e) = (
    record (blank req) { rcode = rcode_of (unpack wire); resolved_at = scene.now; wire = wire },
    rw e,
    rw e,
    refl,
    refl,
    refl,
  )
  Answered-AnswersOnce s scene req id sent (with_error err miss why e) =
      (record (blank req) { err = err }, rw e, rw e, refl, refl, refl)
  Answered-AnswersOnce s scene req id sent (fresh m wire miss up good e) =
      let resp : Response = record (blank req) {
        rcode = m.rcode;
        resolved_at = scene.now;
        wire = wire;
      } in
      let push = updates.marshal (record {
        name = req.name;
        qtype = req.qtype;
        rcode = m.rcode;
        resolved_at = scene.now;
        wire = wire;
      }) in
      let rest = publish push ∷ respond (responses.marshal resp) ∷ [] in
      let all =
        ap (λ (x : List Command). x ++ ack id ∷ []) e
        ∙ append_assoc (cache s req.name req.qtype wire m).1 rest (ack id ∷ []) in
      let (one, acked) = responses_after_cache s req.name req.qtype wire m (rest ++ ack id ∷ []) in
      (resp, ap responses_in all ∙ one, ap acks_in all ∙ acked, refl, refl, refl)

  pub process_request :
      (s : Server) (scene : Scene) (queue : List Bytes) (id payload : Bytes) (req : Request)
      → requests.unmarshal payload ≡ some req
      → process lib requests responses updates s scene queue id (some payload) ≡ (
        count_query (count_member lib req.name req.qtype) queue,
        answer_request lib requests responses updates s scene req ++ ack id ∷ [],
      )
  unfolding process handle
  process_request s scene queue id payload req h = rw (h, handle)

  -- A message of the request stream that is no request.
  abbrev pub IsForeign : Option Bytes → Type 0
  IsForeign none = Unit
  IsForeign (some payload) = requests.unmarshal payload ≡ none

  -- Every message of the request stream is acknowledged once. One that is no request (it has no
  -- data, or data that does not parse) gets no response, and is not counted; a request is counted,
  -- if there is room, and gets exactly one response, with its own ID, name and type, whatever the
  -- cache and the upstream say.
  pub process-AnswersOnce :
      (s : Server) (scene : Scene) (queue : List Bytes) (id : Bytes) (field : Option Bytes)
      → let out = process lib requests responses updates s scene queue id field in
        (IsForeign field × (out ≡ (queue, ack id ∷ [])))
        ⊎ ((payload : Bytes) × (req : Request) × (field ≡ some payload)
            × (requests.unmarshal payload ≡ some req)
            × Counted (count_member lib req.name req.qtype) queue out.0
            × AnswersOnce req id out.1)
  process-AnswersOnce s scene queue id none = inl (tt, unfold process handle in refl)
  process-AnswersOnce s scene queue id (some payload) =
      elim (Option-cases (requests.unmarshal payload)) [
        | inl bad ↦ inl (bad, unfold process handle in rw (bad, handle))
        | inr (req, good) ↦
            let done = process_request s scene queue id payload req good in
            inr (
              payload,
              req,
              refl,
              good,
              subst (Counted (count_member lib req.name req.qtype) queue)
                  (sym (ap (λ (x : List Bytes × List Command). x.0) done))
                  (count_query-Counted (count_member lib req.name req.qtype) queue),
              subst (λ (x : List Bytes × List Command). AnswersOnce req id x.1) (sym done)
                  (Answered-AnswersOnce s scene req id
                    (answer_request lib requests responses updates s scene req)
                    (answer_request-Answered lib requests responses updates s scene req)),
            )
      ]
