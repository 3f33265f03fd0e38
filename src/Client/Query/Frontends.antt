-- ===== src/Client/Query/Frontends.antt =====
-- internal/client/client.go: what the DNS and the DoH frontend reply.
use redis_dns.Prelude.{
  ℕ, ◌≡◌, refl, sym, ◌∙◌, ap, ◌≢◌, ◌⊎◌, inl, inr, false, List, [], ◌∷◌, Option, none, some, arith,
  Bool-cases, Option-cases, length,
}
use redis_dns.Prelude.Bytes.{Bytes, bytes_eq, ascii}
use redis_dns.Prelude.Int.{ℤ}
use redis_dns.Net.{is_nil}
use redis_dns.Dns.{Msg, Question, DnsLib, rcode_format_error, rcode_server_failure}
use redis_dns.Client.Local.{Local}
use redis_dns.Client.Query.{
  Result, Scene, ask_server, answer_question, dispatch_questions, resolve_query, error_reply, reply,
  handle, HttpReply, HttpRequest, http_get, http_post, http_other, status, message, doh_answer,
  doh_unpack, doh_handler,
}

module _ (lib : DnsLib) (local_ttl : ℤ) where
  open lib use {unpack, set_reply}

  -- A query is refused with FORMERR, and nothing asked, exactly if it has not one question. With
  -- one question it never is.
  refused_unless_one_question :
      (scene : Scene) (m : Local) (r : Msg)
      → ((length r.question ≢ 1)
          × (resolve_query lib local_ttl scene m r
              ≡ record { local = m; wire = []; rcode = rcode_format_error; asked = none }))
        ⊎ ((length r.question ≡ 1)
            × ((resolve_query lib local_ttl scene m r).rcode ≢ rcode_format_error))
  refused_unless_one_question scene m r = by_questions r.question refl
    where
      never : (q : Question) → (answer_question lib local_ttl scene m q).rcode ≢ rcode_format_error
      never q h = unfold answer_question ask_server in ground arith

      by_questions :
          (qs : List Question)
          → r.question ≡ qs
          → ((length r.question ≢ 1)
              × (resolve_query lib local_ttl scene m r
                  ≡ record { local = m; wire = []; rcode = rcode_format_error; asked = none }))
            ⊎ ((length r.question ≡ 1)
                × ((resolve_query lib local_ttl scene m r).rcode ≢ rcode_format_error))
      by_questions [] e =
          inl (rw e (omega arith), unfold resolve_query in rw (e, dispatch_questions))
      by_questions (q ∷ []) e =
          inr (rw e, λ h. never q (unfold resolve_query in ground (arith, e, h)))
      by_questions (q ∷ q' ∷ qs) e =
          inl (rw e (omega arith), unfold resolve_query in rw (e, dispatch_questions))

  abbrev Replies : Scene → Local → Msg → Msg → Type 0
  Replies scene m r out =
      ((rcode : ℕ) × (out ≡ error_reply lib local_ttl r rcode))
      ⊎ ((answer : Msg) × (unpack (resolve_query lib local_ttl scene m r).wire ≡ some answer)
          × (out ≡ record answer { id = r.id }))

  handle_cases :
      (scene : Scene) (m : Local) (r : Msg) → Replies scene m r (handle lib local_ttl scene m r).0
  unfolding handle reply
  handle_cases scene m r =
      let res = resolve_query lib local_ttl scene m r in
      elim (Bool-cases (is_nil res.wire)) [
        | inl empty ↦ inl (res.rcode, rw empty)
        | inr full ↦ elim (Option-cases (unpack res.wire)) [
          | inl broken ↦ inl (rcode_server_failure, rw full (rw (broken, reply)))
          | inr (answer, good) ↦ inr (answer, good, rw full (rw (good, reply)))
        ]
      ]

  error_id :
      ((r : Msg) → (set_reply r).id ≡ r.id)
      → (r : Msg) (rcode : ℕ) → (error_reply lib local_ttl r rcode).id ≡ r.id
  unfolding error_reply
  error_id keeps r rcode = keeps r

  -- The DNS frontend answers a query under the query's own ID, on every path, if the library's
  -- `SetReply` keeps the ID; and the reply is the stored message in all else, or an error reply.
  handle_keeps_id :
      ((r : Msg) → (set_reply r).id ≡ r.id)
      → (scene : Scene) (m : Local) (r : Msg)
      → let out = (handle lib local_ttl scene m r).0 in
        (out.id ≡ r.id)
        × (((rcode : ℕ) × (out ≡ error_reply lib local_ttl r rcode))
            ⊎ ((answer : Msg) × (unpack (resolve_query lib local_ttl scene m r).wire ≡ some answer)
                × (out ≡ record answer { id = r.id })))
  handle_keeps_id keeps scene m r = elim (handle_cases scene m r) [
    | inl (rcode, e) ↦ (ap (λ (x : Msg). x.id) e ∙ error_id keeps r rcode, inl (rcode, e))
    | inr (answer, u, e) ↦ (ap (λ (x : Msg). x.id) e, inr (answer, u, e))
  ]

  abbrev Refused : ℕ → Local → HttpReply × Local → Type 0
  Refused code m out = out ≡ (status code, m)

  abbrev DohCases : Scene → Local → HttpReply × Local → Type 0
  DohCases scene m out =
      Refused 400 m out
      ⊎ Refused 405 m out
      ⊎ Refused 415 m out
      ⊎ ((b : Bytes) × (msg : Msg) × (unpack b ≡ some msg)
          × (out ≡ doh_answer lib local_ttl scene m msg))

  unpack_cases :
      (scene : Scene) (m : Local) (o : Option Bytes)
      → DohCases scene m (doh_unpack lib local_ttl scene m o)
  unfolding doh_unpack
  unpack_cases scene m none = inl refl
  unpack_cases scene m (some b) = elim (Option-cases (unpack b)) [
    | inl broken ↦ inl (rw (broken, doh_unpack))
    | inr (msg, good) ↦ inr (inr (inr (b, msg, good, rw (good, doh_unpack))))
  ]

  -- A DoH request is refused with status 400, 405 or 415 and leaves the cache as it is, or it
  -- carries bytes that unpack to a message, and is answered as that query.
  pub doh_handler_cases :
      (decode : Bytes → Option Bytes) (scene : Scene) (m : Local) (req : HttpRequest)
      → DohCases scene m (doh_handler lib local_ttl decode scene m req)
  unfolding doh_handler
  doh_handler_cases decode scene m (http_get dns) = unpack_cases scene m (decode dns)
  doh_handler_cases decode scene m (http_post content_type body) =
      elim (Bool-cases (bytes_eq content_type (ascii "application/dns-message"))) [
        | inl right ↦ rw right (unpack_cases scene m _)
        | inr wrong ↦ rw wrong (inr (inr (inl refl)))
      ]
  doh_handler_cases decode scene m http_other = inr (inl refl)

  doh_body :
      (scene : Scene) (m : Local) (msg : Msg)
      → is_nil (resolve_query lib local_ttl scene m msg).wire ≡ false
      → (doh_answer lib local_ttl scene m msg).0
        ≡ message (resolve_query lib local_ttl scene m msg).wire
  unfolding doh_answer
  doh_body scene m msg full = rw full

  -- A DoH reply with an answer does not depend on the ID of the query: two messages with the same
  -- questions get the same bytes.
  pub doh_ignores_id :
      (scene : Scene) (m : Local) (msg msg' : Msg)
      → msg.question ≡ msg'.question
      → is_nil (resolve_query lib local_ttl scene m msg).wire ≡ false
      → (doh_answer lib local_ttl scene m msg).0 ≡ (doh_answer lib local_ttl scene m msg').0
  doh_ignores_id scene m msg msg' e full =
      let same : resolve_query lib local_ttl scene m msg
          ≡ resolve_query lib local_ttl scene m msg' =
        unfold resolve_query in ap (dispatch_questions lib local_ttl scene m) e in
      let wire = ap (λ (x : Result). x.wire) same in
      doh_body scene m msg full
      ∙ ap message wire
      ∙ sym (doh_body scene m msg' (ap is_nil (sym wire) ∙ full))
