-- ===== src/Client/Pending/Waiting.antt =====
-- internal/client/client.go: how long `resolve` waits, and for what.
use redis_dns.Prelude.{
  ◌≡◌, ◌∙◌, inl, inr, true, false, List, [], ◌∷◌, arith, Bool-cases, Any, if◌then◌else◌,
}
use redis_dns.Prelude.Int.{ℤ, pos, ltb_ℤ, ◌+ℤ◌, ◌≤ℤ◌}
use redis_dns.Net.{is_nil}
use redis_dns.Proto.{Response}
use redis_dns.Client.Pending.{
  Arrival, response, acked, ack_failed, cancelled, answered, accept, timed_out, await_response,
  await, resolve,
}

-- A response that counts as an answer, in time for `limit`.
abbrev pub Answers : ℤ → Response → Arrival → Type 0
Answers limit r (response t resp) =
    (t ≤ℤ limit) × (resp ≡ r) × (is_nil r.err ≡ true) × (is_nil r.wire ≡ false)
Answers limit r (acked t) = ⊥
Answers limit r (ack_failed t err) = ⊥
Answers limit r (cancelled t) = ⊥

pub accept-answered :
    (resp r : Response)
    → accept resp ≡ answered r
    → (resp ≡ r) × (is_nil r.err ≡ true) × (is_nil r.wire ≡ false)
unfolding accept
accept-answered resp r h = ground arith

-- A test that fails: the arrival is in time.
in_time : (limit t : ℤ) → ltb_ℤ limit t ≡ false → t ≤ℤ limit
in_time limit t h = ground arith

≤ℤ_trans : (a b c : ℤ) → a ≤ℤ b → b ≤ℤ c → a ≤ℤ c
≤ℤ_trans a b c h k = omega arith

response-Answers :
    (limit bound t : ℤ) (resp r : Response)
    → limit ≤ℤ bound
    → (if ltb_ℤ limit t then timed_out else accept resp) ≡ answered r
    → Answers bound r (response t resp)
response-Answers limit bound t resp r le h = elim (Bool-cases (ltb_ℤ limit t)) [
  | inl late ↦ absurd (ground arith)
  | inr on_time ↦
      let (same, no_err, full) = accept-answered resp r (ground (arith, h)) in
      (≤ℤ_trans t limit bound (in_time limit t on_time) le, same, no_err, full)
]

await_response-Answers :
    (limit bound : ℤ) (arrivals : List Arrival) (r : Response)
    → limit ≤ℤ bound
    → await_response limit arrivals ≡ answered r
    → Any (Answers bound r) arrivals
unfolding await_response
await_response-Answers limit bound [] r le h = absurd (cc)
await_response-Answers limit bound (response t resp ∷ as') r le h =
    inl (response-Answers limit bound t resp r le h)
await_response-Answers limit bound (acked t ∷ as') r le h = elim (Bool-cases (ltb_ℤ limit t)) [
  | inl late ↦ absurd (ground arith)
  | inr on_time ↦ inr (await_response-Answers limit bound as' r le (ground arith))
]
await_response-Answers limit bound (ack_failed t err ∷ as') r le h =
    elim (Bool-cases (ltb_ℤ limit t)) [
      | inl late ↦ absurd (ground arith)
      | inr on_time ↦ inr (await_response-Answers limit bound as' r le (ground arith))
    ]
await_response-Answers limit bound (cancelled t ∷ as') r le h = absurd (ground arith)

-- The timer that a confirmation starts ends no later than a whole timer after the first one.
restart-le : (limit t block : ℤ) → t ≤ℤ limit → t +ℤ block ≤ℤ limit +ℤ block
restart-le limit t block h = ground arith

extend-le : (limit block : ℤ) → pos 0 ≤ℤ block → limit ≤ℤ limit +ℤ block
extend-le limit block h = ground arith

await-Answers :
    (block limit : ℤ) (arrivals : List Arrival) (r : Response)
    → pos 0 ≤ℤ block
    → await block limit arrivals ≡ answered r
    → Any (Answers (limit +ℤ block) r) arrivals
unfolding await
await-Answers block limit [] r b h = absurd (cc)
await-Answers block limit (response t resp ∷ as') r b h =
    inl (response-Answers limit (limit +ℤ block) t resp r (extend-le limit block b) h)
await-Answers block limit (acked t ∷ as') r b h = elim (Bool-cases (ltb_ℤ limit t)) [
  | inl late ↦ absurd (ground arith)
  | inr on_time ↦ inr (
      await_response-Answers (t +ℤ block) (limit +ℤ block) as' r
        (restart-le limit t block (in_time limit t on_time)) (ground arith))
]
await-Answers block limit (ack_failed t err ∷ as') r b h = absurd (ground arith)
await-Answers block limit (cancelled t ∷ as') r b h = absurd (ground arith)

-- An answer of `resolve` is a response that arrived, carries no error and is not empty; and it
-- arrived within twice the configured wait, since the confirmation of the request starts the timer
-- anew.
pub resolve-Answers :
    (block start : ℤ) (arrivals : List Arrival) (r : Response)
    → pos 0 ≤ℤ block
    → resolve block start arrivals ≡ answered r
    → Any (Answers (start +ℤ block +ℤ block) r) arrivals
unfolding resolve
resolve-Answers block start arrivals r b h = await-Answers block (start +ℤ block) arrivals r b h

await-acked :
    (block limit t : ℤ) (rest : List Arrival)
    → ltb_ℤ limit t ≡ false
    → await block limit (acked t ∷ rest) ≡ await_response (t +ℤ block) rest
unfolding await
await-acked block limit t rest h = rw (h, await)

await-response :
    (block limit t : ℤ) (resp : Response) (rest : List Arrival)
    → ltb_ℤ limit t ≡ false
    → await block limit (response t resp ∷ rest) ≡ accept resp
unfolding await
await-response block limit t resp rest h = rw h

await_response-response :
    (limit t : ℤ) (resp : Response) (rest : List Arrival)
    → ltb_ℤ limit t ≡ false
    → await_response limit (response t resp ∷ rest) ≡ accept resp
unfolding await_response
await_response-response limit t resp rest h = rw h

not_late : (a : ℤ) → ltb_ℤ a a ≡ false
not_late a = ground arith

pub accept_good :
    (r : Response) → is_nil r.err ≡ true → is_nil r.wire ≡ false → accept r ≡ answered r
unfolding accept
accept_good r no_err full = rw (no_err, full)

-- A good response is accepted, before the confirmation of the request or after it, at the very end
-- of the wait; after a confirmation that comes at the end of the first timer this is twice the
-- configured wait from the start.
resolve_accepts :
    (block start : ℤ) (rest : List Arrival) (r : Response)
    → is_nil r.err ≡ true
    → is_nil r.wire ≡ false
    → (resolve block start (response (start +ℤ block) r ∷ rest) ≡ answered r)
      × (resolve block start (acked (start +ℤ block) ∷ response (start +ℤ block +ℤ block) r ∷ rest)
          ≡ answered r)
unfolding resolve
resolve_accepts block start rest r no_err full =
    let first = start +ℤ block in
    let second = first +ℤ block in
    (
      await-response block first first r rest (not_late first) ∙ accept_good r no_err full,
      await-acked block first first (response second r ∷ rest) (not_late first)
          ∙ await_response-response second second r rest (not_late second)
          ∙ accept_good r no_err full,
    )
