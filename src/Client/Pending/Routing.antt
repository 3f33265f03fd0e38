-- ===== src/Client/Pending/Routing.antt =====
-- internal/client/client.go: each response goes to the request that has its ID, and to no other.
use redis_dns.Prelude.{◌≡◌, ◌≢◌, ◌⊎◌, inl, inr, none, some, arith, Option-cases}
use redis_dns.Prelude.Bytes.{Bytes, insert, erase, bytes_eq_refl, bytes_eq_iff}
use redis_dns.Proto.{Response}
use redis_dns.Client.Pending.{Waits, register, unregister, dispatch, sent, dropped, blocked}

-- The three outcomes of `dispatch`: with no request of that ID the response is dropped; into an
-- empty channel it is sent, and no other request's channel changes; into a channel that still
-- holds a response the send blocks.
pub dispatch_cases :
    (resp : Response) (waits : Waits)
    → ((waits resp.id ≡ none) × (dispatch resp waits ≡ dropped))
      ⊎ ((waits' : Waits) × (waits resp.id ≡ some none)
          × (dispatch resp waits ≡ sent waits')
          × (waits' resp.id ≡ some (some resp))
          × ((id : Bytes) → id ≢ resp.id → waits' id ≡ waits id))
      ⊎ ((old : Response) × (waits resp.id ≡ some (some old)) × (dispatch resp waits ≡ blocked))
unfolding dispatch
dispatch_cases resp waits = elim (Option-cases (waits resp.id)) [
  | inl unknown ↦ inl (unknown, rw (unknown, dispatch))
  | inr (ch, known) ↦ elim (Option-cases ch) [
    | inl idle ↦ inr (
        inl (
          insert resp.id (some resp) waits,
          ground arith,
          rw (known, dispatch) (rw idle),
          rw (bytes_eq_refl resp.id),
          λ id other. ground (arith, bytes_eq_iff id resp.id),
        ))
    | inr (old, full) ↦ inr (inr (old, ground arith, rw (known, dispatch) (rw full)))
  ]
]

dispatch_idle :
    (resp : Response) (waits : Waits)
    → waits resp.id ≡ some none
    → dispatch resp waits ≡ sent (insert resp.id (some resp) waits)
unfolding dispatch
dispatch_idle resp waits h = rw (h, dispatch)

dispatch_unknown :
    (resp : Response) (waits : Waits) → waits resp.id ≡ none → dispatch resp waits ≡ dropped
unfolding dispatch
dispatch_unknown resp waits h = rw (h, dispatch)

-- A request that has just registered gets the first response with its ID, whatever else is
-- pending; after it has unregistered another such response is dropped.
pub dispatch-register :
    (resp again : Response) (waits : Waits)
    → again.id ≡ resp.id
    → (waits' : Waits) × (dispatch resp (register resp.id waits) ≡ sent waits')
      × (waits' resp.id ≡ some (some resp))
      × (dispatch again (unregister resp.id waits') ≡ dropped)
unfolding register unregister
dispatch-register resp again waits e =
    let self = bytes_eq_refl resp.id in
    let pending = insert resp.id none waits in
    (
      insert resp.id (some resp) pending,
      dispatch_idle resp pending (rw self),
      rw self,
      dispatch_unknown again (erase resp.id (insert resp.id (some resp) pending)) (rw (e, self)),
    )
