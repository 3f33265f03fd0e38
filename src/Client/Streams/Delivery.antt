-- ===== src/Client/Streams/Delivery.antt =====
-- internal/client/client.go: one batch of responses reaches the requests that wait for them.
use redis_dns.Prelude.{
  ◌≡◌, refl, sym, ◌∙◌, ap, ◌≢◌, ◌⊎◌, inl, inr, List, [], ◌∷◌, Option, none, some, arith, All,
  All-map, Option-cases,
}
use redis_dns.Prelude.Bytes.{Bytes, insert, bytes_eq_refl, bytes_eq_iff}
use redis_dns.Prelude.Int.{pos}
use redis_dns.Proto.{Response, Json}
use redis_dns.Client.Pending.{Waits, dispatch}
use redis_dns.Client.Streams.{
  Entry, Dispatcher, entry_response, deliver, read_entries, dispatcher_step, entries,
}

-- No request of that ID waits, or one waits and has nothing yet.
abbrev pub HasRoom : Waits → Response → Type 0
HasRoom waits r = (waits r.id ≡ none) ⊎ (waits r.id ≡ some none)

abbrev pub DistinctIds : List Response → Type 0
DistinctIds [] = Unit
DistinctIds (r ∷ rs) = All (λ q. q.id ≢ r.id) rs × DistinctIds rs

-- The response is in the channel of its request, if there was one.
abbrev pub Delivered : Waits → Waits → Response → Type 0
Delivered before after r =
    ((before r.id ≡ none) × (after r.id ≡ none))
    ⊎ ((before r.id ≡ some none) × (after r.id ≡ some (some r)))

-- Nothing changes for an ID that no response has.
abbrev pub Leaves : List Response → Waits → Waits → Type 0
Leaves rs before after = (id : Bytes) → All (λ r. r.id ≢ id) rs → after id ≡ before id

abbrev pub last_of : Bytes → List Entry → Bytes
last_of last_id [] = last_id
last_of last_id (e ∷ es) = last_of e.id es

module _ (responses : Json Response) where
  abbrev pub responses_of : List Entry → List Response
  responses_of [] = []
  responses_of (e ∷ es) = elim (entry_response responses e.data_field) [
    | none ↦ responses_of es
    | some r ↦ r ∷ responses_of es
  ]

  -- A batch is routed to the end.
  abbrev Routed : Bytes → Waits → List Entry → List Response → Type 0
  Routed last_id waits es rs =
      (waits' : Waits) × (read_entries responses last_id waits es
        ≡ some (last_of last_id es, waits'))
      × All (Delivered waits waits') rs
      × Leaves rs waits waits'

  deliver_into :
      (waits : Waits) (r : Response)
      → HasRoom waits r
      → (waits' : Waits) × (deliver responses waits (some r) ≡ some waits')
        × Delivered waits waits' r
        × ((id : Bytes) → r.id ≢ id → waits' id ≡ waits id)
  unfolding deliver dispatch
  deliver_into waits r (inl h) = (waits, rw (h, deliver), inl (h, h), λ id other. refl)
  deliver_into waits r (inr h) = (
    insert r.id (some r) waits,
    rw (h, deliver),
    inr (h, rw (bytes_eq_refl r.id)),
    λ id other. ground (arith, bytes_eq_iff id r.id),
  )

  step-Routed :
      (last_id : Bytes) (waits : Waits) (e : Entry) (es : List Entry) (o : Option Response)
      → entry_response responses e.data_field ≡ o
      → (waits' : Waits) → deliver responses waits o ≡ some waits'
      → read_entries responses last_id waits (e ∷ es) ≡ read_entries responses e.id waits' es
  unfolding read_entries
  step-Routed last_id waits e es o at waits' h = rw (at, read_entries) (rw (h, read_entries))

  same_room :
      (before now : Waits) (rs : List Response)
      → All (λ r. now r.id ≡ before r.id) rs
      → All (HasRoom before) rs
      → All (HasRoom now) rs
  same_room before now [] e h = tt
  same_room before now (r ∷ rs) e h =
      (elim h.0 [ inl a ↦ inl (e.0 ∙ a) | inr a ↦ inr (e.0 ∙ a) ], same_room before now rs e.1 h.1)

  same_start :
      (before now after : Waits) (rs : List Response)
      → All (λ r. now r.id ≡ before r.id) rs
      → All (Delivered now after) rs
      → All (Delivered before after) rs
  same_start before now after [] e h = tt
  same_start before now after (r ∷ rs) e h = (
    elim h.0 [ inl (a, b) ↦ inl (sym e.0 ∙ a, b) | inr (a, b) ↦ inr (sym e.0 ∙ a, b) ],
    same_start before now after rs e.1 h.1,
  )

  -- What is left of a batch can be routed, whatever is in the channels by then.
  abbrev Rest : Entry → List Entry → Type 0
  Rest e es =
      (waits : Waits) (rs : List Response)
      → responses_of es ≡ rs
      → All (HasRoom waits) rs
      → DistinctIds rs
      → Routed e.id waits es rs

  route_response :
      (last_id : Bytes) (waits : Waits) (e : Entry) (es : List Entry) (rs : List Response)
      (r : Response)
      → Rest e es
      → entry_response responses e.data_field ≡ some r
      → r ∷ responses_of es ≡ rs
      → All (HasRoom waits) rs
      → DistinctIds rs
      → Routed last_id waits (e ∷ es) rs
  route_response last_id waits e es [] r rest at same room distinct = absurd (cc)
  route_response last_id waits e es (q ∷ qs) r rest at same room distinct =
      let is_r : r ≡ q = cc in
      let (now, sends, first, kept) = deliver_into waits q room.0 in
      let others = All-map _ _ qs (λ x other. kept x.id (λ h. other (sym h))) distinct.0 in
      let (waits', k, delivered, leaves) =
        rest now qs (cc) (same_room waits now qs others room.1) distinct.1 in
      let untouched = leaves q.id distinct.0 in
      (
        waits',
        step-Routed last_id waits e es (some q) (at ∙ ap some is_r) now sends ∙ k,
        (
          elim first [ inl (a, b) ↦ inl (a, untouched ∙ b) | inr (a, b) ↦ inr (a, untouched ∙ b) ],
          same_start waits now waits' qs others delivered,
        ),
        λ id h. leaves id h.1 ∙ kept id h.0,
      )

  route :
      (last_id : Bytes) (waits : Waits) (es : List Entry) (rs : List Response)
      → responses_of es ≡ rs
      → All (HasRoom waits) rs
      → DistinctIds rs
      → Routed last_id waits es rs
  route last_id waits [] [] same room distinct =
      (waits, unfold read_entries in refl, tt, λ id h. refl)
  route last_id waits [] (r ∷ rs) same room distinct = absurd (cc)
  route last_id waits (e ∷ es) rs same room distinct =
      elim (Option-cases (entry_response responses e.data_field)) [
        | inl no_response ↦
            let (waits', k, delivered, leaves) =
              route e.id waits es rs (ground (arith, no_response)) room distinct in
            (
              waits',
              step-Routed last_id waits e es none no_response waits (unfold deliver in refl) ∙ k,
              delivered,
              leaves,
            )
        | inr (r, at) ↦
            route_response last_id waits e es rs r (λ w qs. route e.id w es qs) at
              (ground (arith, at)) room distinct
      ]

  -- A batch of messages in which no ID comes twice is read to its end without blocking, if no
  -- request of theirs has an answer yet: each response is then in the channel of its request,
  -- responses that nobody waits for are dropped, no other request is touched, the next read
  -- starts after the last message, and the back-off is a second again.
  pub dispatcher_step-Delivered :
      (d : Dispatcher) (es : List Entry)
      → All (HasRoom d.waits) (responses_of es)
      → DistinctIds (responses_of es)
      → (waits' : Waits) × (dispatcher_step responses d (entries es)
          ≡ some
              (record { last_id = last_of d.last_id es; backoff = pos 1000000000; waits = waits' }))
        × All (Delivered d.waits waits') (responses_of es)
        × Leaves (responses_of es) d.waits waits'
  dispatcher_step-Delivered d es room distinct =
      let (waits', k, delivered, leaves) =
        route d.last_id d.waits es (responses_of es) refl room distinct in
      (waits', unfold dispatcher_step in rw (k, dispatcher_step), delivered, leaves)
