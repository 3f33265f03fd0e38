-- ===== src/Client/Streams/Cursor.antt =====
-- internal/client/client.go: the loop of `runDispatcher` over a growing response stream. The stream
-- is the list of all entries that were ever put on it; XREAD is known by what it may return.
use redis_dns.Prelude.{
  ◌≡◌, refl, sym, ap, ◌∙◌, subst, inl, inr, List, [], ◌∷◌, ◌++◌, Option, none, some, Option-cases,
  none_clash,
}
use redis_dns.Prelude.Bytes.{Bytes}
use redis_dns.Prelude.Int.{pos}
use redis_dns.Proto.{Response, Json}
use redis_dns.Client.Pending.{Waits}
use redis_dns.Client.Streams.{
  Entry, Read, read_failed, nothing, entries, Dispatcher, deliver, entry_response, read_entries,
  dispatcher_step, back_off,
}
use redis_dns.Client.Streams.Delivery.{last_of}

-- What happens: entries are put on the stream, or XREAD returns to the loop.
pub data Event : Type 0 where
  added : List Entry → Event
  returned : Read → Event

-- The entries end with the one that has the ID.
abbrev pub EndsWith : Bytes → List Entry → Type 0
EndsWith id [] = ⊥
EndsWith id (e ∷ es) = last_of e.id es ≡ id

-- XREAD from the ID of an entry returns entries that follow on it, if nothing that follows on it
-- has been trimmed away.
abbrev pub Succeeds : List Entry → Bytes → Read → Type 0
Succeeds stream id read_failed = Unit
Succeeds stream id nothing = Unit
Succeeds stream id (entries es) =
    (front back : List Entry)
    → stream ≡ front ++ back
    → EndsWith id front
    → (rest : List Entry) × (back ≡ es ++ rest)

abbrev pub grown : List Entry → List Event → List Entry
grown stream [] = stream
grown stream (added es ∷ events) = grown (stream ++ es) events
grown stream (returned r ∷ events) = grown stream events

-- What the loop is given, in order.
abbrev pub given : Read → List Entry
given read_failed = []
given nothing = []
given (entries es) = es

abbrev pub routed : List Event → List Entry
routed [] = []
routed (added es ∷ events) = routed events
routed (returned r ∷ events) = given r ++ routed events

append_nil : (x : List Entry) → x ++ [] ≡ x
append_nil [] = refl
append_nil (e ∷ x) = ap (λ es. e ∷ es) (append_nil x)

append_assoc : (x y z : List Entry) → (x ++ y) ++ z ≡ x ++ (y ++ z)
append_assoc [] y z = refl
append_assoc (e ∷ x) y z = ap (λ es. e ∷ es) (append_assoc x y z)

last_of-append : (id : Bytes) (x y : List Entry) → last_of id (x ++ y) ≡ last_of (last_of id x) y
last_of-append id [] y = refl
last_of-append id (e ∷ x) y = last_of-append e.id x y

append-EndsWith :
    (id : Bytes) (front es : List Entry)
    → EndsWith id front
    → EndsWith (last_of id es) (front ++ es)
append-EndsWith id [] es at = elim at [ ]
append-EndsWith id (e ∷ front) es at = last_of-append e.id front es ∙ ap (λ j. last_of j es) at

module _ (responses : Json Response) where
  -- The loop; `none` while a send blocks it.
  unfoldable pub run_dispatcher : Dispatcher → List Event → Option Dispatcher
  run_dispatcher d [] = some d
  run_dispatcher d (added es ∷ events) = run_dispatcher d events
  run_dispatcher d (returned r ∷ events) = elim (dispatcher_step responses d r) [
    | none ↦ none
    | some d' ↦ run_dispatcher d' events
  ]

  -- Whatever XREAD returns to the loop on the way follows on its cursor.
  abbrev pub Fed : List Entry → Dispatcher → List Event → Type 0
  Fed stream d [] = Unit
  Fed stream d (added es ∷ events) = Fed (stream ++ es) d events
  Fed stream d (returned r ∷ events) =
      Succeeds stream d.last_id r
      × ((d' : Dispatcher) → dispatcher_step responses d r ≡ some d' → Fed stream d' events)

  -- A batch that is read to its end leaves the cursor at its last entry.
  read_entries-last_of :
      (id last_id : Bytes) (waits waits' : Waits) (es : List Entry)
      → read_entries responses id waits es ≡ some (last_id, waits')
      → last_id ≡ last_of id es
  unfolding read_entries
  read_entries-last_of id last_id waits waits' [] h =
      let first : Bytes × Waits = (id, waits) in
      let second : Bytes × Waits = (last_id, waits') in
      let same : first ≡ second = cc in sym (ap (λ (p : Bytes × Waits). p.0) same)
  read_entries-last_of id last_id waits waits' (e ∷ es) h =
      elim (Option-cases (deliver responses waits (entry_response responses e.data_field))) [
        | inl blocked ↦
            let stuck : read_entries responses id waits (e ∷ es) ≡ none =
              rw (blocked, read_entries) refl in
            absurd (none_clash (sym stuck ∙ h))
        | inr (now, sends) ↦
            let goes : read_entries responses id waits (e ∷ es)
                ≡ read_entries responses e.id now es =
              rw (sends, read_entries) refl in
            read_entries-last_of e.id last_id now waits' es (sym goes ∙ h)
      ]

  -- A turn of the loop, with the cursor at the end of what was read.
  abbrev Moves : List Entry → List Entry → Read → Dispatcher → Type 0
  Moves front back r d' =
      EndsWith d'.last_id (front ++ given r) × (rest : List Entry) × (back ≡ given r ++ rest)

  idle-Moves :
      (front back : List Entry) (d : Dispatcher)
      → EndsWith d.last_id front
      → EndsWith d.last_id (front ++ []) × (rest : List Entry) × (back ≡ rest)
  idle-Moves front back d at = (subst (EndsWith d.last_id) (sym (append_nil front)) at, back, refl)

  batch-Moves :
      (stream front back es : List Entry) (d d' : Dispatcher)
      → stream ≡ front ++ back
      → EndsWith d.last_id front
      → Succeeds stream d.last_id (entries es)
      → dispatcher_step responses d (entries es) ≡ some d'
      → Moves front back (entries es) d'
  unfolding dispatcher_step
  batch-Moves stream front back es d d' cut at follows h =
      elim (Option-cases (read_entries responses d.last_id d.waits es)) [
        | inl blocked ↦
            let stuck : dispatcher_step responses d (entries es) ≡ none =
              rw (blocked, dispatcher_step) refl in
            absurd (none_clash (sym stuck ∙ h))
        | inr (q, done) ↦
            let is_last = read_entries-last_of d.last_id q.0 d.waits q.1 es done in
            let moved : Dispatcher = record {
              last_id = q.0;
              backoff = pos 1000000000;
              waits = q.1;
            } in
            let goes : dispatcher_step responses d (entries es) ≡ some moved =
              rw (done, dispatcher_step) refl in
            let both : some moved ≡ some d' = sym goes ∙ h in
            let is : moved ≡ d' = cc in
            let cursor : d'.last_id ≡ last_of d.last_id es =
              sym (ap (λ (x : Dispatcher). x.last_id) is) ∙ is_last in
            let (rest, left) = follows front back cut at in
            (
              subst (λ id. EndsWith id (front ++ es)) (sym cursor)
                  (append-EndsWith d.last_id front es at),
              rest,
              left,
            )
      ]

  dispatcher_step-Moves :
      (stream front back : List Entry) (d d' : Dispatcher) (r : Read)
      → stream ≡ front ++ back
      → EndsWith d.last_id front
      → Succeeds stream d.last_id r
      → dispatcher_step responses d r ≡ some d'
      → Moves front back r d'
  dispatcher_step-Moves stream front back d d' read_failed cut at follows h =
      unfold dispatcher_step in
      let is : record d { backoff = back_off d.backoff } ≡ d' = cc in
      idle-Moves front back d' (subst (λ (x : Dispatcher). EndsWith x.last_id front) is at)
  dispatcher_step-Moves stream front back d d' nothing cut at follows h =
      unfold dispatcher_step in
      let is : d ≡ d' = cc in
      idle-Moves front back d' (subst (λ (x : Dispatcher). EndsWith x.last_id front) is at)
  dispatcher_step-Moves stream front back d d' (entries es) cut at follows h =
      batch-Moves stream front back es d d' cut at follows h

  -- From an ID of the stream on, the loop is given the entries of the stream one after another, none
  -- of them twice and none left out, up to the one where its cursor then stands, however reads,
  -- errors and new entries alternate, as long as no send blocks it.
  pub reads_without_gap :
      (stream front back : List Entry) (d d' : Dispatcher) (events : List Event)
      → stream ≡ front ++ back
      → EndsWith d.last_id front
      → Fed stream d events
      → run_dispatcher d events ≡ some d'
      → EndsWith d'.last_id (front ++ routed events)
        × (rest : List Entry) × (grown stream events ≡ (front ++ routed events) ++ rest)
  unfolding run_dispatcher
  reads_without_gap stream front back d d' [] cut at fed h =
      let is : d ≡ d' = cc in
      (
        subst (λ es. EndsWith d'.last_id es) (sym (append_nil front))
            (subst (λ (x : Dispatcher). EndsWith x.last_id front) is at),
        back,
        cut ∙ ap (λ x. x ++ back) (sym (append_nil front)),
      )
  reads_without_gap stream front back d d' (added es ∷ events) cut at fed h =
      reads_without_gap (stream ++ es) front (back ++ es) d d' events
        (ap (λ x. x ++ es) cut ∙ append_assoc front back es) at fed h
  reads_without_gap stream front back d d' (returned r ∷ events) cut at fed h =
      elim (Option-cases (dispatcher_step responses d r)) [
        | inl blocked ↦
            let stuck : run_dispatcher d (returned r ∷ events) ≡ none =
              rw (blocked, run_dispatcher) refl in
            absurd (none_clash (sym stuck ∙ h))
        | inr (now, goes) ↦
            let turn : run_dispatcher d (returned r ∷ events) ≡ run_dispatcher now events =
              rw (goes, run_dispatcher) refl in
            let (at', rest, left) =
              dispatcher_step-Moves stream front back d now r cut at fed.0 goes in
            let split = cut ∙ ap (λ x. front ++ x) left ∙ sym (append_assoc front (given r) rest) in
            let (ends, more, all) =
              reads_without_gap stream (front ++ given r) rest now d' events split at'
                (fed.1 now goes) (sym turn ∙ h) in
            let same = append_assoc front (given r) (routed events) in
            (subst (EndsWith d'.last_id) same ends, more, all ∙ ap (λ x. x ++ more) same)
      ]
