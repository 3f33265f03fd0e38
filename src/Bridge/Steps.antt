-- ===== src/Bridge/Steps.antt =====
-- What each step keeps: lemmas on the parts of the two services.
use redis_dns.Prelude.{
  ℕ, ◌≡◌, sym, ap, ◌∙◌, subst, inl, inr, false, ◌∷◌, none, some, arith, Any, All-map, Bool-cases,
}
use redis_dns.Prelude.Bytes.{Bytes, Map, insert, bytes_eq, bytes_eq_refl, bytes_eq-eq, bytes_eq_iff}
use redis_dns.Prelude.Int.{ℤ}
use redis_dns.Net.{is_nil}
use redis_dns.Dns.{Msg, DnsLib}
use redis_dns.Proto.{Request, Response, Update, Json, IsFaithful}
use redis_dns.Redisx.{cache_key}
use redis_dns.Client.Local.{Local, local_get}
use redis_dns.Client.Local.Freshness.{AllEntries, local_get-Looks}
use redis_dns.Client.Pending.{Waits, register, unregister, dispatch, sent, accept, answered}
use redis_dns.Client.Pending.Routing.{dispatch_cases}
use redis_dns.Client.Pending.Waiting.{accept-answered}
use redis_dns.Client.Streams.{warm}
use redis_dns.Server.Handle.{publish, respond}
use redis_dns.Bridge.{Bridge}
use redis_dns.Bridge.Origin.{Genuine, Cached-Genuine, IsOwn}
use redis_dns.Bridge.Invariant.{
  Extends, insert-Extends, found_in, IsGenuine, IsAsked, IsSound, Holds, IsOwn-grow, IsSound-grow,
  local_set-Holds,
}

module _ (lib : DnsLib) (Gives : Bytes → ℕ → Msg → Type 0) (requests : Json Request)
    (responses : Json Response) (updates : Json Update) (asks : IsFaithful requests)
    (law : IsFaithful responses) (law' : IsFaithful updates) (local_ttl : ℤ) where
  open lib use {unpack}

  abbrev pub Good : Bridge → Type 0
  Good = IsGenuine lib Gives requests responses updates asks law law' local_ttl

  abbrev pub Waiting : Map (Bytes × ℕ) → Waits → Type 0
  Waiting opened waits =
      (id : Bytes) (r : Response)
      → waits id ≡ some (some r)
      → (r.id ≡ id) × IsOwn lib Gives opened r

  -- A request that was just marshalled is the one that was opened.
  IsAsked-now :
      (o : Map (Bytes × ℕ)) (id name : Bytes) (qtype : ℕ)
      → IsAsked lib Gives requests responses updates asks law law' local_ttl
          (insert id (name, qtype) o)
          (requests.marshal (record { id = id; name = name; qtype = qtype }))
  IsAsked-now o id name qtype req e =
      let sent : Request = record { id = id; name = name; qtype = qtype } in
      let read : some sent ≡ some req = sym (asks.reads_back sent) ∙ e in
      let same : sent ≡ req = cc in
      subst (λ (r : Request). insert id (name, qtype) o r.id ≡ some (r.name, r.qtype)) same
        (rw (bytes_eq_refl id))

  register-Waiting :
      (o o' : Map (Bytes × ℕ)) (waits : Waits) (id : Bytes)
      → Extends o o'
      → Waiting o waits
      → Waiting o' (register id waits)
  unfolding register
  register-Waiting o o' waits id grow h j r e = elim (Bool-cases (bytes_eq j id)) [
    | inl same ↦ absurd (ground arith)
    | inr other ↦
        let (a, own) = h j r (ground arith) in
        (a, IsOwn-grow lib Gives requests responses updates asks law law' local_ttl o o' r grow own)
  ]

  pub unregister-Waiting :
      (o : Map (Bytes × ℕ)) (waits : Waits) (id : Bytes)
      → Waiting o waits
      → Waiting o (unregister id waits)
  unfolding unregister
  unregister-Waiting o waits id h j r e = h j r (ground arith)

  pub dispatch-Waiting :
      (o : Map (Bytes × ℕ)) (waits waits' : Waits) (resp : Response)
      → dispatch resp waits ≡ sent waits'
      → IsOwn lib Gives o resp
      → Waiting o waits
      → Waiting o waits'
  dispatch-Waiting o waits waits' resp e own h = elim (dispatch_cases resp waits) [
    | inl (_, dropped) ↦ absurd (ground arith)
    | inr (inr (old, _, blocked)) ↦ absurd (ground arith)
    | inr (inl (w, _, sends, at, others)) ↦
        let same : w ≡ waits' = ground (arith, sends, e) in
        λ j r k. elim (Bool-cases (bytes_eq j resp.id)) [
          | inl here_is ↦
              let j_is = bytes_eq-eq j resp.id here_is in
              let got : some (some resp) ≡ some (some r) =
                sym at
                ∙ ap (λ (x : Waits). x resp.id) same
                ∙ ap (λ (x : Bytes). waits' x) (sym j_is)
                ∙ k in
              let r_is : resp ≡ r = cc in
              subst (λ (x : Response). (x.id ≡ j) × IsOwn lib Gives o x) r_is (sym j_is, own)
          | inr other ↦ h j r (
              sym (others j (λ x. absurd (ground (arith, bytes_eq_iff j resp.id))))
              ∙ ap (λ (x : Waits). x j) same
              ∙ k)
        ]
  ]

  Asked-grow :
      (o o' : Map (Bytes × ℕ)) (p : Bytes)
      → Extends o o'
      → IsAsked lib Gives requests responses updates asks law law' local_ttl o p
      → IsAsked lib Gives requests responses updates asks law law' local_ttl o' p
  Asked-grow o o' p grow h req e = grow req.id _ (h req e)

  pub ask-Good :
      (s : Bridge) (id name : Bytes) (qtype : ℕ)
      → s.opened id ≡ none
      → Good s
      → Good (record s {
        requested = requests.marshal (record { id = id; name = name; qtype = qtype }) ∷ s.requested;
        waits = register id s.waits;
        opened = insert id (name, qtype) s.opened;
      })
  ask-Good s id name qtype new g =
      let o' = insert id (name, qtype) s.opened in
      let grow = insert-Extends s.opened id (name, qtype) new in
      record {
        asked = (
          IsAsked-now s.opened id name qtype,
          All-map _ _ s.requested (λ p h. Asked-grow s.opened o' p grow h) g.asked,
        );
        sound =
            All-map _ _ s.commands
              (λ c h.
                IsSound-grow lib Gives requests responses updates asks law law' local_ttl s.opened
                  o' c grow h)
              g.sound;
        waiting = register-Waiting s.opened o' s.waits id grow g.waiting;
        held = g.held;
        came = g.came;
        kept = g.kept;
        told = g.told;
      }

  -- The response that a delivered payload stands for is its request's own.
  pub delivered-IsOwn :
      (s : Bridge) (payload : Bytes) (resp : Response)
      → Good s
      → Any (λ c. c ≡ respond payload) s.commands
      → responses.unmarshal payload ≡ some resp
      → IsOwn lib Gives s.opened resp
  delivered-IsOwn s payload resp g m e =
      let (r, read, own) =
        found_in (IsSound lib Gives requests responses updates asks law law' local_ttl s.opened)
          (respond payload) s.commands g.sound m in
      let same : some r ≡ some resp = sym read ∙ e in
      let r_is : r ≡ resp = cc in subst (λ (x : Response). IsOwn lib Gives s.opened x) r_is own

  -- What `resolve` returns for an ID is an answer to what that ID asked.
  pub answered-Genuine :
      (s : Bridge) (id name : Bytes) (qtype : ℕ) (resp r : Response)
      → Good s
      → s.opened id ≡ some (name, qtype)
      → s.waits id ≡ some (some resp)
      → accept resp ≡ answered r
      → Genuine lib Gives name qtype r.wire
  answered-Genuine s id name qtype resp r g at waits e =
      let (is_r, _, full) = accept-answered resp r e in
      let (same_id, own) = g.waiting id resp waits in
      let full' : is_nil resp.wire ≡ false = ap (λ (x : Response). is_nil x.wire) is_r ∙ full in
      let asked : some (resp.name, resp.qtype) ≡ some (name, qtype) =
        sym own.asked ∙ ap (λ (x : Bytes). s.opened x) same_id ∙ at in
      let pair : (resp.name, resp.qtype) ≡ (name, qtype) = cc in
      subst (λ (q : Bytes × ℕ). Genuine lib Gives q.0 q.1 r.wire) pair
        (subst (λ (x : Response). Genuine lib Gives resp.name resp.qtype x.wire) is_r
          (own.genuine full'))

  -- A hit under the key of a name and a type is an answer to these.
  pub hit-Genuine :
      (m m' : Local) (now : ℤ) (name : Bytes) (qtype : ℕ) (wire : Bytes)
      → AllEntries (Holds lib Gives requests responses updates asks law law' local_ttl) m
      → local_get m now (cache_key name qtype) ≡ (m', some wire)
      → Genuine lib Gives name qtype wire
  hit-Genuine m m' now name qtype wire h e = elim (local_get-Looks m now (cache_key name qtype)) [
    | inl (_, miss) ↦ absurd (ground arith)
    | inr (inl (_, _, _, miss)) ↦ absurd (ground arith)
    | inr (inr (entry, at, _, found)) ↦
        let same : entry.wire ≡ wire = ground arith in
        subst (Genuine lib Gives name qtype) same
          (Cached-Genuine lib Gives name qtype entry.wire (h (cache_key name qtype) entry at))
  ]

  pub warm-Holds :
      (s : Bridge) (payload : Bytes) (now : ℤ)
      → Good s
      → Any (λ c. c ≡ publish payload) s.commands
      → AllEntries
          (Holds lib Gives requests responses updates asks law law' local_ttl)
          (warm updates unpack local_ttl s.local now payload)
  warm-Holds s payload now g m =
      let (u, read, own) =
        found_in (IsSound lib Gives requests responses updates asks law law' local_ttl s.opened)
          (publish payload) s.commands g.sound m in
      unfold warm in
      rw (read, warm)
        (elim (Bool-cases (is_nil u.wire)) [
          | inl empty ↦ rw empty g.held
          | inr full ↦ rw full (
              local_set-Holds lib Gives requests responses updates asks law law' local_ttl s.local
                now u.name u.qtype u.wire u.resolved_at g.held own)
        ])
