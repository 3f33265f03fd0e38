-- ===== src/Bridge/Origin.antt =====
-- Where what the server sends comes from: each wire is a packed answer of the upstream side to the
-- very name and type that it is stored, pushed or sent for.
use redis_dns.Prelude.{
  ℕ, ◌≡◌, refl, sym, subst, inl, inr, false, List, [], ◌∷◌, ◌++◌, Option, some, arith, All,
  All-append,
}
use redis_dns.Prelude.Bytes.{Bytes, Map}
use redis_dns.Net.{is_nil}
use redis_dns.Dns.{Msg, DnsLib}
use redis_dns.Proto.{Request, Response, Update, Json, IsFaithful}
use redis_dns.Redisx.{cache_key, cache_key_inj}
use redis_dns.Server.{Server}
use redis_dns.Server.Handle
use redis_dns.Server.Handle.{
  Command, store, publish, respond, ack, cache, announce, answer_request, usable,
}
use redis_dns.Server.Handle.Answering.{
  Answered, from_cache, with_error, fresh, answer_request-Answered,
}
use redis_dns.Server.Handle.Responding.{cache_sends}

usable-some : (o : Option Bytes) (w : Bytes) → usable o ≡ some w → o ≡ some w
usable-some o w h = ground arith

module _ (lib : DnsLib) (Gives : Bytes → ℕ → Msg → Type 0) where
  open lib use {pack}

  -- The wire is a packed answer to the name and the type.
  abbrev pub Genuine : Bytes → ℕ → Bytes → Type 0
  Genuine name qtype wire = (m : Msg) × Gives name qtype m × (pack m ≡ some wire)

  abbrev pub Cached : Bytes → Bytes → Type 0
  Cached key wire =
      (name : Bytes) × (qtype : ℕ) × (key ≡ cache_key name qtype) × Genuine name qtype wire

  -- What is under the key of a name and a type is an answer to these.
  pub Cached-Genuine :
      (name : Bytes) (qtype : ℕ) (wire : Bytes)
      → Cached (cache_key name qtype) wire
      → Genuine name qtype wire
  Cached-Genuine name qtype wire (name', qtype', same, g) =
      let (n, t) = cache_key_inj name name' qtype qtype' same in
      subst (λ x. Genuine x qtype wire) (sym n) (subst (λ x. Genuine name' x wire) (sym t) g)

  -- A response is for the request that has its ID, and brings an answer or nothing.
  pub record IsOwn (opened : Map (Bytes × ℕ)) (r : Response) : Type 0 where
    pub asked : opened r.id ≡ some (r.name, r.qtype)
    pub genuine : is_nil r.wire ≡ false → Genuine r.name r.qtype r.wire

  module _ (requests : Json Request) (responses : Json Response) (updates : Json Update)
      (law : IsFaithful responses) (law' : IsFaithful updates) where
    abbrev pub Sound : Map (Bytes × ℕ) → Command → Type 0
    Sound opened (store key wire life) = Cached key wire
    Sound opened (publish p) =
        (u : Update) × (updates.unmarshal p ≡ some u) × Genuine u.name u.qtype u.wire
    Sound opened (respond p) = (r : Response) × (responses.unmarshal p ≡ some r) × IsOwn opened r
    Sound opened (ack id) = Unit

    cache-Sound :
        (opened : Map (Bytes × ℕ)) (s : Server) (name : Bytes) (qtype : ℕ) (wire : Bytes) (m : Msg)
        → Genuine name qtype wire
        → All (Sound opened) (cache s name qtype wire m).1
    cache-Sound opened s name qtype wire m g = elim (cache_sends s name qtype wire m) [
      | inl e ↦ rw e tt
      | inr e ↦ rw e ((name, qtype, refl, g), tt)
    ]

    -- The commands for an answer that the upstream side has just given.
    pub announced-Sound :
        (opened : Map (Bytes × ℕ)) (s : Server) (u : Update) (m : Msg) (rest : List Command)
        → Genuine u.name u.qtype u.wire
        → All (Sound opened) rest
        → All
            (Sound opened)
            ((cache s u.name u.qtype u.wire m).1 ++ publish (updates.marshal u) ∷ rest)
    announced-Sound opened s u m rest g h =
        All-append _ (cache s u.name u.qtype u.wire m).1 _
          (cache-Sound opened s u.name u.qtype u.wire m g) ((u, law'.reads_back u, g), h)

    responded-Sound :
        (opened : Map (Bytes × ℕ)) (r : Response)
        → IsOwn opened r
        → All (Sound opened) (respond (responses.marshal r) ∷ [])
    responded-Sound opened r h = ((r, law.reads_back r, h), tt)

    -- What the server may rely on: what it gets from the upstream side is allowed, and what it gets
    -- from the Redis cache is an answer to the key's name and type.
    pub record IsSupplied (upstream : Bytes → ℕ → Handle.Resolved) (cached : Bytes → Option Bytes)
        : Type 0 where
      pub resolves :
          (name : Bytes) (qtype : ℕ) (m : Msg)
          → upstream name qtype ≡ Handle.answered m
          → Gives name qtype m
      pub holds : (key wire : Bytes) → cached key ≡ some wire → Cached key wire

    Answered-Sound :
        (opened : Map (Bytes × ℕ)) (s : Server) (scene : Handle.Scene) (req : Request)
        (sent : List Command)
        → IsSupplied scene.upstream scene.cached
        → opened req.id ≡ some (req.name, req.qtype)
        → Answered lib requests responses updates s scene req sent
        → All (Sound opened) sent
    Answered-Sound opened s scene req sent h own (from_cache wire found e) =
        subst (All (Sound opened)) (sym e) (
          responded-Sound opened _ (record {
            asked = own;
            genuine = λ full.
                Cached-Genuine req.name req.qtype wire (h.holds _ wire (usable-some _ wire found));
          }))
    Answered-Sound opened s scene req sent h own (with_error err miss why e) =
        subst (All (Sound opened)) (sym e)
          (responded-Sound opened _ (record { asked = own; genuine = λ full. absurd (cc full) }))
    Answered-Sound opened s scene req sent h own (fresh m wire miss up good e) =
        let g : Genuine req.name req.qtype wire = (m, h.resolves req.name req.qtype m up, good) in
        subst (All (Sound opened)) (sym e) (
          announced-Sound opened s
            (record {
              name = req.name;
              qtype = req.qtype;
              rcode = m.rcode;
              resolved_at = scene.now;
              wire = wire;
            })
            m _ g (responded-Sound opened _ (record { asked = own; genuine = λ full. g })))

    -- A request that was asked for gets no answer but its own.
    pub answer_request-Sound :
        (opened : Map (Bytes × ℕ)) (s : Server) (scene : Handle.Scene) (req : Request)
        → IsSupplied scene.upstream scene.cached
        → opened req.id ≡ some (req.name, req.qtype)
        → All (Sound opened) (answer_request lib requests responses updates s scene req)
    answer_request-Sound opened s scene req h own =
        Answered-Sound opened s scene req _ h own
          (answer_request-Answered lib requests responses updates s scene req)
