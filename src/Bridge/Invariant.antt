-- ===== src/Bridge/Invariant.antt =====
-- What holds of the two services and of what lies between them, and how it grows.
use redis_dns.Prelude.{
  none_clash, ℕ, ◌≡◌, refl, sym, ◌∙◌, subst, inl, inr, List, [], ◌∷◌, Option, none, some, arith,
  All, Any, Bool-cases,
}
use redis_dns.Prelude.Bytes.{Bytes, Map, insert, bytes_eq, bytes_eq-eq}
use redis_dns.Prelude.Int.{ℤ}
use redis_dns.Dns.{Msg, DnsLib}
use redis_dns.Proto.{Request, Response, Update, Json, IsFaithful}
use redis_dns.Redisx.{cache_key}
use redis_dns.Client.Local.{Local, LocalEntry, local_set}
use redis_dns.Client.Local.Freshness.{AllEntries, insert-AllEntries, local_set_either, written}
use redis_dns.Server.Handle
use redis_dns.Server.Handle.{Command, store, publish, respond}
use redis_dns.Bridge.{Bridge, Reply, Returned, IsHonest}
use redis_dns.Bridge.Origin.{Genuine, Cached, IsOwn, Sound, IsSupplied}

-- What was opened stays opened.
abbrev pub Extends : Map (Bytes × ℕ) → Map (Bytes × ℕ) → Type 0
Extends o o' = (id : Bytes) (q : Bytes × ℕ) → o id ≡ some q → o' id ≡ some q

pub insert-Extends :
    (o : Map (Bytes × ℕ)) (id : Bytes) (q : Bytes × ℕ) → o id ≡ none → Extends o (insert id q o)
insert-Extends o id q fresh j r h = elim (Bool-cases (bytes_eq j id)) [
  | inl same ↦
      let at : o id ≡ some r = subst (λ x. o x ≡ some r) (bytes_eq-eq j id same) h in
      absurd (none_clash (sym fresh ∙ at))
  | inr other ↦ ground arith
]

pub found_in :
    {A : Type 0} (P : A → Type 0) (x : A) (xs : List A) → All P xs → Any (λ y. y ≡ x) xs → P x
found_in P x [] h m = elim m [ ]
found_in P x (y ∷ ys) h (inl e) = subst P e h.0
found_in P x (y ∷ ys) h (inr m) = found_in P x ys h.1 m

module _ (lib : DnsLib) (Gives : Bytes → ℕ → Msg → Type 0) (requests : Json Request)
    (responses : Json Response) (updates : Json Update) (asks : IsFaithful requests)
    (law : IsFaithful responses) (law' : IsFaithful updates) (local_ttl : ℤ) where
  open lib use {unpack}

  abbrev pub IsAsked : Map (Bytes × ℕ) → Bytes → Type 0
  IsAsked opened p =
      (req : Request) → requests.unmarshal p ≡ some req → opened req.id ≡ some (req.name, req.qtype)

  abbrev pub IsSound : Map (Bytes × ℕ) → Command → Type 0
  IsSound = Sound lib Gives requests responses updates law law'

  abbrev pub Holds : Bytes → LocalEntry → Type 0
  Holds k e = Cached lib Gives k e.wire

  -- All that is on the way, kept or told is genuine.
  pub record IsGenuine (s : Bridge) : Type 0 where
    pub asked : All (IsAsked s.opened) s.requested
    pub sound : All (IsSound s.opened) s.commands
    pub waiting :
        (id : Bytes) (r : Response)
        → s.waits id ≡ some (some r)
        → (r.id ≡ id) × IsOwn lib Gives s.opened r
    pub held : AllEntries Holds s.local
    pub came : All (λ (a : Returned). Genuine lib Gives a.name a.qtype a.response.wire) s.returned
    pub kept : All (λ (a : Returned). Genuine lib Gives a.name a.qtype a.response.wire) s.stored
    pub told : All (λ (r : Reply). Genuine lib Gives r.name r.qtype r.wire) s.replies

  pub IsOwn-grow :
      (o o' : Map (Bytes × ℕ)) (r : Response)
      → Extends o o'
      → IsOwn lib Gives o r
      → IsOwn lib Gives o' r
  IsOwn-grow o o' r grow h = record { asked = grow r.id _ h.asked; genuine = h.genuine }

  pub IsSound-grow :
      (o o' : Map (Bytes × ℕ)) (c : Command) → Extends o o' → IsSound o c → IsSound o' c
  IsSound-grow o o' (store key wire life) grow h = h
  IsSound-grow o o' (publish p) grow h = h
  IsSound-grow o o' (respond p) grow (r, read, own) = (r, read, IsOwn-grow o o' r grow own)
  IsSound-grow o o' (Handle.ack id) grow h = h

  -- A read of the Redis cache is an answer to its key.
  stored_before :
      (o : Map (Bytes × ℕ)) (key wire : Bytes) (cs : List Command)
      → All (IsSound o) cs
      → Any (λ c. (life : ℤ) × (c ≡ store key wire life)) cs
      → Cached lib Gives key wire
  stored_before o key wire [] h m = elim m [ ]
  stored_before o key wire (c ∷ cs) h (inl (life, e)) = subst (IsSound o) e h.0
  stored_before o key wire (c ∷ cs) h (inr m) = stored_before o key wire cs h.1 m

  pub supplied :
      (s : Bridge) (upstream : Bytes → ℕ → Handle.Resolved) (cached : Bytes → Option Bytes)
      → IsGenuine s
      → IsHonest lib requests responses updates local_ttl Gives s upstream cached
      → IsSupplied lib Gives requests responses updates law law' upstream cached
  supplied s upstream cached g h = record {
    resolves = h.resolves;
    holds = λ key wire e. stored_before s.opened key wire s.commands g.sound (h.holds key wire e);
  }

  -- A write of a genuine answer keeps the local cache genuine.
  pub local_set-Holds :
      (m : Local) (now : ℤ) (name : Bytes) (qtype : ℕ) (wire : Bytes) (v : ℤ)
      → AllEntries Holds m
      → Genuine lib Gives name qtype wire
      → AllEntries Holds (local_set unpack local_ttl m now (cache_key name qtype) wire v)
  local_set-Holds m now name qtype wire v h g =
      elim (local_set_either unpack local_ttl m now (cache_key name qtype) wire v) [
        | inl kept ↦ subst (AllEntries Holds) (sym kept) h
        | inr put ↦ subst (AllEntries Holds) (sym put) (
            insert-AllEntries Holds (cache_key name qtype) (written unpack local_ttl now wire v) m
              (name, qtype, refl, g) h)
      ]
