-- ===== src/Server/Handle/Caching.antt =====
-- internal/server/server.go: how long `cache` keeps an answer.
use redis_dns.Prelude.{
  ℕ, ◌*◌, ◌≤◌, ◌<◌, ◌≡◌, ◌≢◌, sym, ◌∙◌, ◌⊎◌, inl, inr, List, [], ◌∷◌, ◌++◌, arith, All, Any,
  Bool-cases,
}
use redis_dns.Prelude.Bytes.{Bytes}
use redis_dns.Prelude.Int.{ℤ, pos, ◌≤ℤ◌, ◌<ℤ◌, nonpos}
use redis_dns.Dns.{Msg, rcode_name_error}
use redis_dns.Redisx.{cache_key}
use redis_dns.Resolver.Ttl.{min_ttl}
use redis_dns.Resolver.Ttl.Laws.{answer_ttls, ns_ttls, min_ttl-IsLeastPositive}
use redis_dns.Server.{Server}
use redis_dns.Server.Handle.{Command, store, second, cache_ceiling, cache_life, cache}

-- The lifetime is positive, within the ceiling, and within the least TTL if there is one; it is
-- one of the two.
record IsLife (ceiling : ℤ) (min : ℕ) (life : ℤ) : Type 0 where
  positive : pos 0 <ℤ life
  within_ceiling : life ≤ℤ ceiling
  within_records : 0 < min → life ≤ℤ pos (min * second)
  reached : (life ≡ ceiling) ⊎ (life ≡ pos (min * second))

cache_life-IsLife :
    (ceiling : ℤ) (min : ℕ) → pos 0 <ℤ ceiling → IsLife ceiling min (cache_life ceiling min)
unfolding cache_life
cache_life-IsLife ceiling min h = record {
  positive = ground arith;
  within_ceiling = ground arith;
  within_records = ground arith;
  reached = ground arith;
}

-- A record's TTL outlasts what the least TTL of the message allows.
within_each :
    (k : ℕ) (xs : List ℕ) (life : ℤ)
    → All (λ x. (x ≡ 0) ⊎ ((0 < k) × (k ≤ x))) xs
    → (0 < k → life ≤ℤ pos (k * second))
    → All (λ x. (x ≡ 0) ⊎ (life ≤ℤ pos (x * second))) xs
within_each k [] life h f = tt
within_each k (x ∷ xs) life (inl z, h) f = (inl z, within_each k xs life h f)
within_each k (x ∷ xs) life (inr (p, le), h) f =
    (inr (omega (arith, f p)), within_each k xs life h f)

-- The ceiling for a message: the negative one for a name that does not exist.
abbrev pub HasCeiling : Server → Msg → ℤ → Type 0
HasCeiling s answer c =
    ((answer.rcode ≡ rcode_name_error) × (c ≡ s.neg_ttl))
    ⊎ ((answer.rcode ≢ rcode_name_error) × (c ≡ s.cache_ttl))

ceiling-HasCeiling : (s : Server) (answer : Msg) → HasCeiling s answer (cache_ceiling s answer)
unfolding cache_ceiling
ceiling-HasCeiling s answer = ground arith

-- What `cache` promises of the ceiling and of what it returns.
pub record IsCached (s : Server) (name : Bytes) (qtype : ℕ) (wire : Bytes) (answer : Msg)
    (ceiling : ℤ) (result : ℤ × List Command) : Type 0 where
  pub ceiling_by_rcode : HasCeiling s answer ceiling
  pub positive : pos 0 <ℤ ceiling
  pub sent : result.1 ≡ store (cache_key name qtype) wire result.0 ∷ []
  pub life_positive : pos 0 <ℤ result.0
  pub within_ceiling : result.0 ≤ℤ ceiling
  pub within_records :
      All
        (λ x. (x ≡ 0) ⊎ (result.0 ≤ℤ pos (x * second)))
        (answer_ttls answer.answer ++ ns_ttls answer.ns)

-- With a ceiling that is not positive nothing is cached. Otherwise the wire is stored under the
-- key of its query, for a positive time within the ceiling (the negative one for NXDOMAIN) and
-- within every TTL of the answer and the authority section that is not 0.
pub cache-IsCached :
    (s : Server) (name : Bytes) (qtype : ℕ) (wire : Bytes) (answer : Msg)
    → (HasCeiling s answer (cache_ceiling s answer)
        × (cache_ceiling s answer ≤ℤ pos 0)
        × (cache s name qtype wire answer ≡ (pos 0, [])))
      ⊎ IsCached s name qtype wire answer (cache_ceiling s answer) (cache s name qtype wire answer)
cache-IsCached s name qtype wire answer =
    let ceiling = cache_ceiling s answer in
    elim (Bool-cases (nonpos ceiling)) [
      | inl off ↦ inl (ceiling-HasCeiling s answer, ground arith, unfold cache cache_life in rw off)
      | inr on ↦
          let life = cache_life-IsLife ceiling (min_ttl answer) (ground arith) in
          inr (record {
            ceiling_by_rcode = ceiling-HasCeiling s answer;
            positive = ground arith;
            sent = unfold cache in rw on;
            life_positive = unfold cache in life.positive;
            within_ceiling = unfold cache in life.within_ceiling;
            within_records =
                unfold cache in
                within_each (min_ttl answer) _ _ (min_ttl-IsLeastPositive answer).least
                  life.within_records;
          })
    ]

zero_of_All : (k : ℕ) (xs : List ℕ) → All (λ x. x ≡ 0) xs → (k ≡ 0) ⊎ Any (λ x. x ≡ k) xs → k ≡ 0
zero_of_All k xs h (inl z) = z
zero_of_All k [] h (inr m) = elim m [ ]
zero_of_All k (x ∷ xs) h (inr (inl e)) = sym e ∙ h.0
zero_of_All k (x ∷ xs) h (inr (inr m)) = zero_of_All k xs h.1 (inr m)

-- An answer whose answer and authority records all have the TTL 0 (also the minimum of an SOA), which
-- says that it is not to be kept, is kept for the whole ceiling, if that is positive.
pub zero_ttl_is_cached :
    (s : Server) (name : Bytes) (qtype : ℕ) (wire : Bytes) (answer : Msg)
    → All (λ x. x ≡ 0) (answer_ttls answer.answer ++ ns_ttls answer.ns)
    → pos 0 <ℤ cache_ceiling s answer
    → cache s name qtype wire answer
      ≡ (cache_ceiling s answer, store (cache_key name qtype) wire (cache_ceiling s answer) ∷ [])
zero_ttl_is_cached s name qtype wire answer zeros on =
    let none = zero_of_All (min_ttl answer) _ zeros (min_ttl-IsLeastPositive answer).attained in
    unfold cache cache_life in ground (arith, none)
