-- ===== src/Resolver/Pref/Storage/Refinement.antt =====
-- internal/resolver/pref_redis.go: Redis hashes implement the abstract storage.
use redis_dns.Prelude.{
  ◌≡◌, refl, sym, ap, subst, ◌∙◌, inl, inr, true, false, List, [], ◌∷◌, Option, none, some, arith,
  Bool-cases, All,
}
use redis_dns.Prelude.Bytes.{
  Bytes, Map, empty, insert, erase, ascii, bytes_eq, bytes_eq_refl, bytes_eq-eq,
}
use redis_dns.Prelude.Decimal.{format_int, parse_int, parse_int-format_int}
use redis_dns.Prelude.Int.{ℤ, pos, nonpos, ◌+ℤ◌, IsInt64}
use redis_dns.Net.{Ip, is_nil}
use redis_dns.Resolver.Pref.{PrefEntry}
use redis_dns.Resolver.Pref.Redis.{
  Fields, field, RedisHashes, IpText, entry_fields, read_entry, load_pref, store_pref, bump_pref,
  rounded, IsStorable, read_entry-entry_fields,
}
use redis_dns.Resolver.Pref.Storage.{
  IsHashStore, Op, op_key, store, bump, lapse, bumped, spec_step, spec, Fits, AllFit, loaded,
}
use redis_dns.Resolver.Pref.Storage.Written.{
  read_entry-eq, one_fits, ghost_hits, ghost_read, other, entry_fields-Writes, fields_given,
  hits_written,
}

module _ (text : IpText)
    (named : (ip : Ip) → is_nil ip ≡ false → is_nil (text.ip_string ip) ≡ false) {S : Type 0}
    (redis : RedisHashes S) (expire : S → Bytes → S) (laws : IsHashStore redis expire)
    (zero_time : ℤ) where
  -- What Redis holds for a key stands for what the abstract storage holds for it.
  abbrev pub Stands : S → Bytes → Option PrefEntry → Type 0
  Stands s key none = redis.hgetall s key ≡ some []
  Stands s key (some e) =
      (g : Bytes × Bytes) × (gs : Fields) × (redis.hgetall s key ≡ some (g ∷ gs))
      × (read_entry text zero_time (g ∷ gs) ≡ e)
      × (field (ascii "hits") (g ∷ gs) ≡ format_int e.hits)
      × IsInt64 e.hits

  abbrev pub Represents : S → Map PrefEntry → Type 0
  Represents s m = (key : Bytes) → Stands s key (m key)

  -- The operations on Redis.
  abbrev pub step : S → Op → S
  step s (store key e ttl) = store_pref text redis zero_time s key e ttl
  step s (bump key) = bump_pref text redis zero_time s key
  step s (lapse key) = expire s key

  abbrev pub steps : S → List Op → S
  steps s [] = s
  steps s (o ∷ os) = steps (step s o) os

  pub stored-Stands :
      (s : S) (key : Bytes) (e : PrefEntry) (ttl : ℤ)
      → IsStorable e
      → nonpos ttl ≡ false
      → Stands (store_pref text redis zero_time s key e ttl) key (some (rounded text e))
  unfolding store_pref
  stored-Stands s key e ttl h lives =
      let (g, gs, at, same) =
        laws.hset_reads s key (entry_fields text e) ttl (fields_given text e) lives in
      let listed = entry_fields-Writes text e in
      let plain : field (ascii "hits") (g ∷ gs) ≡ format_int e.hits =
        same _ listed.hits ∙ hits_written text e in
      let numbers : parse_int (field (ascii "hits") (g ∷ gs)) ≡ some e.hits =
        ap parse_int plain ∙ parse_int-format_int e.hits h.hits_fits in
      (
        g,
        gs,
        at,
        read_entry-eq text zero_time (g ∷ gs) (entry_fields text e) e.hits (same _ listed.ip)
              (same _ listed.via) (same _ listed.rtt) numbers (same _ listed.updated)
            ∙ ap (λ (x : PrefEntry). record x { hits = e.hits })
                (read_entry-entry_fields text named zero_time e h),
        plain,
        h.hits_fits,
      )

  pub load-Stands :
      (s : S) (key : Bytes) (o : Option PrefEntry)
      → Stands s key o
      → load_pref text redis zero_time s key ≡ loaded o
  unfolding load_pref
  load-Stands s key none h = ground (arith, h)
  load-Stands s key (some e) (g, gs, h, k, _, _) = ground (arith, h, k)

  pub untouched-Stands :
      (s s' : S) (key : Bytes) (o : Option PrefEntry)
      → redis.hgetall s' key ≡ redis.hgetall s key
      → Stands s key o
      → Stands s' key o
  untouched-Stands s s' key none same h = same ∙ h
  untouched-Stands s s' key (some e) same (g, gs, at, k, l, f) = (g, gs, same ∙ at, k, l, f)

  pub bumped-Stands :
      (s : S) (key : Bytes) (o : Option PrefEntry)
      → ((e : PrefEntry) → o ≡ some e → IsInt64 (e.hits +ℤ pos 1))
      → Stands s key o
      → Stands (bump_pref text redis zero_time s key) key (some (bumped zero_time o))
  unfolding bump_pref
  bumped-Stands s key none fits gone = (
    _,
    [],
    laws.hincrby_creates s key (ascii "hits") 1 gone,
    ghost_read text zero_time,
    ghost_hits,
    one_fits,
  )
  bumped-Stands s key (some e) fits (g, gs, at, reads, hits, old_fits) =
      let (g', gs', at', now, same) =
        laws.hincrby_reads s key (ascii "hits") 1 (g ∷ gs) e.hits at hits old_fits (fits e refl) in
      let numbers : parse_int (field (ascii "hits") (g' ∷ gs')) ≡ some (e.hits +ℤ pos 1) =
        ap parse_int now ∙ parse_int-format_int (e.hits +ℤ pos 1) (fits e refl) in
      (
        g',
        gs',
        at',
        read_entry-eq text zero_time (g' ∷ gs') (g ∷ gs) (e.hits +ℤ pos 1) (same _ other.ip)
              (same _ other.via) (same _ other.rtt) numbers (same _ other.updated)
            ∙ ap (λ (x : PrefEntry). record x { hits = e.hits +ℤ pos 1 }) reads,
        now,
        fits e refl,
      )

  -- At one key after an operation on another, or on this one.
  at_key : (P : Bytes → Type 0) (key j : Bytes) → P key → (bytes_eq j key ≡ false → P j) → P j
  at_key P key j h k = elim (Bool-cases (bytes_eq j key)) [
    | inl e ↦ subst P (sym (bytes_eq-eq j key e)) h
    | inr e ↦ k e
  ]

  dropped :
      (s : S) (key : Bytes) (e : PrefEntry) (ttl : ℤ)
      → nonpos ttl ≡ true
      → redis.hgetall (store_pref text redis zero_time s key e ttl) key ≡ some []
  unfolding store_pref
  dropped s key e ttl over = laws.hset_drops s key (entry_fields text e) ttl over

  store_other :
      (s : S) (key j : Bytes) (e : PrefEntry) (ttl : ℤ)
      → bytes_eq j key ≡ false
      → redis.hgetall (store_pref text redis zero_time s key e ttl) j ≡ redis.hgetall s j
  unfolding store_pref
  store_other s key j e ttl h = laws.hset_other s key j (entry_fields text e) ttl h

  bump_other :
      (s : S) (key j : Bytes)
      → bytes_eq j key ≡ false
      → redis.hgetall (bump_pref text redis zero_time s key) j ≡ redis.hgetall s j
  unfolding bump_pref
  bump_other s key j h = laws.hincrby_other s key j (ascii "hits") 1 h

  step_other :
      (s : S) (j : Bytes) (o : Op)
      → bytes_eq j (op_key o) ≡ false
      → redis.hgetall (step s o) j ≡ redis.hgetall s j
  step_other s j (store key e ttl) h = store_other s key j e ttl h
  step_other s j (bump key) h = bump_other s key j h
  step_other s j (lapse key) h = laws.expire_other s key j h

  -- Whatever happens to other keys.
  pub steps_other :
      (s : S) (j : Bytes) (os : List Op)
      → All (λ o. bytes_eq j (op_key o) ≡ false) os
      → redis.hgetall (steps s os) j ≡ redis.hgetall s j
  steps_other s j [] h = refl
  steps_other s j (o ∷ os) h = steps_other (step s o) j os h.1 ∙ step_other s j o h.0

  step-Represents :
      (s : S) (m : Map PrefEntry) (o : Op)
      → Fits m o
      → Represents s m
      → Represents (step s o) (spec_step text zero_time m o)
  step-Represents s m (store key e ttl) fits rep j =
      let s' = store_pref text redis zero_time s key e ttl in
      let kept : bytes_eq j key ≡ false → Stands s' j (m j) =
        λ h. untouched-Stands s s' j (m j) (store_other s key j e ttl h) (rep j) in
      elim (Bool-cases (nonpos ttl)) [
        | inl over ↦ rw over (
            at_key (λ k. Stands s' k (erase key m k)) key j
              (rw (bytes_eq_refl key) (dropped s key e ttl over)) (λ h. (rw h (kept h))))
        | inr lives ↦ rw lives (
            at_key (λ k. Stands s' k (insert key (rounded text e) m k)) key j
              (rw (bytes_eq_refl key) (stored-Stands s key e ttl fits lives))
              (λ h. (rw h (kept h))))
      ]
  step-Represents s m (bump key) fits rep j =
      let s' = bump_pref text redis zero_time s key in
      at_key (λ k. Stands s' k (insert key (bumped zero_time (m key)) m k)) key j
        (rw (bytes_eq_refl key) (bumped-Stands s key (m key) fits (rep key)))
        (λ h. (rw h (untouched-Stands s s' j (m j) (bump_other s key j h) (rep j))))
  step-Represents s m (lapse key) fits rep j =
      at_key (λ k. Stands (expire s key) k (erase key m k)) key j
        (rw (bytes_eq_refl key) (laws.expire_removes s key))
        (λ h.
          (rw h (untouched-Stands s (expire s key) j (m j) (laws.expire_other s key j h) (rep j))))

  steps-Represents :
      (s : S) (m : Map PrefEntry) (os : List Op)
      → AllFit text zero_time m os
      → Represents s m
      → Represents (steps s os) (spec text zero_time m os)
  steps-Represents s m [] fits rep = rep
  steps-Represents s m (o ∷ os) (fits, later) rep =
      steps-Represents (step s o) (spec_step text zero_time m o) os later
        (step-Represents s m o fits rep)

  -- Whatever the resolver stores and bumps and whichever lifetimes end, what `LoadPref` returns is
  -- what a map of entries holds after the same operations, where a stored entry is rounded to
  -- microseconds and seconds, or removed if its lifetime is not positive, and a bump of a key that
  -- is gone makes an entry with no address and one hit. Redis starts empty and keeps its documented laws, the text of an address is not
  -- empty, and the numbers fit in 64 bits.
  pub load_pref-spec :
      (s : S)
      → ((key : Bytes) → redis.hgetall s key ≡ some [])
      → (os : List Op) → AllFit text zero_time empty os
      → (key : Bytes)
      → load_pref text redis zero_time (steps s os) key ≡ loaded (spec text zero_time empty os key)
  load_pref-spec s fresh os fits key =
      load-Stands (steps s os) key (spec text zero_time empty os key)
        (steps-Represents s empty os fits fresh key)
