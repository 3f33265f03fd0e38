-- ===== src/Resolver/Pref/Storage.antt =====
-- internal/resolver/pref_redis.go against an abstract storage, which is a map of entries. What Redis
-- documents of its hashes is a record of laws; that a lifetime ends is an operation there.
pub mod Written
pub mod Refinement
pub mod Reuse
use redis_dns.Prelude.{
  ℕ, ◌≡◌, ◌≢◌, refl, sym, ap, subst, ◌∙◌, ◌⊎◌, inl, inr, Bool, true, false, List, [], ◌∷◌, Option,
  none, some, arith, if◌then◌else◌, Bool-cases, Option-cases,
}
use redis_dns.Prelude.Bytes.{
  Bytes, Map, empty, insert, erase, ascii, bytes_eq, bytes_eq_refl, bytes_eq-eq,
}
use redis_dns.Prelude.Decimal.{format_int, parse_int, parse_int-format_int}
use redis_dns.Prelude.Int.{ℤ, pos, nonpos, ◌+ℤ◌, IsInt64}
use redis_dns.Net.{Ip, is_nil}
use redis_dns.Resolver.Pref.{PrefEntry, Loaded, absent, found}
use redis_dns.Resolver.Pref.Redis.{
  Fields, field, RedisHashes, IpText, entry_fields, read_entry, load_pref, store_pref, bump_pref,
  rounded, IsStorable, read_entry-entry_fields,
}

-- Whether a field is listed.
abbrev pub has_field : Bytes → Fields → Bool
has_field k [] = false
has_field k ((j, v) ∷ fs) = if bytes_eq j k then true else has_field k fs

-- What Redis documents, while it answers: HSET sets the fields that it is given, and EXPIRE after it
-- keeps them for a positive lifetime and deletes the key for any other; HINCRBY adds to a number
-- that is written in the plain way and takes a missing key for a hash with no fields; a key whose
-- lifetime ends is gone, and none of them changes another key.
pub record IsHashStore {S : Type 0} (redis : RedisHashes S) (expire : S → Bytes → S) : Type 0 where
  pub hset_reads :
      (s : S) (key : Bytes) (fs : Fields) (ttl : ℤ)
      → fs ≢ []
      → nonpos ttl ≡ false
      → (g : Bytes × Bytes) × (gs : Fields) × (redis.hgetall (redis.hset_expire s key fs ttl) key
          ≡ some (g ∷ gs))
        × ((k : Bytes) → has_field k fs ≡ true → field k (g ∷ gs) ≡ field k fs)
  pub hset_drops :
      (s : S) (key : Bytes) (fs : Fields) (ttl : ℤ)
      → nonpos ttl ≡ true
      → redis.hgetall (redis.hset_expire s key fs ttl) key ≡ some []
  pub hincrby_reads :
      (s : S) (key k : Bytes) (n : ℕ) (vals : Fields) (old : ℤ)
      → redis.hgetall s key ≡ some vals
      → field k vals ≡ format_int old
      → IsInt64 old
      → IsInt64 (old +ℤ pos n)
      → (g : Bytes × Bytes) × (gs : Fields) × (redis.hgetall (redis.hincrby s key k n) key
          ≡ some (g ∷ gs))
        × (field k (g ∷ gs) ≡ format_int (old +ℤ pos n))
        × ((j : Bytes) → bytes_eq j k ≡ false → field j (g ∷ gs) ≡ field j vals)
  pub hincrby_creates :
      (s : S) (key k : Bytes) (n : ℕ)
      → redis.hgetall s key ≡ some []
      → redis.hgetall (redis.hincrby s key k n) key ≡ some ((k, format_int (pos n)) ∷ [])
  pub expire_removes : (s : S) (key : Bytes) → redis.hgetall (expire s key) key ≡ some []
  pub hset_other :
      (s : S) (key other : Bytes) (fs : Fields) (ttl : ℤ)
      → bytes_eq other key ≡ false
      → redis.hgetall (redis.hset_expire s key fs ttl) other ≡ redis.hgetall s other
  pub hincrby_other :
      (s : S) (key other k : Bytes) (n : ℕ)
      → bytes_eq other key ≡ false
      → redis.hgetall (redis.hincrby s key k n) other ≡ redis.hgetall s other
  pub expire_other :
      (s : S) (key other : Bytes)
      → bytes_eq other key ≡ false
      → redis.hgetall (expire s key) other ≡ redis.hgetall s other

-- An operation on the storage, by the resolver or by the end of a lifetime.
pub data Op : Type 0 where
  store : Bytes → PrefEntry → ℤ → Op
  bump : Bytes → Op
  lapse : Bytes → Op

abbrev pub op_key : Op → Bytes
op_key (store key e ttl) = key
op_key (bump key) = key
op_key (lapse key) = key

-- What a bump makes of nothing: an entry with no address, and no time.
abbrev pub ghost : ℤ → PrefEntry
ghost zero_time = record { ip = []; via = []; rtt = pos 0; hits = pos 1; updated = zero_time }

abbrev pub bumped : ℤ → Option PrefEntry → PrefEntry
bumped zero_time none = ghost zero_time
bumped zero_time (some e) = record e { hits = e.hits +ℤ pos 1 }

-- The abstract storage. A lifetime that is not positive is over at once.
abbrev pub spec_step : IpText → ℤ → Map PrefEntry → Op → Map PrefEntry
spec_step text zero_time m (store key e ttl) =
    if nonpos ttl then erase key m else insert key (rounded text e) m
spec_step text zero_time m (bump key) = insert key (bumped zero_time (m key)) m
spec_step text zero_time m (lapse key) = erase key m

abbrev pub spec : IpText → ℤ → Map PrefEntry → List Op → Map PrefEntry
spec text zero_time m [] = m
spec text zero_time m (o ∷ os) = spec text zero_time (spec_step text zero_time m o) os

-- The numbers fit in 64 bits.
abbrev pub Fits : Map PrefEntry → Op → Type 0
Fits m (store key e ttl) = IsStorable e
Fits m (bump key) = (e : PrefEntry) → m key ≡ some e → IsInt64 (e.hits +ℤ pos 1)
Fits m (lapse key) = Unit

abbrev pub AllFit : IpText → ℤ → Map PrefEntry → List Op → Type 0
AllFit text zero_time m [] = Unit
AllFit text zero_time m (o ∷ os) =
    Fits m o × AllFit text zero_time (spec_step text zero_time m o) os

abbrev pub loaded : Option PrefEntry → Loaded
loaded none = absent
loaded (some e) = found e
