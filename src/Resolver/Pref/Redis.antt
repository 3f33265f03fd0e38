-- ===== src/Resolver/Pref/Redis.antt =====
-- internal/resolver/pref_redis.go: preferred-IP entries as Redis hashes. Redis and the texts of
-- addresses (`IP.String` and `net.ParseIP`) are parameters.
use redis_dns.Prelude.{
  ℕ, ◌/◌, ◌≡◌, refl, List, [], ◌∷◌, Option, none, some, arith, if◌then◌else◌, false,
}
use redis_dns.Prelude.Bytes.{Bytes, ascii, bytes_eq}
use redis_dns.Prelude.Decimal.{format_int, parse_int, parse_int-format_int}
use redis_dns.Prelude.Int.{ℤ, pos, negsuc, quot, ◌*64◌, ◌*ℤ◌, IsInt64}
use redis_dns.Net.{Ip, is_nil}
use redis_dns.Resolver.Pref.{PrefEntry, PrefBackend, Loaded, failed, absent, found}

-- The fields of a hash, as `HGetAll` returns them and `HSet` takes them.
abbrev pub Fields : Type 0
Fields = List (Bytes × Bytes)

-- `vals[k]`, which is empty for a missing field.
unfoldable pub field : Bytes → Fields → Bytes
field k [] = []
field k ((j, v) ∷ fs) = if bytes_eq j k then v else field k fs

-- The Redis commands in use: `none` is an error, and `hset_expire` is the pipeline of HSET and
-- EXPIRE.
pub record RedisHashes (S : Type 0) : Type 0 where
  pub hgetall : S → Bytes → Option Fields
  pub hset_expire : S → Bytes → Fields → ℤ → S
  pub hincrby : S → Bytes → Bytes → ℕ → S

pub record IpText : Type 0 where
  pub ip_string : Ip → Bytes
  pub parse_ip : Bytes → Ip

-- `Time.Unix`, which rounds down, and `time.Unix(v, 0)`.
abbrev pub unix : ℤ → ℤ
unix (pos n) = pos (n / 1000000000)
unix (negsuc n) = negsuc (n / 1000000000)

abbrev pub from_unix : ℤ → ℤ
from_unix v = v *ℤ 1000000000

module _ (text : IpText) where
  open text use {ip_string, parse_ip}

  -- The fields that `StorePref` writes.
  unfoldable pub entry_fields : PrefEntry → Fields
  entry_fields e =
      (ascii "ip", if is_nil e.ip then [] else ip_string e.ip)
      ∷ (ascii "via", e.via)
      ∷ (ascii "rtt_us", format_int (quot e.rtt 1000))
      ∷ (ascii "hits", format_int e.hits)
      ∷ (ascii "updated", format_int (unix e.updated))
      ∷ []

  -- The entry that `LoadPref` reads off the fields. A number that does not parse is left zero,
  -- and the time then is Go's zero time.
  unfoldable pub read_entry : ℤ → Fields → PrefEntry
  read_entry zero_time vals =
      let s = field (ascii "ip") vals in
      record {
        ip = if is_nil s then [] else parse_ip s;
        via = field (ascii "via") vals;
        rtt = elim (parse_int (field (ascii "rtt_us") vals)) [ some v ↦ v *64 1000 | none ↦ pos 0 ];
        hits = elim (parse_int (field (ascii "hits") vals)) [ some v ↦ v | none ↦ pos 0 ];
        updated = elim (parse_int (field (ascii "updated") vals)) [
          | some v ↦ from_unix v
          | none ↦ zero_time
        ];
      }

  module _ {S : Type 0} (redis : RedisHashes S) (zero_time : ℤ) where
    unfoldable pub load_pref : S → Bytes → Loaded
    load_pref s key = elim (redis.hgetall s key) [
      | none ↦ failed
      | some vals ↦ elim vals [ [] ↦ absent | f ∷ fs ↦ found (read_entry zero_time (f ∷ fs)) ]
    ]

    unfoldable pub store_pref : S → Bytes → PrefEntry → ℤ → S
    store_pref s key e ttl = redis.hset_expire s key (entry_fields e) ttl

    unfoldable pub bump_pref : S → Bytes → S
    bump_pref s key = redis.hincrby s key (ascii "hits") 1

    -- `NewRedisPrefBackend`
    unfoldable pub redis_pref_backend : PrefBackend S
    redis_pref_backend = record {
      load_pref = load_pref;
      store_pref = store_pref;
      bump_pref = bump_pref;
    }

-- What comes back of an entry: the round trip in whole microseconds, the time in whole seconds,
-- and the address that its text parses to.
abbrev pub rounded : IpText → PrefEntry → PrefEntry
rounded text e = record e {
  ip = if is_nil e.ip then [] else text.parse_ip (text.ip_string e.ip);
  rtt = quot e.rtt 1000 *64 1000;
  updated = from_unix (unix e.updated);
}

-- An entry whose numbers fit in 64 bits.
pub record IsStorable (e : PrefEntry) : Type 0 where
  pub rtt_fits : IsInt64 e.rtt
  pub hits_fits : IsInt64 e.hits
  pub updated_fits : IsInt64 e.updated

quot-IsInt64 : (a : ℤ) → IsInt64 a → IsInt64 (quot a 1000)
quot-IsInt64 (pos n) h = ground (arith, h.upper)
quot-IsInt64 (negsuc n) h = ground (arith, h.lower)

unix-IsInt64 : (a : ℤ) → IsInt64 a → IsInt64 (unix a)
unix-IsInt64 (pos n) h = ground (arith, h.upper)
unix-IsInt64 (negsuc n) h = ground (arith, h.lower)

module _ (text : IpText)
    (named : (ip : Ip) → is_nil ip ≡ false → is_nil (text.ip_string ip) ≡ false) where
  read-ip :
      (ip : Ip)
      → (let s = (if is_nil ip then [] else text.ip_string ip) in
          if is_nil s then [] else text.parse_ip s)
        ≡ (if is_nil ip then [] else text.parse_ip (text.ip_string ip))
  read-ip [] = refl
  read-ip (c ∷ ip) = rw (named (c ∷ ip) refl)

  -- The fields that are written for an entry read back as that entry, with its times rounded, its
  -- hits and its way of winning exact, and a nil address as a nil address.
  pub read_entry-entry_fields :
      (zero_time : ℤ) (e : PrefEntry)
      → IsStorable e
      → read_entry text zero_time (entry_fields text e) ≡ rounded text e
  unfolding read_entry entry_fields field bytes_eq
  read_entry-entry_fields zero_time e h = rw (
    parse_int-format_int (quot e.rtt 1000) (quot-IsInt64 e.rtt h.rtt_fits),
    parse_int-format_int e.hits h.hits_fits,
    parse_int-format_int (unix e.updated) (unix-IsInt64 e.updated h.updated_fits),
    read-ip e.ip,
  )
