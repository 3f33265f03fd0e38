-- ===== src/Resolver/Pref/Storage/Written.antt =====
-- internal/resolver/pref_redis.go: the fields of an entry, those that are written and those that a
-- bump leaves alone.
use redis_dns.Prelude.{◌≡◌, ◌≢◌, refl, true, false, [], ◌∷◌, none, some, arith}
use redis_dns.Prelude.Bytes.{ascii, bytes_eq}
use redis_dns.Prelude.Decimal.{format_int, parse_int, parse_int-format_int}
use redis_dns.Prelude.Int.{ℤ, pos, IsInt64}
use redis_dns.Resolver.Pref.{PrefEntry}
use redis_dns.Resolver.Pref.Redis.{Fields, field, IpText, entry_fields, read_entry}
use redis_dns.Resolver.Pref.Storage.{ghost, has_field}

-- The entry that is read depends on five fields.
pub read_entry-eq :
    (text : IpText) (zero_time : ℤ) (u v : Fields) (hits : ℤ)
    → field (ascii "ip") u ≡ field (ascii "ip") v
    → field (ascii "via") u ≡ field (ascii "via") v
    → field (ascii "rtt_us") u ≡ field (ascii "rtt_us") v
    → parse_int (field (ascii "hits") u) ≡ some hits
    → field (ascii "updated") u ≡ field (ascii "updated") v
    → read_entry text zero_time u ≡ record (read_entry text zero_time v) { hits = hits }
unfolding read_entry
read_entry-eq text zero_time u v hits ip via rtt num updated = rw (ip, via, rtt, num, updated)

abbrev pub ghost_fields : Fields
ghost_fields = (ascii "hits", format_int (pos 1)) ∷ []

pub one_fits : IsInt64 (pos 1)
one_fits = record { upper = omega arith; lower = omega arith }

pub ghost_hits : field (ascii "hits") ghost_fields ≡ format_int (pos 1)
unfolding field bytes_eq
ghost_hits = refl

no_number : parse_int [] ≡ none
unfolding parse_int
no_number = refl

pub ghost_read :
    (text : IpText) (zero_time : ℤ) → read_entry text zero_time ghost_fields ≡ ghost zero_time
unfolding read_entry field bytes_eq
ghost_read text zero_time = rw (no_number, parse_int-format_int (pos 1) one_fits)

-- The fields beside the hits.
pub record AreOther : Type 0 where
  pub ip : bytes_eq (ascii "ip") (ascii "hits") ≡ false
  pub via : bytes_eq (ascii "via") (ascii "hits") ≡ false
  pub rtt : bytes_eq (ascii "rtt_us") (ascii "hits") ≡ false
  pub updated : bytes_eq (ascii "updated") (ascii "hits") ≡ false

pub other : AreOther
unfolding bytes_eq
other = record { ip = refl; via = refl; rtt = refl; updated = refl }

module _ (text : IpText) where
  -- All five fields are written.
  pub record Writes (e : PrefEntry) : Type 0 where
    pub ip : has_field (ascii "ip") (entry_fields text e) ≡ true
    pub via : has_field (ascii "via") (entry_fields text e) ≡ true
    pub rtt : has_field (ascii "rtt_us") (entry_fields text e) ≡ true
    pub hits : has_field (ascii "hits") (entry_fields text e) ≡ true
    pub updated : has_field (ascii "updated") (entry_fields text e) ≡ true

  pub entry_fields-Writes : (e : PrefEntry) → Writes e
  unfolding entry_fields bytes_eq
  entry_fields-Writes e = record { ip = refl; via = refl; rtt = refl; hits = refl; updated = refl }

  pub fields_given : (e : PrefEntry) → entry_fields text e ≢ []
  unfolding entry_fields
  fields_given e = λ h. cc

  pub hits_written :
      (e : PrefEntry) → field (ascii "hits") (entry_fields text e) ≡ format_int e.hits
  unfolding entry_fields field bytes_eq
  hits_written e = refl
