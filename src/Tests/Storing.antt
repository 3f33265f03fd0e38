-- ===== src/Tests/Storing.antt =====
-- Redis hashes as association lists, and preferred addresses in them.
use redis_dns.Prelude.{
  ℕ, ◌≡◌, ◌≢◌, ◌<◌, refl, ap, ◌∙◌, Bool, true, false, List, [], ◌∷◌, ◌++◌, Option, none, some,
  arith, Bool-cases, none_clash, inl, inr, sym, subst, All, if◌then◌else◌,
}
use redis_dns.Prelude.Bytes.{Bytes, ascii, bytes_eq, bytes_eq_refl, bytes_eq-eq, empty, insert}
use redis_dns.Prelude.Decimal.{format_int, parse_int, parse_int-format_int}
use redis_dns.Prelude.Int.{ℤ, pos, nonpos, ◌+ℤ◌, ◌-ℤ◌, ◌≤ℤ◌, ◌<ℤ◌, IsInt64}
use redis_dns.Net.{ip_equal}
use redis_dns.Resolver.Records.{ip_in, narrow}
use redis_dns.Resolver.Pref
use redis_dns.Resolver.Pref.{PrefEntry, PrefState, enable_pref, apply_pref, pref_key}
use redis_dns.Resolver.Pref.Redis.{
  Fields, field, RedisHashes, IpText, load_pref, bump_pref, redis_pref_backend, IsStorable, rounded,
  unix, from_unix,
}
use redis_dns.Resolver.Pref.Storage.{
  IsHashStore, Op, op_key, store, bump, lapse, spec, has_field, loaded,
}
use redis_dns.Resolver.Pref.Storage.Refinement.{steps, load_pref-spec}
use redis_dns.Resolver.Pref.Storage.Reuse.{redis_remembers_winner, lapsed_bump_stops_racing}
use redis_dns.Tests.Samples.{ip1, ip2, name, two_ips}

abbrev Hashes : Type 0
Hashes = Bytes → Fields

abbrev put : Bytes → Fields → Hashes → Hashes
put k v s j = if bytes_eq j k then v else s j

abbrev plus : Option ℤ → ℕ → ℤ
plus none n = pos n
plus (some old) n = old +ℤ pos n

-- What a lifetime leaves of a hash.
abbrev lasting : ℤ → Fields → Fields
lasting ttl fs = if nonpos ttl then [] else fs

abbrev redis : RedisHashes Hashes
redis = record {
  hgetall = λ s key. some (s key);
  hset_expire = λ s key fs ttl. put key (lasting ttl (fs ++ s key)) s;
  hincrby = λ s key k n. put key ((k, format_int (plus (parse_int (field k (s key))) n)) ∷ s key) s;
}

abbrev expire : Hashes → Bytes → Hashes
expire s key = put key [] s

field-append :
    (k : Bytes) (fs old : Fields) → has_field k fs ≡ true → field k (fs ++ old) ≡ field k fs
unfolding field
field-append k [] old h = ground arith
field-append k ((j, v) ∷ fs) old h = elim (Bool-cases (bytes_eq j k)) [
  | inl same ↦ rw same refl
  | inr other ↦ rw other (field-append k fs old (ground (arith, h)))
]

clash : {t : Bool} → t ≡ true → t ≡ false → ⊥
clash h k = cc

nothing : (k : Bytes) → parse_int (field k []) ≡ none
unfolding field parse_int
nothing k = refl

swap_false : (j k : Bytes) → bytes_eq j k ≡ false → bytes_eq k j ≡ false
swap_false j k h = elim (Bool-cases (bytes_eq k j)) [
  | inl same ↦ absurd (clash (rw (bytes_eq-eq k j same) (bytes_eq_refl j)) h)
  | inr other ↦ other
]

given :
    (s : Hashes) (key : Bytes) (fs : Fields) (ttl : ℤ)
    → fs ≢ []
    → nonpos ttl ≡ false
    → (g : Bytes × Bytes) × (gs : Fields) × (redis.hgetall (redis.hset_expire s key fs ttl) key
        ≡ some (g ∷ gs))
      × ((k : Bytes) → has_field k fs ≡ true → field k (g ∷ gs) ≡ field k fs)
given s key [] ttl some_given lives = absurd (some_given refl)
given s key (f ∷ fs) ttl some_given lives = (
  f,
  fs ++ s key,
  rw (bytes_eq_refl key) (rw lives refl),
  λ k h. field-append k (f ∷ fs) (s key) h,
)

counted :
    (k : Bytes) (n : ℕ) (vals : Fields) (old : ℤ)
    → parse_int (field k vals) ≡ some old
    → let v = format_int (plus (parse_int (field k vals)) n) in
      (field k ((k, v) ∷ vals) ≡ format_int (old +ℤ pos n))
      × ((j : Bytes) → bytes_eq j k ≡ false → field j ((k, v) ∷ vals) ≡ field j vals)
unfolding field
counted k n vals old num =
    (rw (bytes_eq_refl k) (rw num refl), λ j other. (rw (swap_false j k other) refl))

redis-IsHashStore : IsHashStore redis expire
redis-IsHashStore = record {
  hset_reads = λ s key fs ttl some_given lives. given s key fs ttl some_given lives;
  hset_drops = λ s key fs ttl over. (rw (bytes_eq_refl key) (rw over refl));
  hincrby_reads = λ s key k n vals old at plain old_fits fits.
      let same : vals ≡ s key = cc in
      let num = ap parse_int plain ∙ parse_int-format_int old old_fits in
      let v = format_int (plus (parse_int (field k (s key))) n) in
      let (sum, others) =
        counted k n (s key) old (ap (λ (x : Fields). parse_int (field k x)) (sym same) ∙ num) in
      (
        (k, v),
        s key,
        rw (bytes_eq_refl key) refl,
        sum,
        λ j other. others j other ∙ ap (field j) (sym same),
      );
  hincrby_creates = λ s key k n at.
      let none_there : s key ≡ [] = cc in
      rw (bytes_eq_refl key) (rw none_there (rw (nothing k) refl));
  expire_removes = λ s key. (rw (bytes_eq_refl key) refl);
  hset_other = λ s key other fs ttl h. (rw h refl);
  hincrby_other = λ s key other k n h. (rw h refl);
  expire_other = λ s key other h. (rw h refl);
}

abbrev text : IpText
text = record { ip_string = λ ip. ip; parse_ip = λ s. s }

abbrev fresh : Hashes
fresh key = []

abbrev entry : PrefEntry
entry = record { ip = ip2; via = ascii "tcp/443"; rtt = pos 30000; hits = pos 1; updated = pos 7 }

small : (n : ℕ) → n < 1000000 → IsInt64 (pos n)
small n h = record { upper = omega arith; lower = omega arith }

abbrev key_a : Bytes
key_a = ascii "a"

abbrev history : List Op
history = store key_a entry (pos 5) ∷ bump key_a ∷ lapse key_a ∷ bump key_a ∷ []

entry_fits : IsStorable entry
entry_fits = record {
  rtt_fits = small 30000 (omega arith);
  hits_fits = small 1 (omega arith);
  updated_fits = small 7 (omega arith);
}

abbrev hits_of : Option PrefEntry → ℤ
hits_of none = pos 0
hits_of (some e) = e.hits

second_hit :
    (e : PrefEntry)
    → insert key_a (rounded text entry) empty key_a ≡ some e
    → IsInt64 (e.hits +ℤ pos 1)
unfolding bytes_eq
second_hit e h = subst (λ a. IsInt64 (a +ℤ pos 1)) (ap hits_of h) (small 2 (omega arith))

gone_hit :
    (e : PrefEntry)
    → spec text (pos 0) empty (store key_a entry (pos 5) ∷ bump key_a ∷ lapse key_a ∷ []) key_a
      ≡ some e
    → IsInt64 (e.hits +ℤ pos 1)
unfolding bytes_eq
gone_hit e h = absurd (none_clash h)

load_pref-spec_example :
    load_pref text redis
      (pos 0)
      (steps text (λ ip h. h) redis expire redis-IsHashStore (pos 0) fresh history)
      key_a
    ≡ loaded (spec text (pos 0) empty history key_a)
load_pref-spec_example =
    load_pref-spec text (λ ip h. h) redis expire redis-IsHashStore (pos 0) fresh (λ key. refl)
      history (entry_fits, (second_hit, (tt, (gone_hit, tt)))) key_a

-- The next resolution.
abbrev pref : PrefState
pref = enable_pref (pos 0) (pos 0) (pos 0) (pos 0)

abbrev type_string : ℕ → Bytes
type_string t = ascii "A"

few : pos 1 <ℤ pref.recheck_hits
unfolding enable_pref
few = omega arith

young : pos 9 -ℤ from_unix (unix (pos 7)) ≤ℤ pref.recheck_age
unfolding enable_pref
young = omega arith

listed : ip_in (ip1 ∷ ip2 ∷ []) ip2 ≡ true
unfolding ip_in ip_equal bytes_eq
listed = refl

abbrev backend : Pref.PrefBackend Hashes
backend = redis_pref_backend text redis (pos 0)

abbrev remembered : Hashes
remembered =
    Pref.store_pref backend type_string (some pref) fresh (pos 7) name 1 ip2 (ascii "tcp/443") 30000

-- Meanwhile another entry is stored, bumped and gone.
abbrev meanwhile : List Op
meanwhile = store key_a entry (pos 5) ∷ bump key_a ∷ lapse key_a ∷ []

elsewhere : All (λ o. bytes_eq (pref_key type_string name 1) (op_key o) ≡ false) meanwhile
unfolding pref_key bytes_eq
elsewhere = (refl, (refl, (refl, tt)))

lives : pos 0 <ℤ pref.ttl
unfolding enable_pref
lives = omega arith

abbrev later : Hashes
later = steps text (λ ip h. h) redis expire redis-IsHashStore (pos 0) remembered meanwhile

redis_remembers_winner_example :
    apply_pref backend type_string (some pref) later (pos 9) two_ips 1 name (ip1 ∷ ip2 ∷ [])
    ≡ (some (narrow two_ips 1 ip2), backend.bump_pref later (pref_key type_string name 1))
redis_remembers_winner_example =
    redis_remembers_winner text (λ ip h. h) redis expire redis-IsHashStore (pos 0) type_string pref
      fresh (pos 7) (pos 9) two_ips 1 name (ascii "tcp/443") 30000 ip2 ip2 (ip1 ∷ ip2 ∷ [])
      meanwhile refl refl refl few young listed (small 30000 (omega arith)) (small 7 (omega arith))
      lives elsewhere

abbrev bumped_late : Hashes
bumped_late = bump_pref text redis (pos 0) fresh (pref_key type_string name 1)

lapsed_bump_stops_racing_example :
    apply_pref backend type_string (some pref) bumped_late (pos 9) two_ips 1 name (ip1 ∷ ip2 ∷ [])
    ≡ (some two_ips, bumped_late)
lapsed_bump_stops_racing_example =
    lapsed_bump_stops_racing text (λ ip h. h) redis expire redis-IsHashStore (pos 0) type_string
      fresh name 1 refl pref (pos 9) two_ips (ip1 ∷ ip2 ∷ [])
