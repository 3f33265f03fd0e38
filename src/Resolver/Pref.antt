-- ===== src/Resolver/Pref.antt =====
-- internal/resolver/pref.go: the preferred-IP cache. Times are in nanoseconds.
pub mod Reuse
pub mod Redis
pub mod Storage
use redis_dns.Prelude.{
  ℕ, Bool, true, false, not, ◌||◌, List, ◌++◌, Option, none, some, if◌then◌else◌,
}
use redis_dns.Prelude.Bytes.{Bytes, ascii}
use redis_dns.Prelude.Int.{ℤ, pos, ltb_ℤ, leb_ℤ, nonpos, ◌-ℤ◌}
use redis_dns.Net.{Ip, is_nil}
use redis_dns.Dns.{Msg}
use redis_dns.Resolver.Records.{ip_in, narrow}

pub record PrefEntry : Type 0 where
  pub ip : Ip
  pub via : Bytes
  pub rtt : ℤ
  pub hits : ℤ
  pub updated : ℤ

-- What `LoadPref` returns: an error, a nil entry, or an entry.
pub data Loaded : Type 0 where
  failed : Loaded
  absent : Loaded
  found : PrefEntry → Loaded

-- `PrefBackend`, over the states `S` of the storage. The callers drop the errors of the writes.
pub record PrefBackend (S : Type 0) : Type 0 where
  pub load_pref : S → Bytes → Loaded
  pub store_pref : S → Bytes → PrefEntry → ℤ → S
  pub bump_pref : S → Bytes → S

-- `prefState`, beside its backend.
pub record PrefState : Type 0 where
  pub ttl : ℤ
  pub neg_ttl : ℤ
  pub recheck_hits : ℤ
  pub recheck_age : ℤ

abbrev pub minute : ℕ
minute = 60000000000

abbrev pub hour : ℕ
hour = 3600000000000

-- `EnablePref`: the tuning, with the defaults for what is not positive.
unfoldable pub enable_pref : ℤ → ℤ → ℤ → ℤ → PrefState
enable_pref ttl neg_ttl recheck_hits recheck_age = record {
  ttl = if nonpos ttl then pos 86400000000000 else ttl;
  neg_ttl = if nonpos neg_ttl then pos 600000000000 else neg_ttl;
  recheck_hits = if nonpos recheck_hits then pos 100 else recheck_hits;
  recheck_age = if nonpos recheck_age then pos 21600000000000 else recheck_age;
}

-- `type_string` is the DNS library's `Type.String`.
unfoldable pub pref_key : (ℕ → Bytes) → Bytes → ℕ → Bytes
pref_key type_string name qtype = ascii "dns:pref:" ++ (name ++ (ascii ":" ++ type_string qtype))

-- `e.Hits >= recheckHits || time.Since(e.Updated) > recheckAge`
abbrev pub is_due : PrefState → PrefEntry → ℤ → Bool
is_due p e now = leb_ℤ p.recheck_hits e.hits || ltb_ℤ p.recheck_age (now -ℤ e.updated)

module _ {S : Type 0} (b : PrefBackend S) (type_string : ℕ → Bytes) where
  open b use {load_pref, store_pref as backend_store, bump_pref}

  -- `applyPref` with the cache on, for an entry that was found.
  unfoldable pub apply_entry :
      PrefState → S → ℤ → Msg → ℕ → Bytes → List Ip → PrefEntry → Option Msg × S
  apply_entry p s now msg qtype key ips e =
      if is_nil e.ip
      then (some msg, s)
      else if is_due p e now
      then (none, s)
      else if not (ip_in ips e.ip)
      then (none, s)
      else (some (narrow msg qtype e.ip), bump_pref s key)

  -- `none` stands for `done == false`.
  unfoldable pub apply_pref : Option PrefState → S → ℤ → Msg → ℕ → Bytes → List Ip → Option Msg × S
  apply_pref none s now msg qtype name ips = (none, s)
  apply_pref (some p) s now msg qtype name ips =
      let key = pref_key type_string name qtype in
      elim (load_pref s key) [
        | failed ↦ (none, s)
        | absent ↦ (none, s)
        | found e ↦ apply_entry p s now msg qtype key ips e
      ]

  unfoldable pub store_pref : Option PrefState → S → ℤ → Bytes → ℕ → Ip → Bytes → ℕ → S
  store_pref none s now name qtype ip via rtt = s
  store_pref (some p) s now name qtype ip via rtt =
      backend_store s (pref_key type_string name qtype)
        (record { ip = ip; via = via; rtt = pos rtt; hits = pos 1; updated = now })
        (if is_nil ip then p.neg_ttl else p.ttl)
