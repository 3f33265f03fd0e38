-- ===== src/Resolver/Pref/Reuse.antt =====
-- internal/resolver/pref.go: a remembered race outcome is reused, for as long as it may be.
use redis_dns.Prelude.{
  ℕ, ◌≡◌, ◌⊎◌, inl, inr, Bool, true, false, List, [], Option, none, some, arith, subst, Bool-cases,
}
use redis_dns.Prelude.Bytes.{Bytes}
use redis_dns.Prelude.Int.{ℤ, pos, ◌≤ℤ◌, ◌<ℤ◌, ◌-ℤ◌}
use redis_dns.Net.{Ip, is_nil}
use redis_dns.Dns.{Msg}
use redis_dns.Resolver.Records.{ip_in, narrow}
use redis_dns.Resolver.Pref.{
  PrefState, PrefEntry, PrefBackend, found, is_due, apply_entry, apply_pref, pref_key, store_pref,
}

-- An entry that may be reused at `now` for the addresses `ips`.
pub record IsFresh (p : PrefState) (now : ℤ) (ips : List Ip) (e : PrefEntry) : Type 0 where
  pub positive : is_nil e.ip ≡ false
  pub few_hits : e.hits <ℤ p.recheck_hits
  pub young : now -ℤ e.updated ≤ℤ p.recheck_age
  pub present : ip_in ips e.ip ≡ true

not_due :
    (p : PrefState) (e : PrefEntry) (now : ℤ)
    → e.hits <ℤ p.recheck_hits
    → now -ℤ e.updated ≤ℤ p.recheck_age
    → is_due p e now ≡ false
not_due p e now h k = ground arith

due_false :
    (p : PrefState) (e : PrefEntry) (now : ℤ)
    → is_due p e now ≡ false
    → (e.hits <ℤ p.recheck_hits) × (now -ℤ e.updated ≤ℤ p.recheck_age)
due_false p e now h = (ground arith, ground arith)

pub clash : {t : Bool} → t ≡ true → t ≡ false → ⊥
clash h k = cc

module _ {S : Type 0} (b : PrefBackend S) (type_string : ℕ → Bytes) where
  -- What `applyPref` can do with an entry, and with the storage.
  abbrev pub Reuses :
      PrefState → S → ℤ → Msg → ℕ → Bytes → List Ip → PrefEntry → Option Msg × S → Type 0
  Reuses p s now msg qtype key ips e r =
      ((is_nil e.ip ≡ true) × (r ≡ (some msg, s)))
      ⊎ (IsFresh p now ips e × (r ≡ (some (narrow msg qtype e.ip), b.bump_pref s key)))
      ⊎ ((¬ IsFresh p now ips e) × (is_nil e.ip ≡ false) × (r ≡ (none, s)))

  entry-Reuses :
      (p : PrefState) (s : S) (now : ℤ) (msg : Msg) (qtype : ℕ) (key : Bytes) (ips : List Ip)
      (e : PrefEntry)
      → Reuses p s now msg qtype key ips e (apply_entry b type_string p s now msg qtype key ips e)
  unfolding apply_entry
  entry-Reuses p s now msg qtype key ips e = elim (Bool-cases (is_nil e.ip)) [
    | inl empty ↦ inl (empty, rw empty)
    | inr full ↦ inr (elim (Bool-cases (is_due p e now)) [
      | inl due ↦ inr (
        λ (f : IsFresh p now ips e). clash due (not_due p e now f.few_hits f.young),
        full,
        rw (full, due),
      )
      | inr fresh ↦ elim (Bool-cases (ip_in ips e.ip)) [
        | inl listed ↦
            let (few, young) = due_false p e now fresh in
            inl (
              record { positive = full; few_hits = few; young = young; present = listed },
              rw (full, fresh, listed),
            )
        | inr gone ↦
            inr (λ (f : IsFresh p now ips e). clash f.present gone, full, rw (full, fresh, gone))
      ]
    ])
  ]

  -- With an entry in the storage, `applyPref` ends the resolution with the upstream's message for
  -- a negative entry; with the message narrowed to the entry's address, and the hit counted, for
  -- one that is fresh (below the hits and the age for a new race, its address still in the
  -- answer); and it asks for a new race, with the storage as it was, for any other.
  pub apply_pref-Reuses :
      (p : PrefState) (s : S) (now : ℤ) (msg : Msg) (qtype : ℕ) (name : Bytes) (ips : List Ip)
      (e : PrefEntry)
      → b.load_pref s (pref_key type_string name qtype) ≡ found e
      → Reuses p s now msg qtype
          (pref_key type_string name qtype)
          ips
          e
          (apply_pref b type_string (some p) s now msg qtype name ips)
  apply_pref-Reuses p s now msg qtype name ips e at =
      let key = pref_key type_string name qtype in
      let same : apply_entry b type_string p s now msg qtype key ips e
          ≡ apply_pref b type_string (some p) s now msg qtype name ips =
        unfold apply_pref in ground (arith, at) in
      subst (Reuses p s now msg qtype key ips e) same (entry-Reuses p s now msg qtype key ips e)

  -- A storage that gives back what was stored.
  abbrev pub Remembers : Type 0
  Remembers =
      (s : S) (key : Bytes) (e : PrefEntry) (ttl : ℤ)
      → b.load_pref (b.store_pref s key e ttl) key ≡ found e

  -- The next resolution after a race takes the winner with no race, if the storage remembers it,
  -- more than one hit is allowed, the entry is young enough and the answer still has the address.
  remembered_winner :
      Remembers
      → (p : PrefState) (s : S) (now later : ℤ) (msg : Msg) (qtype : ℕ) (name via : Bytes) (rtt : ℕ)
        (winner : Ip) (ips : List Ip)
      → is_nil winner ≡ false
      → pos 1 <ℤ p.recheck_hits
      → later -ℤ now ≤ℤ p.recheck_age
      → ip_in ips winner ≡ true
      → let s' = store_pref b type_string (some p) s now name qtype winner via rtt in
        apply_pref b type_string (some p) s' later msg qtype name ips
        ≡ (some (narrow msg qtype winner), b.bump_pref s' (pref_key type_string name qtype))
  remembered_winner law p s now later msg qtype name via rtt winner ips full few young listed =
      let key = pref_key type_string name qtype in
      let e : PrefEntry = record {
        ip = winner;
        via = via;
        rtt = pos rtt;
        hits = pos 1;
        updated = now;
      } in
      let s' = store_pref b type_string (some p) s now name qtype winner via rtt in
      let at : b.load_pref s' key ≡ found e = unfold store_pref in law s key e _ in
      elim (apply_pref-Reuses p s' later msg qtype name ips e at) [
        | inl (empty, _) ↦ absurd (clash empty full)
        | inr (inl (_, done)) ↦ done
        | inr (inr (stale, _, _)) ↦
            absurd
              (stale (record { positive = full; few_hits = few; young = young; present = listed }))
      ]

  -- After a race that nobody finished, the next resolution keeps the upstream's message with no
  -- race, however old the entry is, if the storage remembers it.
  remembered_failure :
      Remembers
      → (p : PrefState) (s : S) (now later : ℤ) (msg : Msg) (qtype : ℕ) (name : Bytes)
        (ips : List Ip)
      → let s' = store_pref b type_string (some p) s now name qtype [] [] 0 in
        apply_pref b type_string (some p) s' later msg qtype name ips ≡ (some msg, s')
  remembered_failure law p s now later msg qtype name ips =
      let key = pref_key type_string name qtype in
      let e : PrefEntry = record { ip = []; via = []; rtt = pos 0; hits = pos 1; updated = now } in
      let s' = store_pref b type_string (some p) s now name qtype [] [] 0 in
      let at : b.load_pref s' key ≡ found e = unfold store_pref in law s key e _ in
      elim (apply_pref-Reuses p s' later msg qtype name ips e at) [
        | inl (_, done) ↦ done
        | inr (inl (fresh, _)) ↦ absurd (cc fresh.positive)
        | inr (inr (_, full, _)) ↦ absurd (cc full)
      ]
