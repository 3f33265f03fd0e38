-- ===== src/Resolver/Pref/Storage/Reuse.antt =====
-- internal/resolver/pref.go over Redis: what a stored outcome does to the next resolution, and what
-- a bump does that comes after the entry has gone.
use redis_dns.Prelude.{
  none_clash, ℕ, ◌≡◌, refl, sym, ap, ◌∙◌, inl, inr, true, false, List, [], none, some, arith,
  if◌then◌else◌, All,
}
use redis_dns.Prelude.Bytes.{Bytes, bytes_eq}
use redis_dns.Prelude.Int.{ℤ, pos, nonpos, ◌≤ℤ◌, ◌<ℤ◌, ◌-ℤ◌, IsInt64}
use redis_dns.Net.{Ip, is_nil}
use redis_dns.Dns.{Msg}
use redis_dns.Resolver.Records.{ip_in, narrow}
use redis_dns.Resolver.Pref
use redis_dns.Resolver.Pref.{PrefEntry, PrefState, found, pref_key, apply_pref}
use redis_dns.Resolver.Pref.Redis.{
  RedisHashes, IpText, store_pref, bump_pref, redis_pref_backend, rounded, IsStorable, unix,
  from_unix,
}
use redis_dns.Resolver.Pref.Reuse.{apply_pref-Reuses, clash}
use redis_dns.Resolver.Pref.Storage.{IsHashStore, Op, op_key, ghost}
use redis_dns.Resolver.Pref.Storage.Refinement.{
  steps, steps_other, untouched-Stands, load-Stands, stored-Stands, bumped-Stands,
}

module _ (text : IpText)
    (named : (ip : Ip) → is_nil ip ≡ false → is_nil (text.ip_string ip) ≡ false) {S : Type 0}
    (redis : RedisHashes S) (expire : S → Bytes → S) (laws : IsHashStore redis expire)
    (zero_time : ℤ) (type_string : ℕ → Bytes) where
  ghost_loads :
      (s : S) (key : Bytes)
      → redis.hgetall s key ≡ some []
      → (redis_pref_backend text redis zero_time).load_pref
          (bump_pref text redis zero_time s key)
          key
        ≡ found (ghost zero_time)
  unfolding redis_pref_backend
  ghost_loads s key gone =
      load-Stands text named redis expire laws zero_time (bump_pref text redis zero_time s key) key
        (some (ghost zero_time))
        (bumped-Stands text named redis expire laws zero_time s key none
          (λ e h. absurd (none_clash h)) gone)

  -- A bump that comes after the entry has gone leaves an entry with which every later resolution
  -- of the name ends with the upstream's message and no race, whatever the clock and the settings.
  -- Redis keeps its documented laws.
  pub lapsed_bump_stops_racing :
      (s : S) (name : Bytes) (qtype : ℕ)
      → redis.hgetall s (pref_key type_string name qtype) ≡ some []
      → (p : PrefState) (now : ℤ) (msg : Msg) (ips : List Ip)
      → let s' = bump_pref text redis zero_time s (pref_key type_string name qtype) in
        apply_pref
          (redis_pref_backend text redis zero_time)
          type_string
          (some p)
          s'
          now
          msg
          qtype
          name
          ips
        ≡ (some msg, s')
  lapsed_bump_stops_racing s name qtype gone p now msg ips =
      let key = pref_key type_string name qtype in
      let s' = bump_pref text redis zero_time s key in
      elim (apply_pref-Reuses (redis_pref_backend text redis zero_time) type_string p s' now msg
        qtype name ips (ghost zero_time) (ghost_loads s key gone)) [
          | inl (_, done) ↦ done
          | inr (inl (fresh, _)) ↦ absurd (clash refl fresh.positive)
          | inr (inr (_, full, _)) ↦ absurd (clash refl full)
        ]

  abbrev entry : Ip → Bytes → ℕ → ℤ → PrefEntry
  entry winner via rtt now = record {
    ip = winner;
    via = via;
    rtt = pos rtt;
    hits = pos 1;
    updated = now;
  }

  winner_loads :
      (p : PrefState) (s : S) (now : ℤ) (name : Bytes) (qtype : ℕ) (winner : Ip) (via : Bytes)
      (rtt : ℕ) (os : List Op)
      → IsStorable (entry winner via rtt now)
      → is_nil winner ≡ false
      → pos 0 <ℤ p.ttl
      → let b = redis_pref_backend text redis zero_time in
        let key = pref_key type_string name qtype in
        All (λ o. bytes_eq key (op_key o) ≡ false) os
        → b.load_pref
            (steps text named redis expire laws zero_time
              (Pref.store_pref b type_string (some p) s now name qtype winner via rtt)
              os)
            key
          ≡ found (rounded text (entry winner via rtt now))
  unfolding redis_pref_backend Pref.store_pref
  winner_loads p s now name qtype winner via rtt os fits full lives others =
      let key = pref_key type_string name qtype in
      let ttl = (if is_nil winner then p.neg_ttl else p.ttl) in
      let e = entry winner via rtt now in
      let s' = store_pref text redis zero_time s key e ttl in
      let t = steps text named redis expire laws zero_time s' os in
      let positive : nonpos ttl ≡ false = rw full (ground arith) in
      load-Stands text named redis expire laws zero_time t key (some (rounded text e)) (
        untouched-Stands text named redis expire laws zero_time s' t key (some (rounded text e))
          (steps_other text named redis expire laws zero_time s' key os others)
          (stored-Stands text named redis expire laws zero_time s key e ttl fits positive))

  -- The next resolution after a race takes the winner from Redis with no race, as the address that
  -- its text parses to, if there is one and the answer has it, more than one hit is allowed, the
  -- entry is young enough by the second in which it was stored, and the numbers fit in 64 bits.
  -- The entry is still there: its lifetime is positive and has not ended, and it has not been
  -- bumped or stored again, whatever was done to other entries. Redis keeps its documented laws,
  -- and the text of an address is not empty.
  pub redis_remembers_winner :
      (p : PrefState) (s : S) (now later : ℤ) (msg : Msg) (qtype : ℕ) (name via : Bytes) (rtt : ℕ)
      (winner back : Ip) (ips : List Ip) (os : List Op)
      → is_nil winner ≡ false
      → text.parse_ip (text.ip_string winner) ≡ back
      → is_nil back ≡ false
      → pos 1 <ℤ p.recheck_hits
      → later -ℤ from_unix (unix now) ≤ℤ p.recheck_age
      → ip_in ips back ≡ true
      → IsInt64 (pos rtt)
      → IsInt64 now
      → pos 0 <ℤ p.ttl
      → All (λ o. bytes_eq (pref_key type_string name qtype) (op_key o) ≡ false) os
      → let b = redis_pref_backend text redis zero_time in
        let s' =
          steps text named redis expire laws zero_time
            (Pref.store_pref b type_string (some p) s now name qtype winner via rtt)
            os in
        apply_pref b type_string (some p) s' later msg qtype name ips
        ≡ (some (narrow msg qtype back), b.bump_pref s' (pref_key type_string name qtype))
  redis_remembers_winner p s now later msg qtype name via rtt winner back ips os full parsed
        some_back few young listed rtt_fits now_fits lives others =
      let b = redis_pref_backend text redis zero_time in
      let key = pref_key type_string name qtype in
      let e = entry winner via rtt now in
      let s' =
        steps text named redis expire laws zero_time
          (Pref.store_pref b type_string (some p) s now name qtype winner via rtt) os in
      let fits : IsStorable e = record {
        rtt_fits = rtt_fits;
        hits_fits = record { upper = omega arith; lower = omega arith };
        updated_fits = now_fits;
      } in
      let at = winner_loads p s now name qtype winner via rtt os fits full lives others in
      let same : (rounded text e).ip ≡ back = rw (full, parsed) in
      elim (apply_pref-Reuses b type_string p s' later msg qtype name ips (rounded text e) at) [
        | inl (empty, _) ↦ absurd (clash (sym (ap is_nil same) ∙ empty) some_back)
        | inr (inl (_, done)) ↦
            done ∙ ap (λ (w : Ip). (some (narrow msg qtype w), b.bump_pref s' key)) same
        | inr (inr (stale, _, _)) ↦ absurd (
            stale (record {
              positive = ap is_nil same ∙ some_back;
              few_hits = few;
              young = young;
              present = ap (ip_in ips) same ∙ listed;
            }))
      ]
