-- ===== src/Client/Local/Versions.antt =====
-- internal/client/client.go: a stale answer never overwrites a fresher one.
use redis_dns.Prelude.{
  ◌≡◌, refl, subst, ◌⊎◌, inl, inr, List, [], ◌∷◌, Option, none, some, arith, All, Bool-cases,
  Option-cases,
}
use redis_dns.Prelude.Bytes.{Bytes, insert, bytes_eq, bytes_eq-eq, bytes_eq_refl}
use redis_dns.Prelude.Int.{ℤ, ltb_ℤ, ◌≤ℤ◌, ◌<ℤ◌}
use redis_dns.Dns.{Msg}
use redis_dns.Client.Local.{Local, LocalEntry, local_set}
use redis_dns.Client.Local.Freshness.{written}

-- The entry under a key is at least as recent as `v`.
abbrev pub Recent : ℤ → Option LocalEntry → Type 0
Recent v none = ⊥
Recent v (some e) = v ≤ℤ e.resolved_at

-- One call of `localSet`.
pub record Write : Type 0 where
  pub at : ℤ
  pub key : Bytes
  pub wire : Bytes
  pub version : ℤ

module _ (unpack : Bytes → Option Msg) (local_ttl : ℤ) where
  -- A write is dropped if the entry that is there is newer; otherwise it takes its place.
  abbrev pub Dropped : Local → ℤ → Bytes → Bytes → ℤ → Type 0
  Dropped m t key wire v =
      (e : LocalEntry) × (m key ≡ some e)
      × (v <ℤ e.resolved_at)
      × (local_set unpack local_ttl m t key wire v ≡ m)

  abbrev pub Taken : Local → ℤ → Bytes → Bytes → ℤ → Type 0
  Taken m t key wire v =
      ((e : LocalEntry) → m key ≡ some e → e.resolved_at ≤ℤ v)
      × (local_set unpack local_ttl m t key wire v
          ≡ insert key (written unpack local_ttl t wire v) m)

  pub local_set_cases :
      (m : Local) (t : ℤ) (key wire : Bytes) (v : ℤ) → Dropped m t key wire v ⊎ Taken m t key wire v
  unfolding local_set
  local_set_cases m t key wire v = elim (Option-cases (m key)) [
    | inl miss ↦ inr (λ e at. absurd (ground arith), rw (miss, local_set))
    | inr (e, hit) ↦ elim (Bool-cases (ltb_ℤ v e.resolved_at)) [
      | inl older ↦ inl (e, hit, ground arith, rw (hit, local_set) (rw older))
      | inr newer ↦ inr (λ e' at. ground arith, rw (hit, local_set) (rw newer))
    ]
  ]

  -- A write leaves its key at least as recent as itself.
  set-Recent :
      (m : Local) (t : ℤ) (key wire : Bytes) (v : ℤ)
      → Recent v (local_set unpack local_ttl m t key wire v key)
  set-Recent m t key wire v = elim (local_set_cases m t key wire v) [
    | inl (e, hit, newer, same) ↦ rw (same, hit) (omega arith)
    | inr (_, put) ↦ rw (put, bytes_eq_refl key) (omega arith)
  ]

  -- No write makes an entry less recent.
  set_keeps-Recent :
      (m : Local) (t : ℤ) (key wire : Bytes) (v : ℤ) (k : Bytes) (u : ℤ)
      → Recent u (m k)
      → Recent u (local_set unpack local_ttl m t key wire v k)
  set_keeps-Recent m t key wire v k u h = elim (local_set_cases m t key wire v) [
    | inl (e, hit, newer, same) ↦ rw same h
    | inr (older, put) ↦ elim (Bool-cases (bytes_eq k key)) [
      | inr other ↦ rw (put, other) h
      | inl here ↦
          rw (put, here)
            (overtakes (m key) (subst (λ x. Recent u (m x)) (bytes_eq-eq k key here) h) older)
    ]
  ]
    where
      overtakes :
          (o : Option LocalEntry)
          → Recent u o
          → ((e : LocalEntry) → o ≡ some e → e.resolved_at ≤ℤ v)
          → u ≤ℤ v
      overtakes none h f = absurd h
      overtakes (some e) h f = omega (arith, f e refl)

  unfoldable pub write_all : Local → List Write → Local
  write_all m [] = m
  write_all m (w ∷ ws) = write_all (local_set unpack local_ttl m w.at w.key w.wire w.version) ws

  write_all_keeps-Recent :
      (m : Local) (ws : List Write) (k : Bytes) (u : ℤ)
      → Recent u (m k)
      → Recent u (write_all m ws k)
  unfolding write_all
  write_all_keeps-Recent m [] k u h = h
  write_all_keeps-Recent m (w ∷ ws) k u h =
      write_all_keeps-Recent (local_set unpack local_ttl m w.at w.key w.wire w.version) ws k u
        (set_keeps-Recent m w.at w.key w.wire w.version k u h)

  -- In whatever order answers for a key are written, the entry that remains is at least as recent
  -- as each of them, by the times at which the server says that it resolved them.
  pub write_all-Recent :
      (m : Local) (ws : List Write) → All (λ w. Recent w.version (write_all m ws w.key)) ws
  unfolding write_all
  write_all-Recent m [] = tt
  write_all-Recent m (w ∷ ws) = (
    write_all_keeps-Recent (local_set unpack local_ttl m w.at w.key w.wire w.version) ws w.key
        w.version (set-Recent m w.at w.key w.wire w.version),
    write_all-Recent (local_set unpack local_ttl m w.at w.key w.wire w.version) ws,
  )
