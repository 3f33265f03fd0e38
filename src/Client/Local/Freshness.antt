-- ===== src/Client/Local/Freshness.antt =====
-- internal/client/client.go: what the local cache answers was stored, and has not expired.
use redis_dns.Prelude.{
  ◌≡◌, refl, sym, ap, subst, ◌⊎◌, inl, inr, List, [], ◌∷◌, Option, none, some, arith, All, Any,
  Bool-cases, Option-cases,
}
use redis_dns.Prelude.Bytes.{Bytes, empty, insert, erase, bytes_eq, bytes_eq-eq}
use redis_dns.Prelude.Int.{ℤ, ltb_ℤ, ◌+ℤ◌, ◌≤ℤ◌, ◌<ℤ◌}
use redis_dns.Dns.{Msg}
use redis_dns.Client.Local.{
  Local, LocalEntry, Op, get, evict, set, swap, local_get, local_set, lifetime, apply, run,
}

-- Every entry of the cache has the property.
abbrev pub AllEntries : (Bytes → LocalEntry → Type 0) → Local → Type 0
AllEntries P m = (k : Bytes) (e : LocalEntry) → m k ≡ some e → P k e

erase-AllEntries :
    (P : Bytes → LocalEntry → Type 0) (key : Bytes) (m : Local)
    → AllEntries P m
    → AllEntries P (erase key m)
erase-AllEntries P key m h k e at = h k e (ground arith)

pub insert-AllEntries :
    (P : Bytes → LocalEntry → Type 0) (key : Bytes) (new : LocalEntry) (m : Local)
    → P key new
    → AllEntries P m
    → AllEntries P (insert key new m)
insert-AllEntries P key new m p h k e at = elim (Bool-cases (bytes_eq k key)) [
  | inl same ↦
      let same_entry : new ≡ e = ground arith in
      subst (P k) same_entry (subst (λ x. P x new) (sym (bytes_eq-eq k key same)) p)
  | inr other ↦ h k e (ground arith)
]

-- The three outcomes of a lookup.
abbrev pub Looks : Local → ℤ → Bytes → Local × Option Bytes → Type 0
Looks m now key r =
    ((m key ≡ none) × (r ≡ (m, none)))
    ⊎ ((e : LocalEntry) × (m key ≡ some e) × (e.expire <ℤ now) × (r ≡ (erase key m, none)))
    ⊎ ((e : LocalEntry) × (m key ≡ some e) × (now ≤ℤ e.expire) × (r ≡ (m, some e.wire)))

pub local_get-Looks : (m : Local) (now : ℤ) (key : Bytes) → Looks m now key (local_get m now key)
unfolding local_get
local_get-Looks m now key = elim (Option-cases (m key)) [
  | inl miss ↦ inl (miss, rw (miss, local_get))
  | inr (e, hit) ↦ inr (elim (Bool-cases (ltb_ℤ e.expire now)) [
    | inl old ↦ inl (e, hit, ground arith, rw (hit, local_get) (rw old))
    | inr young ↦ inr (e, hit, ground arith, rw (hit, local_get) (rw young))
  ])
]

pub local_get-AllEntries :
    (P : Bytes → LocalEntry → Type 0) (m : Local) (now : ℤ) (key : Bytes)
    → AllEntries P m
    → AllEntries P (local_get m now key).0
local_get-AllEntries P m now key h = elim (local_get-Looks m now key) [
  | inl (_, e) ↦ rw e h
  | inr (inl (_, _, _, e)) ↦ rw e (erase-AllEntries P key m h)
  | inr (inr (_, _, _, e)) ↦ rw e h
]

module _ (unpack : Bytes → Option Msg) (local_ttl : ℤ) where
  -- The entry that a write stores at a time.
  abbrev pub written : ℤ → Bytes → ℤ → LocalEntry
  written t wire v = record {
    wire = wire;
    expire = t +ℤ lifetime unpack local_ttl wire;
    resolved_at = v;
  }

  pub local_set_either :
      (m : Local) (t : ℤ) (key wire : Bytes) (v : ℤ)
      → (local_set unpack local_ttl m t key wire v ≡ m)
        ⊎ (local_set unpack local_ttl m t key wire v ≡ insert key (written t wire v) m)
  unfolding local_set
  local_set_either m t key wire v = elim (Option-cases (m key)) [
    | inl miss ↦ inr (rw (miss, local_set))
    | inr (e, hit) ↦ elim (Bool-cases (ltb_ℤ v e.resolved_at)) [
      | inl older ↦ inl (rw (hit, local_set) (rw older))
      | inr newer ↦ inr (rw (hit, local_set) (rw newer))
    ]
  ]

  abbrev Gives : (Bytes → LocalEntry → Type 0) → Op → Type 0
  Gives P (get t key) = Unit
  Gives P (evict key) = Unit
  Gives P (set t key wire v) = P key (written t wire v)
  Gives P swap = Unit

  apply-AllEntries :
      (P : Bytes → LocalEntry → Type 0) (m : Local) (op : Op)
      → Gives P op
      → AllEntries P m
      → AllEntries P (apply unpack local_ttl m op)
  apply-AllEntries P m (get t key) g h = unfold apply in local_get-AllEntries P m t key h
  apply-AllEntries P m (evict key) g h = unfold apply in erase-AllEntries P key m h
  apply-AllEntries P m (set t key wire v) g h =
      unfold apply in
      elim (local_set_either m t key wire v) [
        | inl kept ↦ subst (AllEntries P) (sym kept) h
        | inr put ↦ subst (AllEntries P) (sym put) (insert-AllEntries P key _ m g h)
      ]
  apply-AllEntries P m swap g h = unfold apply in λ k e at. absurd (cc)

  run-AllEntries :
      (P : Bytes → LocalEntry → Type 0) (m : Local) (ops : List Op)
      → All (Gives P) ops
      → AllEntries P m
      → AllEntries P (run unpack local_ttl m ops)
  unfolding run
  run-AllEntries P m [] g h = h
  run-AllEntries P m (op ∷ ops) g h =
      run-AllEntries P (apply unpack local_ttl m op) ops g.1 (apply-AllEntries P m op g.0 h)

  -- The operation stored that wire under that key, and its lifetime has not run out at `now`.
  abbrev pub Stored : ℤ → Bytes → Bytes → Op → Type 0
  Stored now key wire (get t k) = ⊥
  Stored now key wire (evict k) = ⊥
  Stored now key wire (set t k w v) =
      (k ≡ key) × (w ≡ wire) × (now ≤ℤ t +ℤ lifetime unpack local_ttl w)
  Stored now key wire swap = ⊥

  -- An entry that one of the operations wrote.
  abbrev WroteEntry : Bytes → LocalEntry → Op → Type 0
  WroteEntry k e (get t key) = ⊥
  WroteEntry k e (evict key) = ⊥
  WroteEntry k e (set t key wire v) = (key ≡ k) × (written t wire v ≡ e)
  WroteEntry k e swap = ⊥

  Gives-WroteEntry :
      (Q : Bytes → LocalEntry → Type 0) (ops : List Op)
      → ((k : Bytes) (e : LocalEntry) → Any (WroteEntry k e) ops → Q k e)
      → All (Gives Q) ops
  Gives-WroteEntry Q [] f = tt
  Gives-WroteEntry Q (get t key ∷ ops) f = (tt, Gives-WroteEntry Q ops (λ k e m. f k e (inr m)))
  Gives-WroteEntry Q (evict key ∷ ops) f = (tt, Gives-WroteEntry Q ops (λ k e m. f k e (inr m)))
  Gives-WroteEntry Q (set t key wire v ∷ ops) f =
      (f key (written t wire v) (inl (refl, refl)), Gives-WroteEntry Q ops (λ k e m. f k e (inr m)))
  Gives-WroteEntry Q (swap ∷ ops) f = (tt, Gives-WroteEntry Q ops (λ k e m. f k e (inr m)))

  run-WroteEntry :
      (ops : List Op) (k : Bytes) (e : LocalEntry)
      → run unpack local_ttl empty ops k ≡ some e
      → Any (WroteEntry k e) ops
  run-WroteEntry ops =
      run-AllEntries (λ k e. Any (WroteEntry k e) ops) empty ops
        (Gives-WroteEntry _ ops (λ k e m. m)) (λ k e at. absurd (cc))

  Stored-WroteEntry :
      (now : ℤ) (k : Bytes) (e : LocalEntry) (ops : List Op)
      → now ≤ℤ e.expire
      → Any (WroteEntry k e) ops
      → Any (Stored now k e.wire) ops
  Stored-WroteEntry now k e [] h m = elim m [ ]
  Stored-WroteEntry now k e (get t key ∷ ops) h (inl w) = elim w [ ]
  Stored-WroteEntry now k e (evict key ∷ ops) h (inl w) = elim w [ ]
  Stored-WroteEntry now k e (set t key wire v ∷ ops) h (inl (same, w)) = inl (
    same,
    ap (λ (x : LocalEntry). x.wire) w,
    subst (λ (x : LocalEntry). now ≤ℤ x.expire) (sym w) h,
  )
  Stored-WroteEntry now k e (swap ∷ ops) h (inl w) = elim w [ ]
  Stored-WroteEntry now k e (op ∷ ops) h (inr m) = inr (Stored-WroteEntry now k e ops h m)

  -- Whatever lookups, evictions, writes and backend swaps went before, an answer of the local cache is a wire
  -- that was written under this very key, and the lifetime that its records gave it (or the
  -- fallback, where they gave none) has not run out.
  pub local_get-Stored :
      (ops : List Op) (now : ℤ) (key wire : Bytes)
      → (local_get (run unpack local_ttl empty ops) now key).1 ≡ some wire
      → Any (Stored now key wire) ops
  local_get-Stored ops now key wire h =
      let m = run unpack local_ttl empty ops in
      elim (local_get-Looks m now key) [
        | inl (_, e) ↦ absurd (ground arith)
        | inr (inl (_, _, _, e)) ↦ absurd (ground arith)
        | inr (inr (entry, hit, young, e)) ↦
            let same : entry.wire ≡ wire = ground arith in
            subst (λ (w : Bytes). Any (Stored now key w) ops) same
              (Stored-WroteEntry now key entry ops young (run-WroteEntry ops key entry hit))
      ]
