-- ===== src/Server/Stats/Schedule.antt =====
-- internal/server/stats.go: when a dynamic entry is refreshed.
use redis_dns.Prelude.{
  ℕ, ◌*◌, ◌/◌, ◌≤◌, ◌<◌, ◌≡◌, ◌⊎◌, inl, inr, Bool, true, false, List, [], ◌∷◌, some, arith,
  Bool-cases, Option-cases,
}
use redis_dns.Prelude.Bytes.{Bytes, Map}
use redis_dns.Prelude.Int.{ℤ, pos, ◌≤ℤ◌, *64-pos, two63}
use redis_dns.Dns.{DnsLib}
use redis_dns.Server.Stats.{hour, prefetch_next_delay, parse_member, dyn_key, is_due, due_dynamic}

-- The delay of an answer that was cached is never longer than an hour; it is no shorter than the
-- sweep, or it is the hour; and for a TTL that can be quadrupled in 64 bits it is four fifths of
-- the TTL wherever those lie between the sweep and the hour.
prefetch_next_delay_bounds :
    (ttl : ℕ) (sweep : ℤ)
    → 0 < ttl
    → let d = prefetch_next_delay (pos ttl) sweep in
      (d ≤ℤ pos hour)
      × ((sweep ≤ℤ d) ⊎ (d ≡ pos hour))
      × (ttl * 4 < two63 → sweep ≤ℤ pos (ttl * 4 / 5) → ttl * 4 / 5 ≤ hour → d ≡ pos (ttl * 4 / 5))
unfolding prefetch_next_delay
prefetch_next_delay_bounds ttl sweep h =
    (ground arith, ground arith, λ fits above below. rw (*64-pos ttl 4 fits) (ground arith))

clash : {t : Bool} → t ≡ true → t ≡ false → ⊥
clash h k = cc

-- A member may be refreshed now: it parses, and is not scheduled for later.
pub record IsDue (lib : DnsLib) (next : Map ℤ) (now : ℤ) (m : Bytes) : Type 0 where
  pub query : Bytes × ℕ
  pub parses : parse_member lib m ≡ some query
  pub not_later : (t : ℤ) → next (dyn_key lib m) ≡ some t → t ≤ℤ now

passes-IsDue :
    (lib : DnsLib) (next : Map ℤ) (now : ℤ) (m : Bytes)
    → is_due lib next now m ≡ true
    → IsDue lib next now m
passes-IsDue lib next now m h = elim (Option-cases (parse_member lib m)) [
  | inl bad ↦ absurd (ground arith)
  | inr (q, good) ↦ record { query = q; parses = good; not_later = λ t e. ground (arith, good, e) }
]

IsDue-due :
    (lib : DnsLib) (next : Map ℤ) (now : ℤ) (m : Bytes)
    → IsDue lib next now m
    → is_due lib next now m ≡ true
IsDue-due lib next now m h = elim (Option-cases (next (dyn_key lib m))) [
  | inl free ↦ ground (arith, h.parses, free)
  | inr (t, e) ↦ ground (arith, h.parses, e, h.not_later t e)
]

-- A list that keeps of another exactly what has a property, in order.
pub data Keeps (P : Bytes → Type 0) : List Bytes → List Bytes → Type 0 where
  nil : Keeps P [] []
  keep : {m : Bytes} {xs ys : List Bytes} → P m → Keeps P xs ys → Keeps P (m ∷ xs) (m ∷ ys)
  skip : {m : Bytes} {xs ys : List Bytes} → ¬ P m → Keeps P xs ys → Keeps P (m ∷ xs) ys

-- `dueDynamic` returns, in the order of the ranking, exactly the members that parse to a name and a
-- type and are not scheduled for a time that is still to come.
due_dynamic-Keeps :
    (lib : DnsLib) (top : List Bytes) (next : Map ℤ) (now : ℤ)
    → Keeps (IsDue lib next now) top (due_dynamic lib top next now)
unfolding due_dynamic
due_dynamic-Keeps lib [] next now = nil
due_dynamic-Keeps lib (m ∷ top) next now = elim (Bool-cases (is_due lib next now m)) [
  | inl due ↦ rw due (keep (passes-IsDue lib next now m due) (due_dynamic-Keeps lib top next now))
  | inr not_due ↦
      rw not_due (
        skip (λ d. clash (IsDue-due lib next now m d) not_due) (due_dynamic-Keeps lib top next now))
]
