-- ===== src/Server/Prefetch/Dynamic.antt =====
-- internal/server/server.go: what `prefetchDynamic` plans.
use redis_dns.Prelude.{
  ◌≡◌, sym, inl, inr, subst, true, false, List, [], ◌∷◌, some, arith, All, Bool-cases, Option-cases,
}
use redis_dns.Prelude.Bytes.{Bytes, Map}
use redis_dns.Prelude.Int.{ℤ, nonpos}
use redis_dns.Dns.{DnsLib}
use redis_dns.Proto.{Request, Response, Update, Json}
use redis_dns.Server.{Server}
use redis_dns.Server.Stats.{parse_member, is_due, due_dynamic}
use redis_dns.Server.Prefetch.{Sweep, Progress, prefetch_members, prefetch_dynamic}
use redis_dns.Server.Prefetch.Spacing.{Different, Parses, Swept, prefetch_members-Swept}

module _ (lib : DnsLib) (requests : Json Request) (responses : Json Response)
    (updates : Json Update) (s : Server) (sweep : Sweep) where
  due-Parses :
      (next : Map ℤ) (now : ℤ) (m : Bytes)
      → is_due lib next now m ≡ true
      → Parses lib requests responses updates s sweep m
  due-Parses next now m h = elim (Option-cases (parse_member lib m)) [
    | inl bad ↦ absurd (ground arith)
    | inr good ↦ good
  ]

  due_dynamic-Parses :
      (top : List Bytes) (next : Map ℤ) (now : ℤ)
      → All (Parses lib requests responses updates s sweep) (due_dynamic lib top next now)
  unfolding due_dynamic
  due_dynamic-Parses [] next now = tt
  due_dynamic-Parses (m ∷ top) next now = elim (Bool-cases (is_due lib next now m)) [
    | inl due ↦ rw due (due-Parses next now m due, due_dynamic-Parses top next now)
    | inr later ↦ rw later (due_dynamic-Parses top next now)
  ]

  due_dynamic-All :
      (P : Bytes → Type 0) (top : List Bytes) (next : Map ℤ) (now : ℤ)
      → All P top
      → All P (due_dynamic lib top next now)
  unfolding due_dynamic
  due_dynamic-All P [] next now h = tt
  due_dynamic-All P (m ∷ top) next now h = elim (Bool-cases (is_due lib next now m)) [
    | inl due ↦ rw due (h.0, due_dynamic-All P top next now h.1)
    | inr later ↦ rw later (due_dynamic-All P top next now h.1)
  ]

  due_dynamic-Different :
      (top : List Bytes) (next : Map ℤ) (now : ℤ)
      → Different top
      → Different (due_dynamic lib top next now)
  unfolding due_dynamic
  due_dynamic-Different [] next now h = tt
  due_dynamic-Different (m ∷ top) next now h = elim (Bool-cases (is_due lib next now m)) [
    | inl due ↦ rw due (due_dynamic-All _ top next now h.0, due_dynamic-Different top next now h.1)
    | inr later ↦ rw later (due_dynamic-Different top next now h.1)
  ]

  dynamic_members :
      (p : Progress) (top : List Bytes)
      → nonpos s.top_n ≡ false
      → sweep.top ≡ some top
      → prefetch_dynamic lib requests responses updates s sweep p
        ≡ prefetch_members lib requests responses updates s sweep p
            (due_dynamic lib top p.next sweep.ranked_at)
  unfolding prefetch_dynamic
  dynamic_members p top on at = ground (arith, on, at)

  -- With prefetching by rank on, a sweep over a ranking in which no member comes twice plans each
  -- member that was due: one interval of the sweep later if it did not resolve, later by the delay
  -- that the TTL of its answer gives if it did, and as before if the answer could not be packed.
  -- No other plan is touched.
  pub prefetch_dynamic-Swept :
      (p : Progress) (top : List Bytes)
      → nonpos s.top_n ≡ false
      → sweep.top ≡ some top
      → Different top
      → Swept lib requests responses updates s sweep p
          (prefetch_dynamic lib requests responses updates s sweep p)
          (due_dynamic lib top p.next sweep.ranked_at)
  prefetch_dynamic-Swept p top on at different =
      let due = due_dynamic lib top p.next sweep.ranked_at in
      subst (λ p'. Swept lib requests responses updates s sweep p p' due)
        (sym (dynamic_members p top on at))
        (prefetch_members-Swept lib requests responses updates s sweep p due
          (due_dynamic-Parses top p.next sweep.ranked_at)
          (due_dynamic-Different top p.next sweep.ranked_at different))
