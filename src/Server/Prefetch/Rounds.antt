-- ===== src/Server/Prefetch/Rounds.antt =====
-- internal/server/server.go: `runPrefetch`, from one sweep to the next.
use redis_dns.Prelude.{
  ◌≡◌, refl, sym, ap, ◌∙◌, inl, inr, false, List, [], ◌∷◌, some, All, Bool-cases, Option-cases, map,
}
use mathlib.Core.Option
use redis_dns.Prelude.Bytes.{Bytes, Map, bytes_eq}
use redis_dns.Prelude.Int.{ℤ, ◌<ℤ◌, nonpos}
use redis_dns.Dns.{DnsLib}
use redis_dns.Proto.{Request, Response, Update, Json}
use redis_dns.Server.{Server}
use redis_dns.Server.Stats.{parse_member, dyn_key, due_dynamic}
use redis_dns.Server.Prefetch.{
  Sweep, Progress, refresh, interval_of, prefetch_domain, prefetch_domains, prefetch_member,
  prefetch_members, prefetch_dynamic, prefetch_sweep, run_prefetch,
}
use redis_dns.Server.Prefetch.Fixed.{name_of, others, scheduled_passed_over}
use redis_dns.Server.Prefetch.Spacing.{Refresh-cases}

module _ (lib : DnsLib) (requests : Json Request) (responses : Json Response)
    (updates : Json Update) (s : Server) where
  -- A sweep as if a name were not listed.
  abbrev pub without : Bytes → Sweep → Sweep
  without name sweep = record sweep {
    domains = Option.map (others lib requests responses updates s sweep name) sweep.domains;
  }

  same_domains :
      (sweep : Sweep) (name : Bytes) (ds : List (Bytes × Bytes)) (p : Progress)
      → prefetch_domains lib requests responses updates s (without name sweep) p ds
        ≡ prefetch_domains lib requests responses updates s sweep p ds
  unfolding prefetch_domains prefetch_domain interval_of refresh
  same_domains sweep name [] p = refl
  same_domains sweep name (d ∷ ds) p = same_domains sweep name ds _

  same_members :
      (sweep : Sweep) (name : Bytes) (ms : List Bytes) (p : Progress)
      → prefetch_members lib requests responses updates s (without name sweep) p ms
        ≡ prefetch_members lib requests responses updates s sweep p ms
  unfolding prefetch_members prefetch_member refresh
  same_members sweep name [] p = refl
  same_members sweep name (m ∷ ms) p = same_members sweep name ms _

  same_dynamic :
      (sweep : Sweep) (name : Bytes) (p : Progress)
      → prefetch_dynamic lib requests responses updates s (without name sweep) p
        ≡ prefetch_dynamic lib requests responses updates s sweep p
  unfolding prefetch_dynamic
  same_dynamic sweep name p = elim (Bool-cases (nonpos s.top_n)) [
    | inl off ↦ rw off refl
    | inr on ↦ elim (Option-cases sweep.top) [
      | inl failed ↦ rw on (rw failed refl)
      | inr (top, at) ↦
          rw on (rw at (same_members sweep name (due_dynamic lib top p.next sweep.ranked_at) p))
    ]
  ]

  member-next :
      (sweep : Sweep) (k : Bytes) (p : Progress) (m : Bytes)
      → bytes_eq k (dyn_key lib m) ≡ false
      → (prefetch_member lib requests responses updates s sweep p m).next k ≡ p.next k
  unfolding prefetch_member
  member-next sweep k p m other = elim (Option-cases (parse_member lib m)) [
    | inl bad ↦ rw (bad, prefetch_member) refl
    | inr (q, good) ↦
        elim (Refresh-cases (refresh lib requests responses updates s sweep m q.0 q.1)) [
          | inl h ↦ rw (good, prefetch_member) (rw (h, prefetch_member) (rw other refl))
          | inr (inl h) ↦ rw (good, prefetch_member) (rw (h, prefetch_member) refl)
          | inr (inr (ttl, sent, h)) ↦
              rw (good, prefetch_member) (rw (h, prefetch_member) (rw other refl))
        ]
  ]

  -- Ranked members are planned under other keys.
  abbrev pub IsFixed : Bytes → Type 0
  IsFixed k = (m : Bytes) → bytes_eq k (dyn_key lib m) ≡ false

  members-next :
      (sweep : Sweep) (k : Bytes)
      → IsFixed k
      → (ms : List Bytes) (p : Progress)
      → (prefetch_members lib requests responses updates s sweep p ms).next k ≡ p.next k
  unfolding prefetch_members
  members-next sweep k fixed [] p = refl
  members-next sweep k fixed (m ∷ ms) p =
      members-next sweep k fixed ms (prefetch_member lib requests responses updates s sweep p m)
      ∙ member-next sweep k p m (fixed m)

  dynamic-next :
      (sweep : Sweep) (k : Bytes)
      → IsFixed k
      → (p : Progress)
      → (prefetch_dynamic lib requests responses updates s sweep p).next k ≡ p.next k
  unfolding prefetch_dynamic
  dynamic-next sweep k fixed p = elim (Bool-cases (nonpos s.top_n)) [
    | inl off ↦ rw off refl
    | inr on ↦ elim (Option-cases sweep.top) [
      | inl failed ↦ rw on (rw failed refl)
      | inr (top, at) ↦
          rw on (rw at (members-next sweep k fixed (due_dynamic lib top p.next sweep.ranked_at) p))
    ]
  ]

  -- A sweep that looks at the domains of a name before a time.
  abbrev pub IsBefore : Bytes → ℤ → Sweep → Type 0
  IsBefore name t sweep =
      (ds : List (Bytes × Bytes))
      → sweep.domains ≡ some ds
      → All
          (λ d.
            name_of lib requests responses updates s sweep d.0 ≡ name → sweep.looked_at d.0 <ℤ t)
          ds

  abbrev Unlisted : Bytes → ℤ → Sweep → Map ℤ → Type 0
  Unlisted name t sweep next =
      (prefetch_sweep lib requests responses updates s sweep next
        ≡ prefetch_sweep lib requests responses updates s (without name sweep) next)
      × ((prefetch_sweep lib requests responses updates s sweep next).next name ≡ some t)

  sweep-Unlisted :
      (sweep : Sweep) (name : Bytes) (t : ℤ) (next : Map ℤ)
      → IsFixed name
      → next name ≡ some t
      → IsBefore name t sweep
      → Unlisted name t sweep next
  unfolding prefetch_sweep
  sweep-Unlisted sweep name t next fixed plan early = elim (Option-cases sweep.domains) [
    | inl failed ↦ rw (failed, prefetch_sweep) (refl, plan)
    | inr (ds, at) ↦
        let start : Progress = record { next = next; sent = [] } in
        let (passed, stays) =
          scheduled_passed_over lib requests responses updates s sweep start name t ds plan
            (early ds at) in
        let p = prefetch_domains lib requests responses updates s sweep start ds in
        let rest = others lib requests responses updates s sweep name ds in
        let q = prefetch_domains lib requests responses updates s (without name sweep) start rest in
        let same : p ≡ q = passed ∙ sym (same_domains sweep name rest start) in
        rw (at, prefetch_sweep)
          (
            ap (λ (x : Progress). prefetch_dynamic lib requests responses updates s sweep x) same
                ∙ sym (same_dynamic sweep name q),
            dynamic-next sweep name fixed p ∙ stays,
          )
  ]

  -- Until the time that is planned for a fixed domain, under a key that no ranked member has, the
  -- loop does sweep by sweep what it would do if the domain were not listed.
  pub hot_domain_waits :
      (name : Bytes) (t : ℤ)
      → IsFixed name
      → (sweeps : List Sweep) (next : Map ℤ) → next name ≡ some t
      → All (IsBefore name t) sweeps
      → run_prefetch lib requests responses updates s next sweeps
        ≡ run_prefetch lib requests responses updates s next (map (without name) sweeps)
  unfolding run_prefetch
  hot_domain_waits name t fixed [] next plan early = refl
  hot_domain_waits name t fixed (w ∷ ws) next plan (h, early) =
      let (same, stays) = sweep-Unlisted w name t next fixed plan h in
      let p = prefetch_sweep lib requests responses updates s w next in
      ap (λ (x : List Progress). p ∷ x) (hot_domain_waits name t fixed ws p.next stays early)
      ∙ ap
          (λ (x : Progress).
            x ∷ run_prefetch lib requests responses updates s x.next (map (without name) ws))
          same
