-- ===== src/Server/Prefetch/Spacing.antt =====
-- internal/server/server.go: when a ranked name is refreshed again.
use redis_dns.Prelude.{
  ℕ, ◌≡◌, refl, sym, ◌∙◌, ◌≢◌, ◌⊎◌, inl, inr, subst, List, [], ◌∷◌, ◌++◌, some, arith, All, All-map,
}
use redis_dns.Prelude.Bytes.{Bytes, Map, insert, bytes_eq_refl, bytes_eq_iff}
use redis_dns.Prelude.Int.{ℤ, ◌+ℤ◌}
use redis_dns.Dns.{DnsLib}
use redis_dns.Proto.{Request, Response, Update, Json}
use redis_dns.Server.{Server}
use redis_dns.Server.Stats.{parse_member, dyn_key, prefetch_next_delay}
use redis_dns.Server.Prefetch.{
  Sweep, Progress, Refresh, not_resolved, not_packed, refreshed, refresh, prefetch_member,
  prefetch_members,
}

abbrev pub Different : List Bytes → Type 0
Different [] = Unit
Different (m ∷ ms) = All (λ x. x ≢ m) ms × Different ms

pub Refresh-cases :
    (r : Refresh)
    → (r ≡ not_resolved)
      ⊎ (r ≡ not_packed)
      ⊎ ((ttl : ℤ) × (sent : List redis_dns.Server.Handle.Command) × (r ≡ refreshed ttl sent))
Refresh-cases not_resolved = inl refl
Refresh-cases not_packed = inr (inl refl)
Refresh-cases (refreshed ttl sent) = inr (inr (ttl, sent, refl))

module _ (lib : DnsLib) (requests : Json Request) (responses : Json Response)
    (updates : Json Update) (s : Server) (sweep : Sweep) where
  abbrev pub Parses : Bytes → Type 0
  Parses m = (q : Bytes × ℕ) × (parse_member lib m ≡ some q)

  -- What is planned for a member after a sweep that found it due: after a failed resolution it
  -- waits for one sweep's interval, and after an answer for the delay that its TTL gives; after
  -- an answer that cannot be packed its plan is as it was.
  abbrev pub Planned : Map ℤ → Map ℤ → Bytes → Type 0
  Planned before after m =
      (q : Bytes × ℕ) × (parse_member lib m ≡ some q)
      × (((refresh lib requests responses updates s sweep m q.0 q.1 ≡ not_resolved)
            × (after (dyn_key lib m) ≡ some (sweep.finished m +ℤ s.prefetch)))
          ⊎ ((refresh lib requests responses updates s sweep m q.0 q.1 ≡ not_packed)
              × (after (dyn_key lib m) ≡ before (dyn_key lib m)))
          ⊎ ((ttl : ℤ) × (sent : List redis_dns.Server.Handle.Command) × (refresh lib requests
                  responses updates s sweep m q.0 q.1
                ≡ refreshed ttl sent)
              × (after (dyn_key lib m)
                  ≡ some (sweep.finished m +ℤ prefetch_next_delay ttl s.prefetch))))

  -- Only the plan of that member changes.
  abbrev Turned : Progress → Progress → Bytes → Type 0
  Turned p p' m =
      Planned p.next p'.next m × ((k : Bytes) → k ≢ dyn_key lib m → p'.next k ≡ p.next k)

  put :
      (next : Map ℤ) (k : Bytes) (t : ℤ)
      → (insert k t next k ≡ some t) × ((j : Bytes) → j ≢ k → insert k t next j ≡ next j)
  put next k t = (rw (bytes_eq_refl k), λ j other. ground (arith, bytes_eq_iff j k))

  -- What a refresh does to the progress.
  abbrev turn : Progress → Bytes → Refresh → Progress
  turn p m not_resolved = record p {
    next = insert (dyn_key lib m) (sweep.finished m +ℤ s.prefetch) p.next;
  }
  turn p m not_packed = p
  turn p m (refreshed ttl sent) = record {
    next = insert (dyn_key lib m) (sweep.finished m +ℤ prefetch_next_delay ttl s.prefetch) p.next;
    sent = p.sent ++ sent;
  }

  prefetch_member-turn :
      (p : Progress) (m : Bytes) (q : Bytes × ℕ) (r : Refresh)
      → parse_member lib m ≡ some q
      → refresh lib requests responses updates s sweep m q.0 q.1 ≡ r
      → prefetch_member lib requests responses updates s sweep p m ≡ turn p m r
  prefetch_member-turn p m q not_resolved parses h =
      unfold prefetch_member in rw (parses, prefetch_member) (rw (h, prefetch_member))
  prefetch_member-turn p m q not_packed parses h =
      unfold prefetch_member in rw (parses, prefetch_member) (rw (h, prefetch_member))
  prefetch_member-turn p m q (refreshed ttl sent) parses h =
      unfold prefetch_member in rw (parses, prefetch_member) (rw (h, prefetch_member))

  turn-Turned :
      (p : Progress) (m : Bytes) (q : Bytes × ℕ) (r : Refresh)
      → parse_member lib m ≡ some q
      → refresh lib requests responses updates s sweep m q.0 q.1 ≡ r
      → Turned p (turn p m r) m
  turn-Turned p m q not_resolved parses h =
      let (here, there) = put p.next (dyn_key lib m) (sweep.finished m +ℤ s.prefetch) in
      ((q, parses, inl (h, here)), there)
  turn-Turned p m q not_packed parses h = ((q, parses, inr (inl (h, refl))), λ k other. refl)
  turn-Turned p m q (refreshed ttl sent) parses h =
      let (here, there) =
        put p.next (dyn_key lib m) (sweep.finished m +ℤ prefetch_next_delay ttl s.prefetch) in
      ((q, parses, inr (inr (ttl, sent, h, here))), there)

  prefetch_member-Turned :
      (p : Progress) (m : Bytes)
      → Parses m
      → Turned p (prefetch_member lib requests responses updates s sweep p m) m
  prefetch_member-Turned p m (q, parses) =
      let r = refresh lib requests responses updates s sweep m q.0 q.1 in
      subst (λ p'. Turned p p' m) (sym (prefetch_member-turn p m q r parses refl))
        (turn-Turned p m q r parses refl)

  -- The plans after a row of members that are all different.
  abbrev pub Swept : Progress → Progress → List Bytes → Type 0
  Swept p p' ms =
      All (Planned p.next p'.next) ms
      × ((k : Bytes) → All (λ m. k ≢ dyn_key lib m) ms → p'.next k ≡ p.next k)

  dyn_key_inj : (x y : Bytes) → dyn_key lib x ≡ dyn_key lib y → x ≡ y
  dyn_key_inj x y h = cc

  other_keys :
      (m : Bytes) (ms : List Bytes)
      → All (λ x. x ≢ m) ms
      → All (λ x. dyn_key lib m ≢ dyn_key lib x) ms
  other_keys m ms h = All-map _ _ ms (λ x other e. other (sym (dyn_key_inj m x e))) h

  -- A plan is one however the plans of other members came about.
  Planned-before :
      (before now after : Map ℤ) (m : Bytes)
      → now (dyn_key lib m) ≡ before (dyn_key lib m)
      → Planned now after m
      → Planned before after m
  Planned-before before now after m e (q, parses, inl h) = (q, parses, inl h)
  Planned-before before now after m e (q, parses, inr (inl (r, h))) =
      (q, parses, inr (inl (r, h ∙ e)))
  Planned-before before now after m e (q, parses, inr (inr h)) = (q, parses, inr (inr h))

  Planned-after :
      (before now after : Map ℤ) (m : Bytes)
      → after (dyn_key lib m) ≡ now (dyn_key lib m)
      → Planned before now m
      → Planned before after m
  Planned-after before now after m e (q, parses, inl (r, h)) = (q, parses, inl (r, e ∙ h))
  Planned-after before now after m e (q, parses, inr (inl (r, h))) =
      (q, parses, inr (inl (r, e ∙ h)))
  Planned-after before now after m e (q, parses, inr (inr (ttl, sent, r, h))) =
      (q, parses, inr (inr (ttl, sent, r, e ∙ h)))

  later_Planned :
      (before now after : Map ℤ) (m : Bytes) (ms : List Bytes)
      → ((k : Bytes) → k ≢ dyn_key lib m → now k ≡ before k)
      → All (λ x. x ≢ m) ms
      → All (Planned now after) ms
      → All (Planned before after) ms
  later_Planned before now after m [] kept d h = tt
  later_Planned before now after m (x ∷ ms) kept d h = (
    Planned-before before now after x (kept (dyn_key lib x) (λ e. d.0 (dyn_key_inj x m e))) h.0,
    later_Planned before now after m ms kept d.1 h.1,
  )

  pub prefetch_members-Swept :
      (p : Progress) (ms : List Bytes)
      → All Parses ms
      → Different ms
      → Swept p (prefetch_members lib requests responses updates s sweep p ms) ms
  unfolding prefetch_members
  prefetch_members-Swept p [] h d = (tt, λ k other. refl)
  prefetch_members-Swept p (m ∷ ms) h d =
      let p1 = prefetch_member lib requests responses updates s sweep p m in
      let p2 = prefetch_members lib requests responses updates s sweep p1 ms in
      let (first, kept) = prefetch_member-Turned p m h.0 in
      let (rest, untouched) = prefetch_members-Swept p1 ms h.1 d.1 in
      (
        (
          Planned-after p.next p1.next p2.next m (untouched (dyn_key lib m) (other_keys m ms d.0))
              first,
          later_Planned p.next p1.next p2.next m ms kept d.0 rest,
        ),
        λ k other. untouched k other.1 ∙ kept k other.0,
      )
