-- ===== src/Bridge/Serving.antt =====
-- What one message of the request stream, and what one prefetch sweep, make the server send.
use redis_dns.Prelude.{
  ℕ, ◌≡◌, refl, subst, ◌⊎◌, inl, inr, List, [], ◌∷◌, some, arith, All, All-append, Option-cases,
  Bool-cases,
}
use redis_dns.Prelude.Bytes.{Bytes, Map, to_lower}
use redis_dns.Prelude.Int.{ℤ, nonpos}
use redis_dns.Dns.{Msg, DnsLib, type_a}
use redis_dns.Proto.{Request, Response, Update, Json, IsFaithful}
use redis_dns.Server.{Server}
use redis_dns.Server.Stats.{parse_member, is_scheduled, due_dynamic}
use redis_dns.Server.Handle
use redis_dns.Server.Handle.{
  Command, publish, ack, cache, announce, answer_request, process, handle,
}
use redis_dns.Server.Handle.Responding.{process_request}
use redis_dns.Server.Prefetch.{
  Sweep, Progress, Refresh, not_resolved, not_packed, refreshed, refresh, prefetch_domain,
  prefetch_domains, prefetch_member, prefetch_members, prefetch_dynamic, prefetch_sweep,
}
use redis_dns.Server.Prefetch.Spacing.{Refresh-cases}
use redis_dns.Bridge.Origin.{Sound, IsSupplied, answer_request-Sound, announced-Sound}

module _ (lib : DnsLib) (Gives : Bytes → ℕ → Msg → Type 0) (requests : Json Request)
    (responses : Json Response) (updates : Json Update) (law : IsFaithful responses)
    (law' : IsFaithful updates) (opened : Map (Bytes × ℕ)) (s : Server) where
  abbrev pub IsSound : Command → Type 0
  IsSound = Sound lib Gives requests responses updates law law' opened

  -- A message is answered for the request that it carries, if that was asked for.
  pub process-Sound :
      (scene : Handle.Scene) (queue : List Bytes) (id payload : Bytes)
      → IsSupplied lib Gives requests responses updates law law' scene.upstream scene.cached
      → ((req : Request)
          → requests.unmarshal payload ≡ some req
          → opened req.id ≡ some (req.name, req.qtype))
      → All IsSound (process lib requests responses updates s scene queue id (some payload)).1
  process-Sound scene queue id payload h own = elim (Option-cases (requests.unmarshal payload)) [
    | inl bad ↦ unfold process handle in rw (bad, handle) (tt, tt)
    | inr (req, good) ↦
        rw (process_request lib requests responses updates s scene queue id payload req good) (
          All-append IsSound _ (ack id ∷ [])
            (answer_request-Sound lib Gives requests responses updates law law' opened s scene req h
              (own req good))
            (tt, tt))
  ]

  module _ (sweep : Sweep)
      (resolves : (name : Bytes) (qtype : ℕ) (m : Msg)
        → sweep.upstream name qtype ≡ Handle.answered m
        → Gives name qtype m) where
    -- What a refresh sends, if it sends.
    abbrev Sends : Refresh → Type 0
    Sends not_resolved = Unit
    Sends not_packed = Unit
    Sends (refreshed ttl sent) = All IsSound sent

    upstream_cases :
        (r : Handle.Resolved)
        → ((m : Msg) × (r ≡ Handle.answered m)) ⊎ ((e : Bytes) × (r ≡ Handle.failed e))
    upstream_cases (Handle.answered m) = inl (m, refl)
    upstream_cases (Handle.failed e) = inr (e, refl)

    refresh-Sends :
        (key name : Bytes) (qtype : ℕ)
        → Sends (refresh lib requests responses updates s sweep key name qtype)
    unfolding refresh
    refresh-Sends key name qtype = elim (upstream_cases (sweep.upstream name qtype)) [
      | inr (e, down) ↦ rw (down, refresh) tt
      | inl (m, up) ↦ elim (Option-cases (lib.pack m)) [
        | inl bad ↦ rw (up, refresh) (rw (bad, refresh) tt)
        | inr (wire, good) ↦
            rw (up, refresh)
              (rw (good, refresh)
                (unfold announce in
                  announced-Sound lib Gives requests responses updates law law' opened s
                    (record {
                      name = name;
                      qtype = qtype;
                      rcode = m.rcode;
                      resolved_at = sweep.stamped key;
                      wire = wire;
                    })
                    m [] (m, resolves name qtype m up, good) tt))
      ]
    ]

    refreshed-Sound :
        (key name : Bytes) (qtype : ℕ) (ttl : ℤ) (sent : List Command)
        → refresh lib requests responses updates s sweep key name qtype ≡ refreshed ttl sent
        → All IsSound sent
    refreshed-Sound key name qtype ttl sent e = subst Sends e (refresh-Sends key name qtype)

    domain-Sound :
        (p : Progress) (domain text : Bytes)
        → All IsSound p.sent
        → All IsSound (prefetch_domain lib requests responses updates s sweep p (domain, text)).sent
    unfolding prefetch_domain
    domain-Sound p domain text h =
        let name = to_lower (lib.fqdn domain) in
        let r = refresh lib requests responses updates s sweep domain name type_a in
        elim (Bool-cases (is_scheduled lib (p.next name) (sweep.looked_at domain))) [
          | inl later ↦ rw later h
          | inr due ↦ elim (Refresh-cases r) [
            | inl down ↦ rw (due, prefetch_domain) (rw (down, prefetch_domain) h)
            | inr (inl bad) ↦ rw (due, prefetch_domain) (rw (bad, prefetch_domain) h)
            | inr (inr (ttl, sent, good)) ↦
                rw (due, prefetch_domain)
                  (rw (good, prefetch_domain)
                    (All-append IsSound p.sent sent h
                      (refreshed-Sound domain name type_a ttl sent good)))
          ]
        ]

    domains-Sound :
        (p : Progress) (ds : List (Bytes × Bytes))
        → All IsSound p.sent
        → All IsSound (prefetch_domains lib requests responses updates s sweep p ds).sent
    unfolding prefetch_domains
    domains-Sound p [] h = h
    domains-Sound p ((domain, text) ∷ ds) h =
        domains-Sound (prefetch_domain lib requests responses updates s sweep p (domain, text)) ds
          (domain-Sound p domain text h)

    member-Sound :
        (p : Progress) (m : Bytes)
        → All IsSound p.sent
        → All IsSound (prefetch_member lib requests responses updates s sweep p m).sent
    unfolding prefetch_member
    member-Sound p m h = elim (Option-cases (parse_member lib m)) [
      | inl bad ↦ rw (bad, prefetch_member) h
      | inr (q, parses) ↦
          elim (Refresh-cases (refresh lib requests responses updates s sweep m q.0 q.1)) [
            | inl down ↦ rw (parses, prefetch_member) (rw (down, prefetch_member) h)
            | inr (inl bad) ↦ rw (parses, prefetch_member) (rw (bad, prefetch_member) h)
            | inr (inr (ttl, sent, good)) ↦
                rw (parses, prefetch_member)
                  (rw (good, prefetch_member)
                    (All-append IsSound p.sent sent h (refreshed-Sound m q.0 q.1 ttl sent good)))
          ]
    ]

    members-Sound :
        (p : Progress) (ms : List Bytes)
        → All IsSound p.sent
        → All IsSound (prefetch_members lib requests responses updates s sweep p ms).sent
    unfolding prefetch_members
    members-Sound p [] h = h
    members-Sound p (m ∷ ms) h =
        members-Sound (prefetch_member lib requests responses updates s sweep p m) ms
          (member-Sound p m h)

    dynamic-Sound :
        (p : Progress)
        → All IsSound p.sent
        → All IsSound (prefetch_dynamic lib requests responses updates s sweep p).sent
    unfolding prefetch_dynamic
    dynamic-Sound p h = elim (Bool-cases (nonpos s.top_n)) [
      | inl off ↦ rw off h
      | inr on ↦ elim (Option-cases sweep.top) [
        | inl down ↦ rw (on, prefetch_dynamic) (simp down h)
        | inr (top, at) ↦
            rw (on, prefetch_dynamic)
              (simp at (members-Sound p (due_dynamic lib top p.next sweep.ranked_at) h))
      ]
    ]

    sweep_cases :
        (next : Map ℤ)
        → (prefetch_sweep lib requests responses updates s sweep next
            ≡ record { next = next; sent = [] })
          ⊎ ((ds : List (Bytes × Bytes)) × (prefetch_sweep lib requests responses updates s sweep
                  next
                ≡ prefetch_dynamic lib requests responses updates s sweep (
                    prefetch_domains lib requests responses updates s sweep
                      (record { next = next; sent = [] })
                      ds)))
    unfolding prefetch_sweep
    sweep_cases next = elim (Option-cases sweep.domains) [
      | inl down ↦ inl (ground (arith, down))
      | inr (ds, at) ↦ inr (ds, ground (arith, at))
    ]

    -- A sweep sends nothing but what the upstream side gave.
    pub sweep-Sound :
        (next : Map ℤ)
        → All IsSound (prefetch_sweep lib requests responses updates s sweep next).sent
    sweep-Sound next = elim (sweep_cases next) [
      | inl e ↦ rw e tt
      | inr (ds, e) ↦
          rw e (dynamic-Sound _ (domains-Sound (record { next = next; sent = [] }) ds tt))
    ]
