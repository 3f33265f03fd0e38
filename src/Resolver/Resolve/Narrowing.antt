-- ===== src/Resolver/Resolve/Narrowing.antt =====
-- internal/resolver: `Resolve` may narrow an answer, and never breaks one.
use redis_dns.Prelude.{
  ℕ, ◌≡◌, refl, sym, ap, ◌∙◌, subst, ◌⊎◌, inl, inr, true, List, [], ◌∷◌, Option, none, some, arith,
  All, Any, Bool-cases, Option-cases,
}
use redis_dns.Prelude.Bytes.{Bytes}
use redis_dns.Prelude.Int.{ℤ}
use redis_dns.Net.{Ip, ip_equal, is_nil}
use redis_dns.Dns.{Msg, Record, DnsLib}
use redis_dns.Resolver.Records.{ip_in, answer_ips, narrow}
use redis_dns.Resolver.Records.Laws.{Offers, Carries, Carries-Offers, narrow-Offers}
use redis_dns.Resolver.Records.Selection.{answer_ips-IsSelection}
use redis_dns.Resolver.Race.{
  RaceConfig, Event, Verdict, tcp, icmp, deadline, done, tcp_win, icmp_win, pick_winner,
}
use redis_dns.Resolver.Race.Winner.{WonBy, winner_reported}
use redis_dns.Resolver.Pref.{
  PrefState, PrefEntry, PrefBackend, Loaded, found, absent, failed, apply_entry, apply_pref,
  pref_key,
}
use redis_dns.Resolver.Resolve.{Resolver, question_name, settle, race_or_reuse, apply_race, resolve}

-- A probe reports on an address that was raced.
abbrev pub ReportsOn : List Ip → Event → Type 0
ReportsOn ips (tcp r) = Any (λ ip. ip ≡ r.ip) ips
ReportsOn ips (icmp p) = Any (λ ip. ip ≡ p.ip) ips
ReportsOn ips deadline = Unit
ReportsOn ips done = Unit

-- A message is left as it is, or narrowed to an address that it offers and still offers.
abbrev pub IsOutcome : Msg → ℕ → Msg → Type 0
IsOutcome msg qtype out =
    (out ≡ msg)
    ⊎ ((winner : Ip) × (out ≡ narrow msg qtype winner) × Any (Offers qtype winner) out.answer)

narrow-IsOutcome :
    (msg : Msg) (qtype : ℕ) (winner : Ip)
    → Any (Offers qtype winner) msg.answer
    → IsOutcome msg qtype (narrow msg qtype winner)
narrow-IsOutcome msg qtype winner m = inr (winner, refl, narrow-Offers msg qtype winner m)

abbrev AllCarried : ℕ → List Record → List Ip → Type 0
AllCarried qtype rrs ips = All (λ ip. Any (Carries qtype ip) rrs) ips

Loaded-cases : (l : Loaded) → ((l ≡ failed) ⊎ (l ≡ absent)) ⊎ ((e : PrefEntry) × (l ≡ found e))
Loaded-cases failed = inl (inl refl)
Loaded-cases absent = inl (inr refl)
Loaded-cases (found e) = inr (e, refl)

winner_raced :
    (ips : List Ip) (es : List Event) (v : Verdict)
    → All (ReportsOn ips) es
    → Any (WonBy v) es
    → Any (λ ip. ip ≡ v.winner) ips
unfolding tcp_win icmp_win
winner_raced ips [] v h m = elim m [ ]
winner_raced ips (tcp r ∷ es) v h (inl (good, e)) =
    subst (λ (w : Ip). Any (λ ip. ip ≡ w) ips) (ap (λ (x : Verdict). x.winner) (sym e)) h.0
winner_raced ips (icmp p ∷ es) v h (inl (good, e)) =
    subst (λ (w : Ip). Any (λ ip. ip ≡ w) ips) (ap (λ (x : Verdict). x.winner) (sym e)) h.0
winner_raced ips (deadline ∷ es) v h (inl w) = elim w [ ]
winner_raced ips (done ∷ es) v h (inl w) = elim w [ ]
winner_raced ips (e ∷ es) v h (inr m) = winner_raced ips es v h.1 m

carried_of_Any :
    (qtype : ℕ) (rrs : List Record) (ips : List Ip) (w : Ip)
    → AllCarried qtype rrs ips
    → Any (λ ip. ip ≡ w) ips
    → Any (Offers qtype w) rrs
carried_of_Any qtype rrs [] w c m = elim m [ ]
carried_of_Any qtype rrs (ip ∷ ips) w c (inl e) =
    Carries-Offers qtype w rrs (subst (λ (x : Ip). Any (Carries qtype x) rrs) e c.0)
carried_of_Any qtype rrs (ip ∷ ips) w c (inr m) = carried_of_Any qtype rrs ips w c.1 m

Carries-Offers_equal :
    (qtype : ℕ) (ip w : Ip) (rrs : List Record)
    → ip_equal ip w ≡ true
    → Any (Carries qtype ip) rrs
    → Any (Offers qtype w) rrs
Carries-Offers_equal qtype ip w [] e m = m
Carries-Offers_equal qtype ip w (rr ∷ rrs) e (inl c) = inl (ip, c, e)
Carries-Offers_equal qtype ip w (rr ∷ rrs) e (inr m) = inr (Carries-Offers_equal qtype ip w rrs e m)

offered_of_ip_in :
    (qtype : ℕ) (rrs : List Record) (ips : List Ip) (w : Ip)
    → AllCarried qtype rrs ips
    → ip_in ips w ≡ true
    → Any (Offers qtype w) rrs
unfolding ip_in
offered_of_ip_in qtype rrs [] w c h = cc
offered_of_ip_in qtype rrs (ip ∷ ips) w c h = elim (Bool-cases (ip_equal ip w)) [
  | inl here ↦ Carries-Offers_equal qtype ip w rrs here c.0
  | inr later ↦ offered_of_ip_in qtype rrs ips w c.1 (ground arith)
]

module _ {S : Type 0} (b : PrefBackend S) (lib : DnsLib) where
  open lib use {type_string}

  entry_cases :
      (p : PrefState) (s : S) (now : ℤ) (msg : Msg) (qtype : ℕ) (key : Bytes) (ips : List Ip)
      (e : PrefEntry) (m : Msg)
      → (apply_entry b type_string p s now msg qtype key ips e).0 ≡ some m
      → (m ≡ msg) ⊎ ((m ≡ narrow msg qtype e.ip) × (ip_in ips e.ip ≡ true))
  unfolding apply_entry
  entry_cases p s now msg qtype key ips e m h = ground arith

  apply_pref-IsOutcome :
      (pref : Option PrefState) (s : S) (now : ℤ) (msg : Msg) (qtype : ℕ) (name : Bytes)
      (ips : List Ip) (m : Msg)
      → AllCarried qtype msg.answer ips
      → (apply_pref b type_string pref s now msg qtype name ips).0 ≡ some m
      → IsOutcome msg qtype m
  apply_pref-IsOutcome none s now msg qtype name ips m c h = unfold apply_pref in absurd (cc)
  apply_pref-IsOutcome (some p) s now msg qtype name ips m c h =
      elim (Loaded-cases (b.load_pref s (pref_key type_string name qtype))) [
        | inl nothing ↦ absurd (unfold apply_pref in ground arith)
        | inr (e, at) ↦
            elim (entry_cases p s now msg qtype (pref_key type_string name qtype) ips e m
              (unfold apply_pref in ground arith)) [
                | inl same ↦ inl same
                | inr (narrowed, listed) ↦ subst (IsOutcome msg qtype) (sym narrowed) (
                    narrow-IsOutcome msg qtype e.ip
                      (offered_of_ip_in qtype msg.answer ips e.ip c listed))
              ]
      ]

  settle-IsOutcome :
      (pref : Option PrefState) (s : S) (now : ℤ) (msg : Msg) (qtype : ℕ) (name : Bytes)
      (ips : List Ip) (cfg : RaceConfig) (es : List Event) (v : Verdict)
      → AllCarried qtype msg.answer ips
      → All (ReportsOn ips) es
      → pick_winner ips cfg es ≡ some v
      → IsOutcome msg qtype (settle b lib pref s now msg qtype name v).0
  unfolding settle
  settle-IsOutcome pref s now msg qtype name ips cfg es v c h k =
      elim (Bool-cases (is_nil v.winner)) [
        | inl empty ↦ rw empty (inl refl)
        | inr some_ip ↦ rw some_ip (elim (winner_reported ips cfg es v k) [
          | inl no_one ↦ absurd (ground arith)
          | inr won ↦
              narrow-IsOutcome msg qtype v.winner
                (carried_of_Any qtype msg.answer ips v.winner c (winner_raced ips es v h won))
        ])
      ]

  race_or_reuse-IsOutcome :
      (cfg : RaceConfig) (pref : Option PrefState) (s : S) (now : ℤ) (es : List Event) (msg : Msg)
      (qtype : ℕ) (ips : List Ip) (out : Msg) (s' : S)
      → AllCarried qtype msg.answer ips
      → All (ReportsOn ips) es
      → race_or_reuse b lib cfg pref s now es msg qtype ips ≡ some (out, s')
      → IsOutcome msg qtype out
  race_or_reuse-IsOutcome cfg pref s now es msg qtype ips out s' c h k =
      let name = question_name msg.question in
      let reused = apply_pref b type_string pref s now msg qtype name ips in
      elim (Option-cases reused.0) [
        | inr (m, hit) ↦
            let same : m ≡ out = unfold race_or_reuse in ground (arith, hit, k) in
            subst (IsOutcome msg qtype) same
              (apply_pref-IsOutcome pref s now msg qtype name ips m c hit)
        | inl miss ↦ elim (Option-cases (pick_winner ips cfg es)) [
          | inl waits ↦ absurd (unfold race_or_reuse in ground (arith, miss, waits, k))
          | inr (v, verdict) ↦
              let settled = settle b lib pref reused.1 now msg qtype name v in
              let same : settled.0 ≡ out =
                unfold race_or_reuse in ground (arith, miss, verdict, k) in
              subst (IsOutcome msg qtype) same
                (settle-IsOutcome pref reused.1 now msg qtype name ips cfg es v c h verdict)
        ]
      ]

  module _ (ip_string : Ip → Bytes) where
    apply_race-IsOutcome :
        (cfg : RaceConfig) (pref : Option PrefState) (s : S) (now : ℤ) (es : List Event) (msg : Msg)
        (qtype : ℕ) (out : Msg) (s' : S)
        → All (ReportsOn (answer_ips ip_string msg qtype)) es
        → apply_race b lib ip_string cfg pref s now es msg qtype ≡ some (out, s')
        → IsOutcome msg qtype out
    apply_race-IsOutcome cfg pref s now es msg qtype out s' h k =
        let ips = answer_ips ip_string msg qtype in
        let picked = answer_ips-IsSelection ip_string msg qtype in
        elim (race_cases cfg pref s now es msg qtype out s' k) [
          | inl same ↦ inl same
          | inr raced ↦
              race_or_reuse-IsOutcome cfg pref s now es msg qtype ips out s' picked.carried h raced
        ]
      where
        race_cases :
            (cfg : RaceConfig) (pref : Option PrefState) (s : S) (now : ℤ) (es : List Event)
            (msg : Msg) (qtype : ℕ) (out : Msg) (s' : S)
            → apply_race b lib ip_string cfg pref s now es msg qtype ≡ some (out, s')
            → (out ≡ msg)
              ⊎ (race_or_reuse b lib cfg pref s now es msg qtype (answer_ips ip_string msg qtype)
                  ≡ some (out, s'))
        race_cases cfg pref s now es msg qtype out s' k = unfold apply_race in ground arith

    -- What `Resolve` returns is the upstream's message, untouched or narrowed to one address that
    -- the upstream offered and that the result still offers, provided that every report of a
    -- probe is on an address that was raced.
    pub resolve-IsOutcome :
        (exchange : Msg → Option Msg) (r : Resolver) (s : S) (now : ℤ) (es : List Event)
        (name : Bytes) (qtype : ℕ) (resp out : Msg) (s' : S)
        → exchange (lib.set_question (lib.fqdn name) qtype) ≡ some resp
        → All (ReportsOn (answer_ips ip_string resp qtype)) es
        → resolve b lib ip_string exchange r s now es name qtype ≡ some (some out, s')
        → IsOutcome resp qtype out
    resolve-IsOutcome exchange r s now es name qtype resp out s' up h k =
        elim (Option-cases r.race) [
          | inl off ↦ inl (unfold resolve in ground (arith, up, off, k))
          | inr (cfg, on) ↦
              elim (Option-cases (apply_race b lib ip_string cfg r.pref s now es resp qtype)) [
                | inl waits ↦ absurd (unfold resolve in ground (arith, up, on, waits, k))
                | inr (o, raced) ↦
                    apply_race-IsOutcome cfg r.pref s now es resp qtype out s' h
                      (raced ∙ unfold resolve in ground (arith, up, on, raced, k))
              ]
        ]
