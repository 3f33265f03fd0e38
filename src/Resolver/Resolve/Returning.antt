-- ===== src/Resolver/Resolve/Returning.antt =====
-- internal/resolver: `Resolve` always comes back, and its errors are the exchange's alone.
use redis_dns.Prelude.{
  ℕ, ◌≡◌, ◌∙◌, ◌⊎◌, inl, inr, List, Option, none, some, arith, Any, Option-cases,
}
use redis_dns.Prelude.Bytes.{Bytes}
use redis_dns.Prelude.Int.{ℤ}
use redis_dns.Net.{Ip}
use redis_dns.Dns.{Msg, DnsLib}
use redis_dns.Resolver.Records.{answer_ips}
use redis_dns.Resolver.Race.{RaceConfig, Event, done}
use redis_dns.Resolver.Race.Progress.{pick_winner_returns}
use redis_dns.Resolver.Pref.{PrefState, PrefBackend, apply_pref}
use redis_dns.Resolver.Resolve.{Resolver, question_name, settle, race_or_reuse, apply_race, resolve}

module _ {S : Type 0} (b : PrefBackend S) (lib : DnsLib) where
  open lib use {type_string}

  race_or_reuse_returns :
      (cfg : RaceConfig) (pref : Option PrefState) (s : S) (now : ℤ) (es : List Event) (msg : Msg)
      (qtype : ℕ) (ips : List Ip)
      → Any (λ e. e ≡ done) es
      → (x : Msg × S) × (race_or_reuse b lib cfg pref s now es msg qtype ips ≡ some x)
  race_or_reuse_returns cfg pref s now es msg qtype ips m =
      let name = question_name msg.question in
      let reused = apply_pref b type_string pref s now msg qtype name ips in
      elim (Option-cases reused.0) [
        | inr (out, hit) ↦ ((out, reused.1), unfold race_or_reuse in ground (arith, hit))
        | inl miss ↦
            let (v, verdict) = pick_winner_returns ips cfg es (inl m) in
            (
              settle b lib pref reused.1 now msg qtype name v,
              unfold race_or_reuse in ground (arith, miss, verdict),
            )
      ]

  module _ (ip_string : Ip → Bytes) where
    apply_race_cases :
        (cfg : RaceConfig) (pref : Option PrefState) (s : S) (now : ℤ) (es : List Event) (msg : Msg)
        (qtype : ℕ)
        → (apply_race b lib ip_string cfg pref s now es msg qtype ≡ some (msg, s))
          ⊎ (apply_race b lib ip_string cfg pref s now es msg qtype
              ≡ race_or_reuse b lib cfg pref s now es msg qtype (answer_ips ip_string msg qtype))
    unfolding apply_race
    apply_race_cases cfg pref s now es msg qtype = ground arith

    apply_race_returns :
        (cfg : RaceConfig) (pref : Option PrefState) (s : S) (now : ℤ) (es : List Event) (msg : Msg)
        (qtype : ℕ)
        → Any (λ e. e ≡ done) es
        → (x : Msg × S) × (apply_race b lib ip_string cfg pref s now es msg qtype ≡ some x)
    apply_race_returns cfg pref s now es msg qtype m =
        elim (apply_race_cases cfg pref s now es msg qtype) [
          | inl same ↦ ((msg, s), same)
          | inr races ↦
              let ips = answer_ips ip_string msg qtype in
              let (x, e) = race_or_reuse_returns cfg pref s now es msg qtype ips m in (x, races ∙ e)
        ]

    -- Once the budget of the race ends, `Resolve` returns, whatever the probes, the preferred-IP
    -- cache and the upstream did: with an error if the exchange failed, and then with the cache
    -- untouched, and with a message if the exchange gave one.
    pub resolve_returns :
        (exchange : Msg → Option Msg) (r : Resolver) (s : S) (now : ℤ) (es : List Event)
        (name : Bytes) (qtype : ℕ)
        → Any (λ e. e ≡ done) es
        → let sent = lib.set_question (lib.fqdn name) qtype in
          let result = resolve b lib ip_string exchange r s now es name qtype in
          ((exchange sent ≡ none) × (result ≡ some (none, s)))
          ⊎ ((resp : Msg) × (out : Msg) × (s' : S) × (exchange sent ≡ some resp)
              × (result ≡ some (some out, s')))
    resolve_returns exchange r s now es name qtype m =
        elim (Option-cases (exchange (lib.set_question (lib.fqdn name) qtype))) [
          | inl down ↦ inl (down, unfold resolve in ground (arith, down))
          | inr (resp, up) ↦ inr (elim (Option-cases r.race) [
            | inl off ↦ (resp, resp, s, up, unfold resolve in ground (arith, up, off))
            | inr (cfg, on) ↦
                let (x, e) = apply_race_returns cfg r.pref s now es resp qtype m in
                (resp, x.0, x.1, up, unfold resolve in ground (arith, up, on, e))
          ])
        ]
