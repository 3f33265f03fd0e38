-- ===== src/Resolver/Resolve.antt =====
-- internal/resolver/resolver.go and race.go: `Resolve` and `applyRace`. The exchange with the
-- upstream server and the text of an address are parameters. A row of events says in which order
-- the probes of a race report; the outer `none` of a result says that the race still waits.
pub mod Narrowing
pub mod Returning
use redis_dns.Prelude.{
  ℕ, Bool, true, false, not, ◌&&◌, ◌||◌, List, [], ◌∷◌, Option, none, some, if◌then◌else◌, length,
  ltb, ◌==◌, ◌>>=◌,
}
use mathlib.Core.Option
use redis_dns.Prelude.Bytes.{Bytes}
use redis_dns.Prelude.Int.{ℤ}
use redis_dns.Net.{Ip, is_nil}
use redis_dns.Dns.{Msg, Question, DnsLib, type_a, type_aaaa, rcode_success}
use redis_dns.Resolver.Records.{answer_ips, narrow}
use redis_dns.Resolver.Race.{RaceConfig, Event, Verdict, pick_winner}
use redis_dns.Resolver.Pref.{PrefState, PrefBackend, apply_pref, store_pref}

-- `Resolver`, beside what the exchange needs.
pub record Resolver : Type 0 where
  pub race : Option RaceConfig
  pub pref : Option PrefState

-- `New`: racing and the preferred-IP cache are off.
unfoldable pub new : Resolver
new = record { race = none; pref = none }

-- The name of the first question.
abbrev pub question_name : List Question → Bytes
question_name [] = []
question_name (q ∷ qs) = q.name

module _ {S : Type 0} (b : PrefBackend S) (lib : DnsLib) where
  open lib use {type_string, fqdn, set_question}

  -- The end of `applyRace`, from the verdict on.
  unfoldable pub settle : Option PrefState → S → ℤ → Msg → ℕ → Bytes → Verdict → Msg × S
  settle pref s now msg qtype name v =
      if is_nil v.winner then (msg, store_pref b type_string pref s now name qtype [] [] 0) else (
        narrow msg qtype v.winner,
        store_pref b type_string pref s now name qtype v.winner v.via v.rtt,
      )

  -- The middle of `applyRace`, for two or more addresses.
  unfoldable pub race_or_reuse :
      RaceConfig → Option PrefState → S → ℤ → List Event → Msg → ℕ → List Ip → Option (Msg × S)
  race_or_reuse cfg pref s now events msg qtype ips =
      let name = question_name msg.question in
      let (out, s') = apply_pref b type_string pref s now msg qtype name ips in
      elim out [
        | some m ↦ some (m, s')
        | none ↦ Option.map (settle pref s' now msg qtype name) (pick_winner ips cfg events)
      ]

  unfoldable pub apply_race :
      (Ip → Bytes) → RaceConfig → Option PrefState → S → ℤ → List Event → Msg → ℕ → Option (Msg × S)
  apply_race ip_string cfg pref s now events msg qtype =
      let ips = answer_ips ip_string msg qtype in
      if not (msg.rcode == rcode_success)
      then some (msg, s)
      else if not (qtype == type_a) && not (qtype == type_aaaa)
      then some (msg, s)
      else if ltb (length ips) 2
      then some (msg, s)
      else race_or_reuse cfg pref s now events msg qtype ips

  -- The inner `none` stands for an error of the exchange.
  unfoldable pub resolve :
      (Ip → Bytes)
      → (Msg → Option Msg)
      → Resolver
      → S
      → ℤ
      → List Event
      → Bytes
      → ℕ
      → Option (Option Msg × S)
  resolve ip_string exchange r s now events name qtype =
      elim (exchange (set_question (fqdn name) qtype)) [
        | none ↦ some (none, s)
        | some resp ↦ elim r.race [
          | none ↦ some (some resp, s)
          | some cfg ↦
              Option.map (λ (out : Msg × S). (some out.0, out.1))
                (apply_race ip_string cfg r.pref s now events resp qtype)
        ]
      ]
