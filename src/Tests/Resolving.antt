-- ===== src/Tests/Resolving.antt =====
-- Resolutions at concrete answers.
use redis_dns.Prelude.{
  ℕ, ◌≡◌, refl, ◌⊎◌, inl, inr, [], ◌∷◌, ◌++◌, Option, none, some, true, false, arith, All,
}
use redis_dns.Prelude.Bytes.{Bytes, ascii, bytes_eq}
use redis_dns.Prelude.Int.{pos}
use redis_dns.Prelude.Decimal.{format_int, itoa}
use redis_dns.Net.{Ip, ip_equal}
use redis_dns.Dns.{Msg}
use redis_dns.Resolver.Ttl.{min_ttl, scan_ns, scan_answer, consider}
use redis_dns.Resolver.Ttl.Laws.{IsLeastPositive, answer_ttls, ns_ttls, min_ttl-IsLeastPositive}
use redis_dns.Resolver.Records.{record_ip, ip_in, narrow, answer_ips, collect_ips}
use redis_dns.Resolver.Race.{
  RaceConfig, TcpResult, tcp, done, init, terminal, receive, run, pick_winner, tcp_win, icmp_win,
}
use redis_dns.Resolver.Pref.{PrefState, PrefEntry, apply_entry, apply_pref, store_pref, pref_key}
use redis_dns.Resolver.Pref.Reuse.{Remembers}
use redis_dns.Resolver.Pref.Redis.{IpText, IsStorable}
use redis_dns.Resolver.Resolve.{Resolver, settle, race_or_reuse, apply_race, resolve}
use redis_dns.Resolver.Resolve.Narrowing.{IsOutcome, ReportsOn, resolve-IsOutcome}
use redis_dns.Resolver.Resolve.Returning.{resolve_returns}
use redis_dns.Tests.Samples.{ip1, ip2, name, two_ips, query, lib, shelf}

abbrev config : RaceConfig
config = record {
  ports = pos 443 ∷ pos 80 ∷ [];
  timeout = pos 1000000000;
  tcp_deadline = pos 200000000;
  has_ping = false;
}

abbrev pref : PrefState
pref = record { ttl = pos 1000; neg_ttl = pos 100; recheck_hits = pos 5; recheck_age = pos 500 }

abbrev racing : Resolver
racing = record { race = some config; pref = some pref }

abbrev https : TcpResult
https = record { ip = ip2; port_idx = 0; port = pos 443; rtt = 30; good = true }

abbrev upstream : Msg → Option Msg
upstream m = some two_ips

abbrev text : Ip → Bytes
text ip = ip

-- All that a resolution calls.
program : Unit {0}
unfolding resolve apply_race race_or_reuse settle apply_pref apply_entry store_pref pref_key
    answer_ips collect_ips record_ip ip_in narrow ip_equal bytes_eq pick_winner run receive terminal
    init tcp_win icmp_win min_ttl format_int itoa scan_ns scan_answer consider
program = tt

narrowed :
    resolve shelf lib text upstream racing none (pos 7) (tcp https ∷ []) name 1
    ≡ some (
      some (narrow two_ips 1 ip2),
      some
          (record { ip = ip2; via = ascii "tcp/443"; rtt = pos 30; hits = pos 1; updated = pos 7 }),
    )
unfolding program
narrowed = refl

reports : All (ReportsOn (answer_ips text two_ips 1)) (tcp https ∷ [])
unfolding program
reports = (inr (inl refl), tt)

resolve-IsOutcome_example : IsOutcome two_ips 1 (narrow two_ips 1 ip2)
resolve-IsOutcome_example =
    resolve-IsOutcome shelf lib text upstream racing none (pos 7) (tcp https ∷ []) name 1 two_ips
      (narrow two_ips 1 ip2)
      (some
        (record { ip = ip2; via = ascii "tcp/443"; rtt = pos 30; hits = pos 1; updated = pos 7 }))
      refl reports narrowed

abbrev unheard : Option (Option Msg × Option PrefEntry)
unheard = resolve shelf lib text upstream racing none (pos 7) (done ∷ []) name 1

resolve_returns_example :
    ((upstream query ≡ none) × (unheard ≡ some (none, none)))
    ⊎ ((resp : Msg) × (out : Msg) × (s' : Option PrefEntry) × (upstream query ≡ some resp)
        × (unheard ≡ some (some out, s')))
resolve_returns_example =
    resolve_returns shelf lib text upstream racing none (pos 7) (done ∷ []) name 1 (inl refl)

both : answer_ips text two_ips 1 ≡ ip1 ∷ ip2 ∷ []
unfolding program
both = refl

min_ttl-IsLeastPositive_example :
    IsLeastPositive (min_ttl two_ips) (answer_ttls two_ips.answer ++ ns_ttls two_ips.ns)
min_ttl-IsLeastPositive_example = min_ttl-IsLeastPositive two_ips

thirty : min_ttl two_ips ≡ 30
unfolding program
thirty = refl

-- The preferred-IP cache.
abbrev entry : PrefEntry
entry = record { ip = ip2; via = ascii "tcp/443"; rtt = pos 30; hits = pos 1; updated = pos 7 }

shelf_remembers : Remembers shelf (λ t. b'A' ∷ [])
shelf_remembers s key e ttl = refl

listed : ip_in (ip1 ∷ ip2 ∷ []) ip2 ≡ true
unfolding program
listed = refl

abbrev stored : Option PrefEntry
stored = store_pref shelf (λ t. b'A' ∷ []) (some pref) none (pos 7) name 1 ip2 (ascii "tcp/443") 30

abbrev failure : Option PrefEntry
failure = store_pref shelf (λ t. b'A' ∷ []) (some pref) none (pos 7) name 1 [] [] 0

abbrev plain_text : IpText
plain_text = record { ip_string = λ ip. ip; parse_ip = λ s. s }

entry-IsStorable : IsStorable entry
entry-IsStorable = record {
  rtt_fits = record { lower = omega arith; upper = omega arith };
  hits_fits = record { lower = omega arith; upper = omega arith };
  updated_fits = record { lower = omega arith; upper = omega arith };
}

abbrev aaaa_type : ℕ
aaaa_type = 28
