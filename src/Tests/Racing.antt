-- ===== src/Tests/Racing.antt =====
-- Races at concrete reports.
use redis_dns.Prelude.{ℕ, ◌≡◌, refl, ◌⊎◌, inl, inr, List, [], ◌∷◌, ◌++◌, none, some, true, Any}
use redis_dns.Prelude.Int.{pos}
use redis_dns.Resolver.Race.{
  RaceConfig, TcpResult, IcmpResult, Race, Verdict, tcp, icmp, done, init, terminal, receive, run,
  pick_winner, tcp_win, icmp_win, no_winner,
}
use redis_dns.Resolver.Race.Trace.{after}
use redis_dns.Resolver.Race.Winner.{WonBy, winner_reported}
use redis_dns.Resolver.Race.Progress.{pick_winner_returns}
use redis_dns.Resolver.Race.Preference.{Waits}
use redis_dns.Tests.Samples.{ip1, ip2}

abbrev ips : List (List ℕ)
ips = ip1 ∷ ip2 ∷ []

abbrev config : RaceConfig
config = record {
  ports = pos 443 ∷ pos 80 ∷ [];
  timeout = pos 1000000000;
  tcp_deadline = pos 200000000;
  has_ping = true;
}

abbrev https : TcpResult
https = record { ip = ip2; port_idx = 0; port = pos 443; rtt = 30; good = true }

abbrev http : TcpResult
http = record { ip = ip1; port_idx = 1; port = pos 80; rtt = 20; good = true }

abbrev slow_http : TcpResult
slow_http = record { ip = ip2; port_idx = 1; port = pos 80; rtt = 50; good = true }

abbrev echo : IcmpResult
echo = record { ip = ip2; rtt = 5; good = true }

abbrev slow_echo : IcmpResult
slow_echo = record { ip = ip1; rtt = 8; good = true }

-- All that the loop calls.
program : Unit {0}
unfolding pick_winner run receive terminal init tcp_win icmp_win after
program = tt

https_wins : pick_winner ips config (tcp http ∷ tcp https ∷ []) ≡ some (tcp_win https)
unfolding program
https_wins = refl

winner_reported_example :
    (tcp_win https ≡ no_winner) ⊎ Any (WonBy (tcp_win https)) (tcp http ∷ tcp https ∷ [])
winner_reported_example =
    winner_reported ips config (tcp http ∷ tcp https ∷ []) (tcp_win https) https_wins

pick_winner_returns_example :
    (v : Verdict) × (pick_winner ips config (tcp http ∷ done ∷ []) ≡ some v)
pick_winner_returns_example =
    pick_winner_returns ips config (tcp http ∷ done ∷ []) (inl (inr (inl refl)))

-- After a held success on the second port and a ping, the loop waits.
abbrev waiting : Race
waiting = record {
  tcp_pending = 2;
  icmp_pending = 1;
  tcp_live = true;
  fallback = some http;
  best_icmp = some echo;
}

waits : Waits ips config (tcp slow_http ∷ tcp http ∷ icmp echo ∷ []) waiting
unfolding program
waits = (refl, refl)

abbrev pinged : Race
pinged = record {
  tcp_pending = 4;
  icmp_pending = 0;
  tcp_live = true;
  fallback = none;
  best_icmp = some echo;
}

pinged_waits : Waits ips config (icmp slow_echo ∷ icmp echo ∷ []) pinged
unfolding program
pinged_waits = (refl, refl)

budget_ends :
    pick_winner ips config ((icmp slow_echo ∷ icmp echo ∷ []) ++ done ∷ []) ≡ some (icmp_win echo)
unfolding program
budget_ends = refl
