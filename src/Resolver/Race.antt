-- ===== src/Resolver/Race.antt =====
-- internal/resolver/race.go: `raceConfig`, `EnableRace` and `pickWinner`. The probes report over
-- channels and the loop selects among them, so the loop's variables are a state, what `select`
-- receives is an event, and one order of arrival is a list of events. Times are in nanoseconds.
pub mod Trace
pub mod Winner
pub mod Progress
pub mod Fastest
pub mod Preference
use redis_dns.Prelude.{
  ℕ, ◌+◌, ◌-◌, ◌*◌, ◌/◌, Bool, true, false, not, ◌&&◌, ◌||◌, List, [], ◌∷◌, ◌++◌, Option, none,
  some, ltb, ◌==◌, if◌then◌else◌, length, or_else,
}
use mathlib.Core.Option
use redis_dns.Prelude.Bytes.{Bytes, ascii}
use redis_dns.Prelude.Decimal.{format_int}
use redis_dns.Prelude.Int.{ℤ, pos, leb_ℤ, nonpos, quot}
use redis_dns.Net.{Ip}

-- `time.Second`
abbrev pub second : ℕ
second = 1000000000

-- `ping != nil` is `has_ping`; how a probe is made is the environment's.
pub record RaceConfig : Type 0 where
  pub ports : List ℤ
  pub timeout : ℤ
  pub tcp_deadline : ℤ
  pub has_ping : Bool

-- `EnableRace`
unfoldable pub enable_race : List ℤ → ℤ → ℤ → Bool → RaceConfig
enable_race ports timeout tcp_deadline icmp = record {
  ports = if length ports == 0 then pos 443 ∷ pos 80 ∷ [] else ports;
  timeout = if nonpos timeout then pos second else timeout;
  tcp_deadline = tcp_deadline;
  has_ping = icmp;
}

-- The two adjustments at the top of `pickWinner`: the budget and the window of the TCP probes.
unfoldable pub race_budget : ℤ → ℤ
race_budget timeout = if nonpos timeout then pos second else timeout

unfoldable pub tcp_window : ℤ → ℤ → Bool → ℤ
tcp_window timeout tcp_deadline has_ping =
    if nonpos tcp_deadline || leb_ℤ timeout tcp_deadline
    then (if has_ping then quot timeout 2 else timeout)
    else tcp_deadline

pub record TcpResult : Type 0 where
  pub ip : Ip
  pub port_idx : ℕ
  pub port : ℤ
  pub rtt : ℕ
  pub good : Bool

pub record IcmpResult : Type 0 where
  pub ip : Ip
  pub rtt : ℕ
  pub good : Bool

-- What one `select` receives.
pub data Event : Type 0 where
  tcp : TcpResult → Event
  icmp : IcmpResult → Event
  deadline : Event
  done : Event

-- The variables of the loop.
pub record Race : Type 0 where
  pub tcp_pending : ℕ
  pub icmp_pending : ℕ
  pub tcp_live : Bool
  pub fallback : Option TcpResult
  pub best_icmp : Option IcmpResult

-- The three results of `pickWinner`.
pub record Verdict : Type 0 where
  pub winner : Ip
  pub via : Bytes
  pub rtt : ℕ

unfoldable pub tcp_win : TcpResult → Verdict
tcp_win r = record { winner = r.ip; via = ascii "tcp/" ++ format_int r.port; rtt = r.rtt }

unfoldable pub icmp_win : IcmpResult → Verdict
icmp_win p = record { winner = p.ip; via = ascii "icmp"; rtt = p.rtt }

-- `return nil, "", 0`
abbrev pub no_winner : Verdict
no_winner = record { winner = []; via = []; rtt = 0 }

unfoldable pub init : List Ip → List ℤ → Bool → Race
init ips ports has_ping = record {
  tcp_pending = length ips * length ports;
  icmp_pending = if has_ping then length ips else 0;
  tcp_live = true;
  fallback = none;
  best_icmp = none;
}

-- The checks before each `select`.
unfoldable pub terminal : Race → Option Verdict
terminal s = or_else (if s.tcp_pending == 0 then Option.map tcp_win s.fallback else none) (
    or_else (if s.tcp_pending == 0 || not s.tcp_live then Option.map icmp_win s.best_icmp else none)
      (if s.tcp_pending == 0 && s.icmp_pending == 0
        then some no_winner
        else if not s.tcp_live && s.icmp_pending == 0
        then some no_winner
        else none))

-- One case of the `select` returns, or the loop goes on.
pub data Turn : Type 0 where
  stop : Verdict → Turn
  go : Race → Turn

-- `fallback == nil || r.rtt < fallback.rtt`, and the same for `bestICMP`.
abbrev pub faster_tcp : TcpResult → Option TcpResult → Option TcpResult
faster_tcp r none = some r
faster_tcp r (some f) = if ltb r.rtt f.rtt then some r else some f

abbrev pub faster_icmp : IcmpResult → Option IcmpResult → Option IcmpResult
faster_icmp p none = some p
faster_icmp p (some b) = if ltb p.rtt b.rtt then some p else some b

abbrev pub is_none {ℓ} : {A : Type ℓ} → Option A → Bool
is_none none = true
is_none (some _) = false

-- The end of the TCP case: with every dial back and no success, ICMP takes over.
abbrev conclude_tcp : Race → Race
conclude_tcp s =
    if s.tcp_pending == 0 && is_none s.fallback && is_none s.best_icmp && ltb 0 s.icmp_pending
    then record s { tcp_live = false }
    else s

on_tcp : TcpResult → Race → Turn
on_tcp r s =
    let t = record s { tcp_pending = s.tcp_pending - 1 } in
    if t.tcp_live && r.good
    then (if r.port_idx == 0
        then stop (tcp_win r)
        else go (conclude_tcp (record t { fallback = faster_tcp r t.fallback })))
    else go (conclude_tcp t)

on_icmp : IcmpResult → Race → Turn
on_icmp p s =
    let t = record s { icmp_pending = s.icmp_pending - 1 } in
    go (if p.good then record t { best_icmp = faster_icmp p t.best_icmp } else t)

abbrev first_win : Option TcpResult → Option IcmpResult → Turn → Turn
first_win (some f) b rest = stop (tcp_win f)
first_win none (some b) rest = stop (icmp_win b)
first_win none none rest = rest

on_deadline : Race → Turn
on_deadline s =
    let t = record s { tcp_live = false } in
    first_win t.fallback t.best_icmp (if t.icmp_pending == 0 then stop no_winner else go t)

abbrev last_win : Option IcmpResult → Option TcpResult → Verdict
last_win (some b) f = icmp_win b
last_win none (some f) = tcp_win f
last_win none none = no_winner

unfoldable pub receive : Event → Race → Turn
unfolding on_tcp on_icmp on_deadline
receive (tcp r) s = on_tcp r s
receive (icmp p) s = on_icmp p s
receive deadline s = on_deadline s
receive done s = stop (last_win s.best_icmp s.fallback)

-- The loop over one order of arrival; `none` while it still waits for an event.
unfoldable pub run : Race → List Event → Option Verdict
run s [] = terminal s
run s (e ∷ es) = elim (terminal s) [
  | some v ↦ some v
  | none ↦ elim (receive e s) [ stop v ↦ some v | go t ↦ run t es ]
]

unfoldable pub pick_winner : List Ip → RaceConfig → List Event → Option Verdict
unfolding init
pick_winner ips cfg es = run (init ips cfg.ports cfg.has_ping) es
