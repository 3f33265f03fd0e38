-- ===== src/Commands/Running.antt =====
-- cmd/server/main.go and cmd/client/main.go: when a command gets its parts running.
use redis_dns.Prelude.{
  none_clash, ℕ, zero, suc, ◌<◌, ◌≤◌, ◌≡◌, ◌≢◌, ◌↔◌, refl, sym, subst, inl, inr, true, not, List,
  [], ◌∷◌, ◌++◌, Option, none, some, arith, All, length,
}
use redis_dns.Prelude.Bytes.{Bytes}
use redis_dns.Prelude.Int.{pos, ◌<ℤ◌, ltb_ℤ}
use redis_dns.Net.{is_nil}
use redis_dns.Config.{Config, loaded, load}
use redis_dns.Config.Laws.{IsFinal, load-IsLoaded}
use redis_dns.Client
use redis_dns.Server.Worker.{run, ensure_group}
use redis_dns.Commands.{
  Attempt, pong, waited, cancelled, reachable, ping_from, ping, server_of, client_of, ServerUp,
  ClientUp, up, server_main, client_main, client_up, client_up,
}
use redis_dns.Commands.Startup.{IsSoundServer, IsInRange, server_up-IsSoundServer, pool_positive}

ping_from-reachable :
    (n : ℕ) (waits rest : List Attempt)
    → All (λ a. a ≡ waited) waits
    → length waits < n
    → ping_from n (waits ++ pong ∷ rest) ≡ some reachable
unfolding ping_from
ping_from-reachable zero waits rest all h = absurd (omega (arith, h))
ping_from-reachable (suc n) [] rest all h = refl
ping_from-reachable (suc n) (a ∷ waits) rest (e, all) h =
    rw (e, ping_from) (ping_from-reachable n waits rest all (omega (arith, h)))

-- `ping` returns once it has made ten attempts.
ping_from_returns : (n : ℕ) (as' : List Attempt) → n ≤ length as' → ping_from n as' ≢ none
unfolding ping_from
ping_from_returns zero as' h = λ e. none_clash (sym e)
ping_from_returns (suc n) [] h = absurd (omega (arith, h))
ping_from_returns (suc n) (pong ∷ as') h = λ e. none_clash (sym e)
ping_from_returns (suc n) (cancelled ∷ as') h = λ e. none_clash (sym e)
ping_from_returns (suc n) (waited ∷ as') h = ping_from_returns n as' (omega (arith, h))

module _ (getenv : Bytes → Bytes) (read_file : Bytes → Option Bytes)
    (unmarshal : Bytes → Config → Option Config) where
  -- What `Load` returns is final.
  loaded-IsFinal :
      (path : Bytes) (cfg : Config)
      → load getenv read_file unmarshal path ≡ loaded cfg
      → IsFinal cfg
  loaded-IsFinal path cfg h = elim (load-IsLoaded getenv read_file unmarshal path) [
    | inl (unread, _, _) ↦ absurd (cc)
    | inr (inl (_, unparsed, _, _)) ↦ absurd (cc)
    | inr (inr (cfg', is, l)) ↦ subst IsFinal (cc) l.final
  ]

  -- A server whose configuration loads and fits in durations, whose Redis answers one of the first
  -- ten pings and whose group is there or can be created, gets its parts running, and runs them
  -- with a pool, an upstream timeout and limits that are positive, at least one worker, a name of
  -- its own for each worker, and a race with its cache unless racing is switched off.
  pub server_main_starts :
      (split_host : Bytes → Option Bytes) (path : Bytes) (cfg : Config)
      → load getenv read_file unmarshal path ≡ loaded cfg
      → IsInRange cfg
      → (waits rest : List Attempt) → All (λ a. a ≡ waited) waits
      → length waits < 10
      → (created : Option Bytes) → ensure_group created ≡ none
      → (u : ServerUp) × (server_main split_host
            (load getenv read_file unmarshal path)
            (waits ++ pong ∷ rest)
            created
          ≡ some (up u))
        × IsSoundServer cfg u
  unfolding server_main ping run
  server_main_starts split_host path cfg loads fits waits rest all few created there =
      let final = loaded-IsFinal path cfg loads in
      let answers = ping_from-reachable 10 waits rest all few in
      (
        _,
        rw loads (rw (answers, server_main) (rw (there, run) refl)),
        server_up-IsSoundServer split_host cfg final fits (ltb_ℤ (pos 0) (server_of cfg).prefetch),
      )

-- A command that ever runs its pings has their result after ten at most.
pub ping_returns : (as' : List Attempt) → 10 ≤ length as' → ping as' ≢ none
unfolding ping
ping_returns as' h = ping_from_returns 10 as' h

-- What a client runs with.
pub record IsSoundClient (cfg : Config) (u : ClientUp) : Type 0 where
  pub pool : pos 0 <ℤ u.options.pool_size
  pub keepalive : pos 0 <ℤ u.keepalive
  pub block : pos 0 <ℤ u.client.block
  pub local_ttl : pos 0 <ℤ u.client.local_ttl
  pub follows : (u.follows ≡ true) ↔ (cfg.follow.api ≢ [])
  pub serves_doh : (u.serves_doh ≡ true) ↔ (cfg.doh_listen ≢ [])

is_nil_iff : (x : Bytes) → (not (is_nil x) ≡ true) ↔ (x ≢ [])
is_nil_iff [] = (λ h. absurd cc, λ h. absurd (h refl))
is_nil_iff (c ∷ x) = (λ h e. absurd cc, λ h. refl)

client_settings_positive :
    (cfg : Config) → (pos 0 <ℤ (client_of cfg).block) × (pos 0 <ℤ (client_of cfg).local_ttl)
unfolding client_of Client.new
client_settings_positive cfg = (ground arith, ground arith)

-- A client whose configuration loads and whose Redis answers one of the first ten pings gets its
-- parts running, with a pool, a waiting time, a local lifetime and a keepalive interval that are
-- positive, also for settings that overflow; it follows a controller just if it is given one and
-- serves DoH just if it is given an address for it.
client_main_starts :
    (split_host : Bytes → Option Bytes) (cfg : Config) (waits rest : List Attempt)
    → All (λ a. a ≡ waited) waits
    → length waits < 10
    → (u : ClientUp) × (client_main split_host (loaded cfg) (waits ++ pong ∷ rest) ≡ some (up u))
      × IsSoundClient cfg u
unfolding client_main ping
client_main_starts split_host cfg waits rest all few =
    let answers = ping_from-reachable 10 waits rest all few in
    let (block, local_ttl) = client_settings_positive cfg in
    (
      client_up split_host cfg,
      rw (answers, client_main) refl,
      record {
        pool = pool_positive split_host cfg 8 (omega arith);
        keepalive = omega arith;
        block = block;
        local_ttl = local_ttl;
        follows = is_nil_iff cfg.follow.api;
        serves_doh = is_nil_iff cfg.doh_listen;
      },
    )
