-- ===== src/Commands/Startup.antt =====
-- cmd/server/main.go and cmd/client/main.go: what a command runs with, once its configuration is read.
use redis_dns.Prelude.{
  ℕ, zero, suc, ◌+◌, ◌<◌, ◌≡◌, ◌≢◌, ap, ◌⊎◌, inl, inr, Bool, true, false, List, [], ◌∷◌, ◌++◌,
  Option, none, some, arith, All, Bool-cases, length, drop,
}
use redis_dns.Prelude.Bytes.{Bytes}
use redis_dns.Prelude.Decimal.{itoa, itoa_inj}
use redis_dns.Prelude.Int.{nonpos, ℤ, pos, negsuc, ◌≤ℤ◌, ◌<ℤ◌, ◌*64◌, *64-pos}
use redis_dns.Config.{
  Config, second, is_enabled, port_list, timeout_dur, tcp_deadline_dur, icmp_enabled, pref_ttl_dur,
  pref_neg_ttl_dur, recheck_hits_n, recheck_age_dur,
}
use redis_dns.Config.Laws.{
  scaled_positive, IsFinal, IsFitting, IsUsableRace, IsFitting-IsUsableRace, Fits,
}
use redis_dns.Redisx.{prefix_inj, new_options}
use redis_dns.Resolver.Race.{RaceConfig, enable_race}
use redis_dns.Resolver.Pref.{PrefState, enable_pref}
use redis_dns.Resolver.Resolve
use redis_dns.Server.{Server}
use redis_dns.Server
use redis_dns.Server.Worker.{consumer_names, count_of}
use redis_dns.Commands.{redis_options, resolver_of, upstream_timeout, server_of, ServerUp}

abbrev Positive : ℤ → Type 0
Positive a = pos 0 <ℤ a

-- No two elements are the same.
abbrev pub Distinct : List Bytes → Type 0
Distinct [] = Unit
Distinct (x ∷ xs) = All (λ y. x ≢ y) xs × Distinct xs

name_differs :
    (consumer : Bytes) (i j : ℕ) → i < j → consumer ++ b'-' ∷ itoa i ≢ consumer ++ b'-' ∷ itoa j
name_differs consumer i j h = λ e.
    let same = itoa_inj i j (ap (drop 1) (prefix_inj consumer _ _ e)) in
    absurd (omega (arith, h, same))

consumer_names-later :
    (consumer : Bytes) (i j n : ℕ)
    → i < j
    → All (λ y. consumer ++ b'-' ∷ itoa i ≢ y) (consumer_names consumer j n)
unfolding consumer_names
consumer_names-later consumer i j zero h = tt
consumer_names-later consumer i j (suc n) h =
    (name_differs consumer i j h, consumer_names-later consumer i (j + 1) n (omega (arith, h)))

consumer_names-Distinct : (consumer : Bytes) (i n : ℕ) → Distinct (consumer_names consumer i n)
unfolding consumer_names
consumer_names-Distinct consumer i zero = tt
consumer_names-Distinct consumer i (suc n) = (
  consumer_names-later consumer i (i + 1) n (omega arith),
  consumer_names-Distinct consumer (i + 1) n,
)

length-consumer_names : (consumer : Bytes) (i n : ℕ) → length (consumer_names consumer i n) ≡ n
unfolding consumer_names
length-consumer_names consumer i zero = omega arith
length-consumer_names consumer i (suc n) = omega (arith, length-consumer_names consumer (i + 1) n)

-- A race and its cache as they reach the resolver.
pub record IsRacing (race : RaceConfig) (pref : PrefState) : Type 0 where
  pub timeout : Positive race.timeout
  pub tcp_deadline : Positive race.tcp_deadline
  pub ports : 0 < length race.ports
  pub ttl : Positive pref.ttl
  pub neg_ttl : Positive pref.neg_ttl
  pub recheck_hits : Positive pref.recheck_hits
  pub recheck_age : Positive pref.recheck_age

-- What a server runs with: a pool, a timeout, a limit for the response stream, at least one worker, each with a
-- name of its own, and a race with its cache unless that is switched off.
pub record IsSoundServer (cfg : Config) (u : ServerUp) : Type 0 where
  pub pool : Positive u.options.pool_size
  pub timeout : Positive u.timeout
  pub resp_max : Positive u.server.resp_max
  pub neg_ttl : pos 0 ≤ℤ u.server.neg_ttl
  pub some_worker : 0 < length u.started.consumers
  pub distinct : Distinct u.started.consumers
  pub race :
      ((is_enabled cfg.race ≡ false) × (u.resolver.race ≡ none) × (u.resolver.pref ≡ none))
      ⊎ ((is_enabled cfg.race ≡ true)
          × (race : RaceConfig) × (pref : PrefState) × (u.resolver.race ≡ some race)
          × (u.resolver.pref ≡ some pref)
          × IsRacing race pref)

-- Settings that fit in a duration.
pub record IsInRange (cfg : Config) : Type 0 where
  pub timeout : Fits cfg.upstream.timeout second
  pub neg_ttl : Fits cfg.neg_ttl second
  pub race : IsFitting cfg.race

module _ (split_host : Bytes → Option Bytes) (cfg : Config) where
  pub pool_positive : (n : ℕ) → 0 < n → Positive (redis_options split_host n cfg).pool_size
  unfolding new_options
  pool_positive n h = ground arith

  scaled_nonneg : (a : ℤ) → pos 0 ≤ℤ a → Fits a second → pos 0 ≤ℤ (a *64 second)
  scaled_nonneg (pos n) h f = rw (*64-pos n second f) (omega arith)
  scaled_nonneg (negsuc n) h f = absurd (omega (arith, h))

  enabled-IsRacing :
      IsUsableRace cfg.race
      → let r = cfg.race in
        IsRacing
          (enable_race (port_list r) (timeout_dur r) (tcp_deadline_dur r) (icmp_enabled r))
          (enable_pref (pref_ttl_dur r) (pref_neg_ttl_dur r) (recheck_hits_n r) (recheck_age_dur r))
  unfolding enable_race enable_pref
  enabled-IsRacing usable = record {
    timeout = ground arith;
    tcp_deadline = usable.tcp_deadline;
    ports = ground arith;
    ttl = ground arith;
    neg_ttl = ground arith;
    recheck_hits = ground arith;
    recheck_age = ground arith;
  }

  racing :
      IsFitting cfg.race
      → ((is_enabled cfg.race ≡ false)
          × ((resolver_of cfg).race ≡ none)
          × ((resolver_of cfg).pref ≡ none))
        ⊎ ((is_enabled cfg.race ≡ true)
            × (race : RaceConfig) × (pref : PrefState) × ((resolver_of cfg).race ≡ some race)
            × ((resolver_of cfg).pref ≡ some pref)
            × IsRacing race pref)
  unfolding resolver_of Resolve.new
  racing fits = elim (Bool-cases (is_enabled cfg.race)) [
    | inr off ↦ inl (off, rw off, rw off)
    | inl on ↦
        let r = cfg.race in
        let usable = IsFitting-IsUsableRace r fits in
        inr (
          on,
          enable_race (port_list r) (timeout_dur r) (tcp_deadline_dur r) (icmp_enabled r),
          enable_pref (pref_ttl_dur r) (pref_neg_ttl_dur r) (recheck_hits_n r) (recheck_age_dur r),
          rw on,
          rw on,
          enabled-IsRacing usable,
        )
  ]

  server_of-workers : 0 < count_of (server_of cfg).workers
  unfolding server_of Server.new
  server_of-workers = elim (Bool-cases (nonpos cfg.workers)) [
    | inl few ↦ rw few (omega arith)
    | inr some_given ↦ rw some_given (ground arith)
  ]

  server_of-resp_max : IsFinal cfg → Positive (server_of cfg).resp_max
  unfolding server_of Server.new
  server_of-resp_max final = ground (arith, final.resp_max_positive)

  server_of-neg_ttl : IsFinal cfg → IsInRange cfg → pos 0 ≤ℤ (server_of cfg).neg_ttl
  unfolding server_of Server.new
  server_of-neg_ttl final fits = scaled_nonneg cfg.neg_ttl final.neg_ttl_nonneg fits.neg_ttl

  -- What is set up for a final configuration is sound.
  pub server_up-IsSoundServer :
      IsFinal cfg
      → IsInRange cfg
      → (prefetches : Bool)
      → IsSoundServer cfg (record {
        options = redis_options split_host 32 cfg;
        timeout = upstream_timeout cfg;
        resolver = resolver_of cfg;
        server = server_of cfg;
        started = record {
          prefetches = prefetches;
          consumers = consumer_names (server_of cfg).consumer 0 (count_of (server_of cfg).workers);
        };
      })
  server_up-IsSoundServer final fits prefetches =
      let consumer = (server_of cfg).consumer in
      let n = count_of (server_of cfg).workers in
      record {
        pool = pool_positive 32 (omega arith);
        timeout =
            scaled_positive cfg.upstream.timeout second (omega arith) final.timeout_positive
              fits.timeout;
        resp_max = server_of-resp_max final;
        neg_ttl = server_of-neg_ttl final fits;
        some_worker = rw (length-consumer_names consumer 0 n) server_of-workers;
        distinct = consumer_names-Distinct consumer 0 n;
        race = racing fits.race;
      }
