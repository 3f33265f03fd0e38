-- ===== src/Config/Laws.antt =====
-- internal/config/config.go: what a loaded configuration is good for.
use redis_dns.Prelude.{
  ℕ, ◌*◌, ◌<◌, ◌≡◌, ◌⊎◌, inl, inr, false, Option, none, some, arith, Bool-cases, Option-cases,
  if◌then◌else◌,
}
use redis_dns.Prelude.Bytes.{Bytes, ascii}
use redis_dns.Prelude.Int.{ltb_ℤ, ℤ, pos, negsuc, ◌≤ℤ◌, ◌<ℤ◌, ◌*64◌, two63, *64-pos}
use redis_dns.Net.{is_nil}
use redis_dns.Config.{
  Config, Race, loaded, read_failed, parse_failed, default, apply_env, finalize, load, timeout_dur,
  tcp_deadline_dur, pref_ttl_dur, pref_neg_ttl_dur, recheck_hits_n, recheck_age_dur,
}

-- What the two services rely on.
pub record IsFinal (cfg : Config) : Type 0 where
  pub local_ttl_positive : pos 0 <ℤ cfg.local_ttl
  pub block_time_positive : pos 0 <ℤ cfg.block_time
  pub neg_ttl_nonneg : pos 0 ≤ℤ cfg.neg_ttl
  pub resp_max_positive : pos 0 <ℤ cfg.resp_max
  pub timeout_positive : pos 0 <ℤ cfg.upstream.timeout
  pub network_given : is_nil cfg.upstream.network ≡ false
  pub group_given : is_nil cfg.group ≡ false
  pub consumer_given : is_nil cfg.consumer ≡ false

finalize-IsFinal : (cfg : Config) → IsFinal (finalize cfg)
unfolding finalize
finalize-IsFinal cfg = record {
  local_ttl_positive = ground arith;
  block_time_positive = ground arith;
  neg_ttl_nonneg = ground arith;
  resp_max_positive = ground arith;
  timeout_positive = ground arith;
  network_given = ground arith;
  group_given = ground arith;
  consumer_given = ground arith;
}

-- Values that are in order are left alone.
pub finalize_keeps : (cfg : Config) → IsFinal cfg → finalize cfg ≡ cfg
unfolding finalize
finalize_keeps cfg h = ground arith

module _ (getenv : Bytes → Bytes) (read_file : Bytes → Option Bytes)
    (unmarshal : Bytes → Config → Option Config) where
  -- An environment variable that is set wins over the file.
  abbrev pub Overrides : Bytes → Bytes → Type 0
  Overrides v field = is_nil v ≡ false → field ≡ v

  pub record IsLoaded (cfg : Config) : Type 0 where
    pub final : IsFinal cfg
    pub settled : finalize cfg ≡ cfg
    pub redis_addr : Overrides (getenv (ascii "REDIS_ADDR")) cfg.redis.addr
    pub redis_password : Overrides (getenv (ascii "REDIS_PASSWORD")) cfg.redis.password
    pub upstream_addr : Overrides (getenv (ascii "UPSTREAM_ADDR")) cfg.upstream.addr
    pub listen_addr : Overrides (getenv (ascii "LISTEN")) cfg.listen

  finish-IsLoaded : (cfg : Config) → IsLoaded (finalize (apply_env getenv cfg))
  finish-IsLoaded cfg =
      let final = finalize-IsFinal (apply_env getenv cfg) in
      record {
        final = final;
        settled = finalize_keeps (finalize (apply_env getenv cfg)) final;
        redis_addr = unfold finalize apply_env in λ h. (rw h);
        redis_password = unfold finalize apply_env in λ h. (rw h);
        upstream_addr = unfold finalize apply_env in λ h. (rw h);
        listen_addr = unfold finalize apply_env in λ h. (rw h);
      }

  -- `Load` fails only where the file cannot be read or does not parse, and a configuration that it
  -- returns has its times, limits and names in order, would not be changed by another pass, and
  -- takes the values of the four environment variables that are set.
  pub load-IsLoaded :
      (path : Bytes)
      → ((load getenv read_file unmarshal path ≡ read_failed)
          × (is_nil path ≡ false)
          × (read_file path ≡ none))
        ⊎ ((text : Bytes) × (load getenv read_file unmarshal path ≡ parse_failed)
            × (read_file path ≡ some text)
            × (unmarshal text default ≡ none))
        ⊎ ((cfg : Config) × (load getenv read_file unmarshal path ≡ loaded cfg) × IsLoaded cfg)
  unfolding load
  load-IsLoaded path = elim (Bool-cases (is_nil path)) [
    | inl none_given ↦
        inr (inr (finalize (apply_env getenv default), rw none_given, finish-IsLoaded default))
    | inr given ↦ elim (Option-cases (read_file path)) [
      | inl gone ↦ inl (rw (given, gone, load), given, gone)
      | inr (text, found) ↦ elim (Option-cases (unmarshal text default)) [
        | inl bad ↦ inr (inl (text, ground arith, found, bad))
        | inr (cfg, good) ↦
            inr (inr (finalize (apply_env getenv cfg), ground arith, finish-IsLoaded cfg))
      ]
    ]
  ]

-- A setting whose product with the unit fits in an int64.
abbrev pub Fits : ℤ → ℕ → Type 0
Fits (pos n) k = n * k < two63
Fits (negsuc n) k = Unit

-- The times and limits of a race, as the resolver gets them, are positive, if the settings are
-- small enough for a duration.
pub record IsUsableRace (r : Race) : Type 0 where
  pub timeout : pos 0 <ℤ timeout_dur r
  pub tcp_deadline : pos 0 <ℤ tcp_deadline_dur r
  pub pref_ttl : pos 0 <ℤ pref_ttl_dur r
  pub pref_neg_ttl : pos 0 <ℤ pref_neg_ttl_dur r
  pub recheck_hits : pos 0 <ℤ recheck_hits_n r
  pub recheck_age : pos 0 <ℤ recheck_age_dur r

pub record IsFitting (r : Race) : Type 0 where
  pub timeout : Fits r.timeout 1000000
  pub tcp_deadline : Fits r.tcp_deadline 1000000
  pub pref_ttl : Fits r.pref_ttl 1000000000
  pub pref_neg_ttl : Fits r.pref_neg_ttl 1000000000
  pub recheck_age : Fits r.recheck_age 1000000000

pub scaled_positive : (a : ℤ) (k : ℕ) → 0 < k → pos 0 <ℤ a → Fits a k → pos 0 <ℤ (a *64 k)
scaled_positive (pos n) k h p f = rw (*64-pos n k f) (grind arith)
scaled_positive (negsuc n) k h p f = absurd (omega arith)

or_default_positive :
    (a d : ℤ) (k : ℕ)
    → 0 < k
    → Fits a k
    → pos 0 <ℤ d
    → pos 0 <ℤ (if ltb_ℤ (pos 0) a then a *64 k else d)
or_default_positive a d k h f g = elim (Bool-cases (ltb_ℤ (pos 0) a)) [
  | inl given ↦ rw given (scaled_positive a k h (ground arith) f)
  | inr left_out ↦ rw left_out g
]

-- Whatever the race section of a configuration says, each of its times and limits is positive
-- when it reaches the resolver, provided that no setting is too large for a duration.
pub IsFitting-IsUsableRace : (r : Race) → IsFitting r → IsUsableRace r
unfolding timeout_dur tcp_deadline_dur pref_ttl_dur pref_neg_ttl_dur recheck_hits_n recheck_age_dur
IsFitting-IsUsableRace r h = record {
  timeout = or_default_positive r.timeout _ 1000000 (omega arith) h.timeout (omega arith);
  tcp_deadline =
      or_default_positive r.tcp_deadline _ 1000000 (omega arith) h.tcp_deadline (omega arith);
  pref_ttl = or_default_positive r.pref_ttl _ 1000000000 (omega arith) h.pref_ttl (omega arith);
  pref_neg_ttl =
      or_default_positive r.pref_neg_ttl _ 1000000000 (omega arith) h.pref_neg_ttl (omega arith);
  recheck_hits = ground arith;
  recheck_age =
      or_default_positive r.recheck_age _ 1000000000 (omega arith) h.recheck_age (omega arith);
}
