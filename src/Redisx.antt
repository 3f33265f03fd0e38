-- ===== src/Redisx.antt =====
-- internal/redisx/redisx.go: the key layout, and the options of a Redis client.
pub mod Keepalive
use redis_dns.Prelude.{ℕ, ◌≡◌, Bool, [], ◌∷◌, ◌++◌, Option, none, some, if◌then◌else◌}
use redis_dns.Prelude.Bytes.{Bytes, ascii, append-sep_inj}
use redis_dns.Prelude.Decimal.{itoa, itoa_inj, itoa-Lacks}
use redis_dns.Prelude.Int.{ℤ, pos, ltb_ℤ, quot}
use redis_dns.Net.{is_nil}

-- `CacheKey`, after the prefix `PrefixCache`.
unfoldable pub cache_key : Bytes → ℕ → Bytes
cache_key name qtype = ascii "dns:cache:" ++ (name ++ b':' ∷ itoa qtype)

pub prefix_inj : (p : Bytes) (x y : Bytes) → p ++ x ≡ p ++ y → x ≡ y
prefix_inj [] x y h = h
prefix_inj (c ∷ p) x y h = prefix_inj p x y (cc)

-- Two cache keys are one key only for one name and one query type, whatever bytes the names hold.
pub cache_key_inj :
    (name name' : Bytes) (qtype qtype' : ℕ)
    → cache_key name qtype ≡ cache_key name' qtype'
    → (name ≡ name') × (qtype ≡ qtype')
unfolding cache_key
cache_key_inj name name' qtype qtype' h =
    let (same_name, same_type) =
      append-sep_inj b':' name (itoa qtype) name' (itoa qtype') (itoa-Lacks qtype)
        (itoa-Lacks qtype') (prefix_inj (ascii "dns:cache:") _ _ h) in
    (same_name, itoa_inj qtype qtype' same_type)

-- `redis.Options`, for what `New` computes.
pub record Options : Type 0 where
  pub addr : Bytes
  pub pool_size : ℤ
  pub min_idle : ℤ
  pub tls_name : Option Bytes

-- `New`. `split_host` is the host of `net.SplitHostPort`, and `none` its error.
unfoldable pub new_options : (Bytes → Option Bytes) → Bytes → ℤ → Bool → Bytes → Options
new_options split_host addr pool_size use_tls server_name =
    let pool = if ltb_ℤ pool_size (pos 1) then pos 4 else pool_size in
    record {
      addr = addr;
      pool_size = pool;
      min_idle = quot pool 2;
      tls_name =
          if use_tls
          then some (
              if is_nil server_name
              then elim (split_host addr) [ some h ↦ h | none ↦ server_name ]
              else server_name)
          else none;
    }
