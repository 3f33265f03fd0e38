-- ===== src/Server.antt =====
-- internal/server: the resolver's side of the bridge.
pub mod Handle
pub mod Stats
pub mod Prefetch
pub mod Ranking
pub mod Worker
use redis_dns.Prelude.{Bool, if◌then◌else◌}
use redis_dns.Prelude.Bytes.{Bytes}
use redis_dns.Prelude.Int.{ℤ, pos, nonpos}

-- `Server`, for what its operations read. Times are in nanoseconds.
pub record Server : Type 0 where
  pub group : Bytes
  pub consumer : Bytes
  pub cache_ttl : ℤ
  pub neg_ttl : ℤ
  pub resp_max : ℤ
  pub workers : ℤ
  pub prefetch : ℤ
  pub top_n : ℤ
  pub half_life : ℤ

-- `New`
unfoldable pub new : Bytes → Bytes → ℤ → ℤ → ℤ → ℤ → ℤ → ℤ → ℤ → Server
new group consumer cache_ttl neg_ttl resp_max workers prefetch top_n half_life = record {
  group = group;
  consumer = consumer;
  cache_ttl = cache_ttl;
  neg_ttl = neg_ttl;
  resp_max = if nonpos resp_max then pos 1000 else resp_max;
  workers = if nonpos workers then pos 1 else workers;
  prefetch = prefetch;
  top_n = top_n;
  half_life = half_life;
}
