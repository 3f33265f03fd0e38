-- ===== src/Client.antt =====
-- internal/client: the DNS server of the LAN side.
pub mod Local
pub mod Pending
pub mod Calls
pub mod Ids
pub mod Serving
pub mod Query
pub mod Follow
pub mod Streams
use redis_dns.Prelude.{if◌then◌else◌}
use redis_dns.Prelude.Int.{ℤ, pos, nonpos}

-- `Client`, for its settings. Times are in nanoseconds.
pub record Client : Type 0 where
  pub block : ℤ
  pub local_ttl : ℤ

-- `New`; it starts with no cached and no pending query.
unfoldable pub new : ℤ → ℤ → Client
new block local_ttl = record {
  block = if nonpos block then pos 5000000000 else block;
  local_ttl = if nonpos local_ttl then pos 300000000000 else local_ttl;
}
