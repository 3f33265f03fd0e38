-- ===== src/Resolver/Icmp/Identity.antt =====
-- internal/resolver/icmp.go: the identifiers of probes.
use redis_dns.Prelude.{ℕ, ◌+◌, ◌<◌, ◌≢◌, arith}
use redis_dns.Resolver.Icmp.{echo_id}

-- Two probes of one process have different identifiers unless at least 65536 probes, or a multiple
-- of that, lie between them, also where the counter wraps around at 32 bits.
pub echo_ids_differ : (pid i d : ℕ) → 0 < d → d < 65536 → echo_id pid i ≢ echo_id pid (i + d)
unfolding echo_id
echo_ids_differ pid i d some_apart near = omega arith
