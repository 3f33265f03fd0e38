-- ===== src/Resolver/Ttl.antt =====
-- internal/resolver/resolver.go: `MinTTL`.
pub mod Laws
use redis_dns.Prelude.{
  ℕ, ◌≤◌, ◌<◌, ◌≡◌, refl, ◌⊎◌, inl, inr, ◌&&◌, ◌||◌, List, [], ◌∷◌, ◌++◌, arith, ltb, ◌==◌,
  if◌then◌else◌, All, Any,
}
use redis_dns.Dns.{Record, RecordData, Msg}
use redis_dns.Dns.RecordData.{soa, a, aaaa, other}

-- The closure `consider`, as a function of the variable `min` that it updates.
unfoldable pub consider : ℕ → ℕ → ℕ
consider min ttl = if ltb 0 ttl && (min == 0 || ltb ttl min) then ttl else min

-- The loop over `m.Answer`.
unfoldable pub scan_answer : ℕ → List Record → ℕ
scan_answer min [] = min
scan_answer min (rr ∷ rrs) = scan_answer (consider min rr.ttl) rrs

abbrev pub scan_record : ℕ → ℕ → RecordData → ℕ
scan_record min ttl (soa minttl rest) = consider (consider min ttl) minttl
scan_record min ttl (a ip) = consider min ttl
scan_record min ttl (aaaa ip) = consider min ttl
scan_record min ttl (other t rest) = consider min ttl

-- The loop over `m.Ns`.
unfoldable pub scan_ns : ℕ → List Record → ℕ
scan_ns min [] = min
scan_ns min (rr ∷ rrs) = scan_ns (scan_record min rr.ttl rr.rdata) rrs

unfoldable pub min_ttl : Msg → ℕ
min_ttl m = scan_ns (scan_answer 0 m.answer) m.ns
