-- ===== src/Server/Stats/Members.antt =====
-- internal/server/stats.go: a member of the ranking names its query.
use redis_dns.Prelude.{ℕ, ◌≡◌, refl, false, [], ◌∷◌, some, arith}
use redis_dns.Prelude.Bytes.{Bytes, to_lower, cut_last, Lacks, cut_last-append}
use redis_dns.Net.{is_nil}
use redis_dns.Dns.{DnsLib}
use redis_dns.Server.Stats.{count_member, parse_member}

-- A type whose name the library reads back; names of types have no `|` in them.
pub record IsNamedType (lib : DnsLib) (qtype : ℕ) : Type 0 where
  pub reads_back : lib.string_to_type (lib.type_string qtype) ≡ some qtype
  pub no_bar : Lacks b'|' (lib.type_string qtype)
  pub not_empty : is_nil (lib.type_string qtype) ≡ false

lower_full : (x : Bytes) → is_nil x ≡ false → is_nil (to_lower x) ≡ false
unfolding to_lower
lower_full [] h = cc
lower_full (c ∷ x) h = refl

parse_of_cut :
    (lib : DnsLib) (m name qtype : Bytes)
    → cut_last b'|' m ≡ some (name, qtype)
    → is_nil name ≡ false
    → is_nil qtype ≡ false
    → (t : ℕ) → lib.string_to_type qtype ≡ some t
    → parse_member lib m ≡ some (name, t)
unfolding parse_member
parse_of_cut lib m name qtype cut h k t e = rw (cut, parse_member) (rw (h, k) (ground (arith, e)))

-- A member that was rendered for a query parses to that query: to the name with its dot, in lower
-- case, whatever bytes are in it, and to the type.
parse_member-count_member :
    (lib : DnsLib) (name : Bytes) (qtype : ℕ)
    → IsNamedType lib qtype
    → is_nil (lib.fqdn name) ≡ false
    → parse_member lib (count_member lib name qtype) ≡ some (to_lower (lib.fqdn name), qtype)
unfolding count_member
parse_member-count_member lib name qtype h full =
    parse_of_cut lib _ (to_lower (lib.fqdn name)) (lib.type_string qtype)
      (cut_last-append b'|' (to_lower (lib.fqdn name)) (lib.type_string qtype) h.no_bar)
      (lower_full (lib.fqdn name) full) h.not_empty qtype h.reads_back
