-- ===== src/Net.antt =====
-- Go's `net.IP`: an address is its bytes, four or sixteen of them, and nil is no bytes.
use redis_dns.Prelude.{
  ◌≡◌, Bool, true, false, ◌&&◌, [], ◌∷◌, arith, length, take, drop, ◌==◌, if◌then◌else◌,
}
use redis_dns.Prelude.Bytes.{Bytes, bytes_eq, bytes_eq_refl}

abbrev pub Ip : Type 0
Ip = Bytes

-- `v4InV6Prefix`
abbrev pub v4_prefix : Bytes
v4_prefix = 0 ∷ 0 ∷ 0 ∷ 0 ∷ 0 ∷ 0 ∷ 0 ∷ 0 ∷ 0 ∷ 0 ∷ 255 ∷ 255 ∷ []

-- `IP.Equal`: an IPv4 address and its IPv6 form are the same address.
unfoldable pub ip_equal : Ip → Ip → Bool
ip_equal ip x =
    if length ip == length x
    then bytes_eq ip x
    else if length ip == 4 && length x == 16
    then bytes_eq (take 12 x) v4_prefix && bytes_eq ip (drop 12 x)
    else if length ip == 16 && length x == 4
    then bytes_eq (take 12 ip) v4_prefix && bytes_eq (drop 12 ip) x
    else false

abbrev pub is_nil : Ip → Bool
is_nil [] = true
is_nil (_ ∷ _) = false

pub ip_equal_refl : (ip : Ip) → ip_equal ip ip ≡ true
unfolding ip_equal
ip_equal_refl ip = ground (arith, bytes_eq_refl ip)
