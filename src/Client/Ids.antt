-- ===== src/Client/Ids.antt =====
-- internal/client/client.go: `newID`. The random bytes and the clock are arguments; without random
-- bytes the ID is the time.
use redis_dns.Prelude.{
  ℕ, ◌+◌, ◌/◌, ◌%◌, ◌<◌, ◌≡◌, refl, ap, [], ◌∷◌, Option, none, some, if◌then◌else◌, ltb, arith, All,
}
use redis_dns.Prelude.Bytes.{Bytes}
use redis_dns.Prelude.Decimal.{format_int}
use redis_dns.Prelude.Int.{ℤ}

abbrev hex_digit : ℕ → ℕ
hex_digit n = if ltb n 10 then 48 + n else 87 + n

-- `hex.EncodeToString`
hex_encode : Bytes → Bytes
hex_encode [] = []
hex_encode (c ∷ cs) = hex_digit (c / 16) ∷ hex_digit (c % 16) ∷ hex_encode cs

new_id : Option Bytes → ℤ → Bytes
new_id none now = format_int now
new_id (some random) now = hex_encode random

hex_digit_inj : (a b : ℕ) → a < 16 → b < 16 → hex_digit a ≡ hex_digit b → a ≡ b
hex_digit_inj a b ha hb h = ground arith

hex_byte_inj :
    (c d : ℕ)
    → c < 256
    → d < 256
    → hex_digit (c / 16) ≡ hex_digit (d / 16)
    → hex_digit (c % 16) ≡ hex_digit (d % 16)
    → c ≡ d
hex_byte_inj c d hc hd high low =
    let e = hex_digit_inj (c / 16) (d / 16) (omega arith) (omega arith) high in
    let f = hex_digit_inj (c % 16) (d % 16) (omega arith) (omega arith) low in omega arith

first_of : Bytes → ℕ
first_of [] = 0
first_of (c ∷ cs) = c

rest_of : Bytes → Bytes
rest_of [] = []
rest_of (c ∷ cs) = cs

-- Different random bytes give different IDs.
new_id_inj :
    (x y : Bytes) (now later : ℤ)
    → All (λ c. c < 256) x
    → All (λ c. c < 256) y
    → new_id (some x) now ≡ new_id (some y) later
    → x ≡ y
unfolding new_id hex_encode first_of rest_of
new_id_inj [] [] now later hx hy h = refl
new_id_inj [] (d ∷ y) now later hx hy h = absurd (cc)
new_id_inj (c ∷ x) [] now later hx hy h = absurd (cc)
new_id_inj (c ∷ x) (d ∷ y) now later hx hy h =
    let high = ap first_of h in
    let low = ap (λ (s : Bytes). first_of (rest_of s)) h in
    let rest = ap (λ (s : Bytes). rest_of (rest_of s)) h in
    let is : c ≡ d = hex_byte_inj c d hx.0 hy.0 high low in
    let more : x ≡ y = new_id_inj x y now later hx.1 hy.1 rest in cc
