-- ===== src/Prelude/Decimal.antt =====
-- `strconv.Itoa`, `FormatInt` and `ParseInt` in base 10.
use Prim.Native.Nat.{ℕ, zero, suc, ◌+◌, ◌-◌, ◌*◌, ◌/◌, ◌%◌, ◌≤◌, ◌<◌}
use mathlib.Core.Path.{◌≡◌, refl, ap, ◌∙◌}
use mathlib.Core.Logic.{◌≢◌, inl, inr}
use mathlib.Core.Bool.{true, false, ◌&&◌}
use mathlib.Core.List.{[], ◌∷◌, ◌++◌}
use mathlib.Core.Option.{Option, none, some}
use native.Mathlib.Omega.{arith}
use redis_dns.Prelude.Tests.{ltb→lt, ltb, leb, ◌==◌, if◌then◌else◌, ◌>>=◌, Bool-cases}
use redis_dns.Prelude.Lists.{All, All-append, All-map}
use redis_dns.Prelude.Int.{IsInt64, ℤ, pos, negsuc, two63}
use redis_dns.Prelude.Bytes.{Bytes, Lacks}

-- The decimal digits of `n`; `n` lies below the fuel.
digits : ℕ → ℕ → Bytes
digits zero n = []
digits (suc f) n =
    let rest = digits f (n / 10) in if ltb n 10 then (48 + n) ∷ [] else rest ++ (48 + n % 10) ∷ []

unfoldable pub itoa : ℕ → Bytes
unfolding digits
itoa n = digits (suc n) n

unfoldable pub format_int : ℤ → Bytes
format_int (pos n) = itoa n
format_int (negsuc n) = b'-' ∷ itoa (suc n)

-- The digits read so far stand for `acc`.
unfoldable pub read_digits : ℕ → Bytes → Option ℕ
read_digits acc [] = some acc
read_digits acc (c ∷ cs) = elim (leb 48 c && leb c 57) [
  | true ↦ read_digits (acc * 10 + (c - 48)) cs
  | false ↦ none
]

-- An empty text is a syntax error.
unfoldable pub read_nat : Bytes → Option ℕ
unfolding read_digits
read_nat [] = none
read_nat (c ∷ cs) = read_digits 0 (c ∷ cs)

abbrev check_pos : ℕ → Option ℤ
check_pos n = if ltb n two63 then some (pos n) else none

abbrev check_neg : ℕ → Option ℤ
check_neg zero = some (pos 0)
check_neg (suc n) = if ltb n two63 then some (negsuc n) else none

-- `ParseInt(s, 10, 64)` and `Atoi`, with `none` for a syntax or a range error.
unfoldable pub parse_int : Bytes → Option ℤ
parse_int [] = none
parse_int (c ∷ cs) =
    if c == b'-'
    then read_nat cs >>= check_neg
    else if c == b'+'
    then read_nat cs >>= check_pos
    else read_nat (c ∷ cs) >>= check_pos

-- A byte that `read_digits` takes.
abbrev pub IsDigit : ℕ → Type 0
IsDigit c = (48 ≤ c) × (c ≤ 57)

digits-IsDigit : (f n : ℕ) → All IsDigit (digits f n)
unfolding digits
digits-IsDigit zero n = tt
digits-IsDigit (suc f) n = elim (Bool-cases (ltb n 10)) [
  | inl small ↦ rw small ((omega arith, omega (arith, ltb→lt n 10 small)), tt)
  | inr large ↦ rw large (
      All-append IsDigit (digits f (n / 10)) _ (digits-IsDigit f (n / 10))
        ((omega arith, omega arith), tt))
]

read_digits-append :
    (acc : ℕ) (xs ys : Bytes)
    → read_digits acc (xs ++ ys) ≡ (read_digits acc xs >>= λ a. read_digits a ys)
unfolding read_digits
read_digits-append acc [] ys = refl
read_digits-append acc (c ∷ xs) ys = ground (arith, read_digits-append (acc * 10 + (c - 48)) xs ys)

read_digits-one : (acc d : ℕ) → d < 10 → read_digits acc ((48 + d) ∷ []) ≡ some (acc * 10 + d)
unfolding read_digits
read_digits-one acc d h = ground arith

-- Enough fuel, and the digits read back.
read_digits-digits : (f n : ℕ) → n < f → read_digits 0 (digits f n) ≡ some n
unfolding digits
read_digits-digits zero n h = elim h [ ]
read_digits-digits (suc f) n h = elim (Bool-cases (ltb n 10)) [
  | inl small ↦ rw small (read_digits-one 0 n (ltb→lt n 10 small) ∙ ap some (omega arith))
  | inr large ↦
      rw (large, read_digits-append 0 (digits f (n / 10)) _)
        (rw (read_digits-digits f (n / 10) (ground arith))
          (read_digits-one (n / 10) (n % 10) (omega arith) ∙ ap some (omega arith)))
]

-- The digits of a number are digits.
pub itoa-IsDigit : (n : ℕ) → All IsDigit (itoa n)
unfolding itoa
itoa-IsDigit n = digits-IsDigit (suc n) n

pub itoa-Lacks : (n : ℕ) → Lacks b':' (itoa n)
itoa-Lacks n = All-map IsDigit _ (itoa n) (λ c h e. absurd (omega (arith, h, e))) (itoa-IsDigit n)

read_nat-digits : (x : Bytes) (n : ℕ) → read_digits 0 x ≡ some n → x ≢ [] → read_nat x ≡ some n
unfolding read_nat
read_nat-digits [] n h e = absurd (e refl)
read_nat-digits (c ∷ x) n h e = h

append-ne-nil : (x : Bytes) (c : ℕ) → x ++ c ∷ [] ≢ []
append-ne-nil [] c e = cc
append-ne-nil (b ∷ x) c e = cc

digits-ne-nil : (f n : ℕ) → digits (suc f) n ≢ []
unfolding digits
digits-ne-nil f n e = elim (Bool-cases (ltb n 10)) [
  | inl small ↦ absurd (ground arith)
  | inr large ↦ append-ne-nil (digits f (n / 10)) (48 + n % 10) (ground arith)
]

-- Reading what was printed gives the number back.
pub read_nat-itoa : (n : ℕ) → read_nat (itoa n) ≡ some n
unfolding itoa
read_nat-itoa n =
    read_nat-digits (digits (suc n) n) n (read_digits-digits (suc n) n (omega arith))
      (digits-ne-nil n n)

pub itoa_inj : (m n : ℕ) → itoa m ≡ itoa n → m ≡ n
itoa_inj m n e = ground (arith, read_nat-itoa m, read_nat-itoa n, ap read_nat e)

parse_int_digits :
    (x : Bytes) (n : ℕ)
    → read_nat x ≡ some n
    → All IsDigit x
    → n < two63
    → parse_int x ≡ some (pos n)
unfolding parse_int
parse_int_digits [] n r d h = absurd (unfold read_nat in cc)
parse_int_digits (c ∷ x) n r d h = ground (arith, r)

-- An int64 that is printed and parsed comes back.
pub parse_int-format_int : (a : ℤ) → IsInt64 a → parse_int (format_int a) ≡ some a
unfolding format_int parse_int
parse_int-format_int (pos n) h =
    parse_int_digits (itoa n) n (read_nat-itoa n) (itoa-IsDigit n) h.upper
parse_int-format_int (negsuc n) h = rw (read_nat-itoa (suc n)) (ground (arith, h.lower))
