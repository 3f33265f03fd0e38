-- ===== src/Prelude/Bytes.antt =====
-- Go strings as lists of bytes: equality, prefixes, ASCII lower case, and maps with such keys.
use Prim.Native.Char.{code}
use Prim.Native.Nat.{ℕ, ◌+◌}
use Prim.Native.String.{String}
use mathlib.Core.Path.{◌≡◌, refl, ap}
use mathlib.Core.Logic.{◌≢◌, ◌↔◌}
use mathlib.Core.Bool.{Bool, true, false, ◌&&◌, ◌||◌}
use mathlib.Core.List.{List, [], ◌∷◌, ◌++◌, map}
use mathlib.Core.Option.{Option, none, some}
use native.Mathlib.Omega.{arith}
use redis_dns.Prelude.Tests.{leb, ◌==◌, if◌then◌else◌, &&-true, ==_iff, ==_refl}
use redis_dns.Prelude.Lists.{All}

-- A Go string or byte slice. A nil slice and an empty one are both `[]`.
abbrev pub Bytes : Type 0
Bytes = List ℕ

-- The bytes of an ASCII literal.
abbrev pub ascii : String → Bytes
ascii String.[] = []
ascii (String.◌∷◌ c s) = code c ∷ ascii s

unfoldable pub bytes_eq : Bytes → Bytes → Bool
bytes_eq [] [] = true
bytes_eq (a ∷ x) (b ∷ y) = a == b && bytes_eq x y
bytes_eq _ _ = false

pub bytes_eq_refl : (x : Bytes) → bytes_eq x x ≡ true
unfolding bytes_eq
bytes_eq_refl [] = refl
bytes_eq_refl (a ∷ x) = ground (arith, bytes_eq_refl x)

pub bytes_eq-eq : (x y : Bytes) → bytes_eq x y ≡ true → x ≡ y
unfolding bytes_eq
bytes_eq-eq [] [] h = refl
bytes_eq-eq [] (b ∷ y) h = cc
bytes_eq-eq (a ∷ x) [] h = cc
bytes_eq-eq (a ∷ x) (b ∷ y) h =
    let (p, q) = &&-true (a == b) (bytes_eq x y) h in cc ((==_iff a b).0 p, bytes_eq-eq x y q)

pub bytes_eq_iff : (x y : Bytes) → (bytes_eq x y ≡ true) ↔ (x ≡ y)
bytes_eq_iff x y = (bytes_eq-eq x y, λ e. (rw e (bytes_eq_refl y)))

-- `strings.HasPrefix` and `strings.Contains`.
unfoldable pub has_prefix : Bytes → Bytes → Bool
has_prefix s [] = true
has_prefix [] (b ∷ p) = false
has_prefix (a ∷ s) (b ∷ p) = a == b && has_prefix s p

unfoldable pub contains : Bytes → Bytes → Bool
unfolding has_prefix
contains [] p = has_prefix [] p
contains (c ∷ s) p = has_prefix (c ∷ s) p || contains s p

-- `strings.ToLower` on the ASCII names that DNS messages are printed with.
abbrev pub to_lower_byte : ℕ → ℕ
to_lower_byte c = if leb b'A' c && leb c b'Z' then c + 32 else c

unfoldable pub to_lower : Bytes → Bytes
to_lower = map to_lower_byte

-- A map with string keys, as what a lookup returns.
abbrev pub Map : Type 0 → Type 0
Map V = Bytes → Option V

module _ {V : Type 0} where
  abbrev pub empty : Map V
  empty k = none

  -- `m[k] = v`
  abbrev pub insert : Bytes → V → Map V → Map V
  insert k v m j = if bytes_eq j k then some v else m j

  -- `delete(m, k)`
  abbrev pub erase : Bytes → Map V → Map V
  erase k m j = if bytes_eq j k then none else m j

-- `strings.LastIndex` and the slices on both sides: the text before and after the last `c`.
unfoldable pub cut_last : ℕ → Bytes → Option (Bytes × Bytes)
cut_last c [] = none
cut_last c (b ∷ x) =
    let rest = cut_last c x in
    elim rest [ some (l, r) ↦ some (b ∷ l, r) | none ↦ if b == c then some ([], x) else none ]

-- `c` does not occur.
abbrev pub Lacks : ℕ → Bytes → Type 0
Lacks c x = All (λ b. b ≢ c) x

pub cut_last-none : (c : ℕ) (x : Bytes) → Lacks c x → cut_last c x ≡ none
unfolding cut_last
cut_last-none c [] h = refl
cut_last-none c (b ∷ x) h = rw (cut_last-none c x h.1) (ground (arith, h.0))

-- A separator that the right part lacks is the last one.
pub cut_last-append : (c : ℕ) (x y : Bytes) → Lacks c y → cut_last c (x ++ c ∷ y) ≡ some (x, y)
unfolding cut_last
cut_last-append c [] y h = rw (cut_last-none c y h) (rw (==_refl c))
cut_last-append c (b ∷ x) y h = rw (cut_last-append c x y h)

-- So the two parts are determined by the whole.
pub append-sep_inj :
    (c : ℕ) (x y x' y' : Bytes)
    → Lacks c y
    → Lacks c y'
    → x ++ c ∷ y ≡ x' ++ c ∷ y'
    → (x ≡ x') × (y ≡ y')
append-sep_inj c x y x' y' h h' e =
    let p = cut_last-append c x y h in
    let q = cut_last-append c x' y' h' in ground (arith, p, q, ap (cut_last c) e)
