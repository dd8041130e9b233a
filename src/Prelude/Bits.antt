-- ===== src/Prelude/Bits.antt =====
-- The masks and shifts of one byte and of a 32-bit word, as arithmetic.
use Prim.Native.Nat.{
  ℕ, zero, suc, ◌+◌, ◌*◌, ◌/◌, ◌%◌, ◌^◌, ◌≤◌, ◌<◌, max, bit_and, bit_or, digits, bit_or-bitwise,
}
use mathlib.Core.Path.{◌≡◌, refl, ap, ◌∙◌}
use mathlib.Core.Bool.{Bool, true, ◌&&◌}
use native.Mathlib.Nat.{pow-suc}
use native.Mathlib.Omega.{arith}
use craftip_crosscompiletest.Prelude.Tests.{◌==◌, ==_iff}

-- A test that every number below a bound passes, by evaluation.
holds_below : (ℕ → Bool) → ℕ → Bool
holds_below test zero = true
holds_below test (suc bound) = holds_below test bound && test bound

holds_below-at :
    (test : ℕ → Bool) (bound byte : ℕ)
    → byte < bound
    → holds_below test bound ≡ true
    → test byte ≡ true
unfolding holds_below
holds_below-at test zero byte small passed = absurd (omega arith)
holds_below-at test (suc bound) byte small passed = ground (arith, holds_below-at test bound byte)

low_seven_table : holds_below (λ b. bit_and b 0x7f == b % 128) 256 ≡ true
unfolding holds_below
low_seven_table = refl

pub low_seven : (b : ℕ) → b < 256 → bit_and b 0x7f ≡ b % 128
low_seven b h = (==_iff _ _).0 (holds_below-at _ 256 b h low_seven_table)

top_bit_table : holds_below (λ b. bit_and b 0x80 == b / 128 * 128) 256 ≡ true
unfolding holds_below
top_bit_table = refl

pub top_bit : (b : ℕ) → b < 256 → bit_and b 0x80 ≡ b / 128 * 128
top_bit b h = (==_iff _ _).0 (holds_below-at _ 256 b h top_bit_table)

-- The lowest binary digit of `bit_or`, from the definition that the operation stands for.
abbrev or_digits : ℕ → ℕ → ℕ → ℕ
or_digits n a b = digits (λ b. b) max n a b

or_digits_fuel : (n m a b : ℕ) → a ≤ n → a ≤ m → or_digits n a b ≡ or_digits m a b
or_digits_fuel zero zero a b p q = refl
or_digits_fuel zero (suc m) zero b p q = refl
or_digits_fuel zero (suc m) (suc a) b p q = absurd (omega arith)
or_digits_fuel (suc n) zero zero b p q = refl
or_digits_fuel (suc n) zero (suc a) b p q = absurd (omega arith)
or_digits_fuel (suc n) (suc m) zero b p q = refl
or_digits_fuel (suc n) (suc m) (suc a) b p q =
    omega (arith, or_digits_fuel n m (suc a / 2) (b / 2) (omega arith) (omega arith))

pub zero-bit_or : (b : ℕ) → bit_or 0 b ≡ b
zero-bit_or b = bit_or-bitwise 0 b

pub bit_or_step : (a b : ℕ) → bit_or a b ≡ bit_or (a / 2) (b / 2) * 2 + max (a % 2) (b % 2)
bit_or_step zero b = omega (arith, zero-bit_or b, zero-bit_or (b / 2))
bit_or_step (suc a) b = omega (
  arith,
  bit_or-bitwise (suc a) b,
  bit_or-bitwise (suc a / 2) (b / 2),
  or_digits_fuel a (suc a / 2) (suc a / 2) (b / 2) (omega arith) (omega arith),
)

shift_one_more : (k q : ℕ) → q * 2 ^ suc k ≡ q * 2 ^ k * 2
shift_one_more k q = ap (λ n. q * n) (pow-suc 2 k) ∙ omega arith

-- Where the bits of `a` lie below bit `k`, or-ing a value shifted by `k` adds it.
pub bit_or-disjoint : (k a q : ℕ) → a < 2 ^ k → bit_or a (q * 2 ^ k) ≡ a + q * 2 ^ k
bit_or-disjoint zero a q h = rw (none_below a (omega arith)) (omega (arith, zero-bit_or (q * 1)))
  where
    none_below : (n : ℕ) → n < 1 → n ≡ 0
    none_below n h = omega arith
bit_or-disjoint (suc k) a q h = ground (
  arith,
  bit_or_step a (q * 2 ^ suc k),
  shift_one_more k q,
  pow-suc 2 k,
  bit_or-disjoint k (a / 2) q (omega arith),
)
