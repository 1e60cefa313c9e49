-- ===== src/Common/Masks.antt =====
-- `&` with the masks of one byte of a 32-bit word.
use Prim.Native.Nat.{ℕ, zero, suc, ◌+◌, ◌*◌, ◌/◌, ◌%◌, ◌≤◌, min, bit_and, digits, bit_and-bitwise}
use mathlib.Core.Path.{◌≡◌, refl, ◌∙◌}
use native.Mathlib.Omega.{arith}

abbrev both_digits : ℕ → ℕ → ℕ → ℕ
both_digits n a b = digits (λ y. 0) min n a b

both_digits_extra : (n m a b : ℕ) → a ≤ n → a ≤ m → both_digits n a b ≡ both_digits m a b
both_digits_extra zero zero a b p q = refl
both_digits_extra zero (suc m) zero b p q = refl
both_digits_extra zero (suc m) (suc a) b p q = absurd (omega arith)
both_digits_extra (suc n) zero zero b p q = refl
both_digits_extra (suc n) zero (suc a) b p q = absurd (omega arith)
both_digits_extra (suc n) (suc m) zero b p q = refl
both_digits_extra (suc n) (suc m) (suc a) b p q =
    omega (arith, both_digits_extra n m (suc a / 2) (b / 2) (omega arith) (omega arith))

nothing-bit_and : (v : ℕ) → bit_and zero v ≡ zero
nothing-bit_and v = bit_and-bitwise zero v

-- The lowest digit, and the rest.
pub bit_and_halves : (a b : ℕ) → bit_and a b ≡ min (a % 2) (b % 2) + 2 * bit_and (a / 2) (b / 2)
bit_and_halves zero b = omega (arith, nothing-bit_and (b), nothing-bit_and (b / 2))
bit_and_halves (suc a) b = omega (
  arith,
  bit_and-bitwise (suc a) b,
  bit_and-bitwise (suc a / 2) (b / 2),
  both_digits_extra a (suc a / 2) (suc a / 2) (b / 2) (omega arith) (omega arith),
)

even_mask : (n m v : ℕ) → n ≡ 2 * m → bit_and n v ≡ 2 * bit_and m (v / 2)
even_mask n m v e = let h : n / 2 ≡ m = omega arith in bit_and_halves n v ∙ rw h (omega arith)

odd_mask : (m v : ℕ) → bit_and (2 * m + 1) v ≡ 2 * bit_and m (v / 2) + v % 2
odd_mask m v =
    let h : (2 * m + 1) / 2 ≡ m = omega arith in bit_and_halves (2 * m + 1) v ∙ rw h (omega arith)

pub mask_low : (v : ℕ) → bit_and 0xff v ≡ v % 256
mask_low v = omega (
  arith,
  odd_mask 127 v,
  odd_mask 63 (v / 2),
  odd_mask 31 (v / 2 / 2),
  odd_mask 15 (v / 2 / 2 / 2),
  odd_mask 7 (v / 2 / 2 / 2 / 2),
  odd_mask 3 (v / 2 / 2 / 2 / 2 / 2),
  odd_mask 1 (v / 2 / 2 / 2 / 2 / 2 / 2),
  odd_mask 0 (v / 2 / 2 / 2 / 2 / 2 / 2 / 2),
  nothing-bit_and (v / 2 / 2 / 2 / 2 / 2 / 2 / 2 / 2),
)

-- A mask one byte further up.
pub mask_up : (m v : ℕ) → bit_and (256 * m) v ≡ 256 * bit_and m (v / 256)
mask_up m v =
    let low : v / 2 / 2 / 2 / 2 / 2 / 2 / 2 / 2 ≡ v / 256 = omega arith in
    rw (← low) (
      omega (
        arith,
        even_mask (256 * m) (128 * m) v (omega arith),
        even_mask (128 * m) (64 * m) (v / 2) (omega arith),
        even_mask (64 * m) (32 * m) (v / 2 / 2) (omega arith),
        even_mask (32 * m) (16 * m) (v / 2 / 2 / 2) (omega arith),
        even_mask (16 * m) (8 * m) (v / 2 / 2 / 2 / 2) (omega arith),
        even_mask (8 * m) (4 * m) (v / 2 / 2 / 2 / 2 / 2) (omega arith),
        even_mask (4 * m) (2 * m) (v / 2 / 2 / 2 / 2 / 2 / 2) (omega arith),
        even_mask (2 * m) m (v / 2 / 2 / 2 / 2 / 2 / 2 / 2) (omega arith),
      ))

pub mask_byte1 : (v : ℕ) → bit_and 0xff00 v / 256 ≡ v / 256 % 256
mask_byte1 v = omega (arith, mask_up 0xff v, mask_low (v / 256))

pub mask_byte2 : (v : ℕ) → bit_and 0xff0000 v / 65536 ≡ v / 65536 % 256
mask_byte2 v = omega (arith, mask_up 0xff00 v, mask_up 0xff (v / 256), mask_low (v / 256 / 256))

pub mask_byte3 : (v : ℕ) → bit_and 0xff000000 v / 16777216 ≡ v / 16777216 % 256
mask_byte3 v = omega (
  arith,
  mask_up 0xff0000 v,
  mask_up 0xff00 (v / 256),
  mask_up 0xff (v / 256 / 256),
  mask_low (v / 256 / 256 / 256),
)

-- `0x02 & b` is the second lowest bit, in its place.
pub mask_bit1 : (v : ℕ) → bit_and 2 v ≡ 2 * (v / 2 % 2)
mask_bit1 v = omega (arith, even_mask 2 1 v refl, odd_mask 0 (v / 2), nothing-bit_and (v / 2 / 2))

swapped : (n a b : ℕ) → a ≤ n → b ≤ n → bit_and a b ≡ bit_and b a
swapped zero zero zero p q = refl
swapped zero (suc a) b p q = absurd (omega arith)
swapped zero a (suc b) p q = absurd (omega arith)
swapped (suc n) a b p q = omega (
  arith,
  bit_and_halves a b,
  bit_and_halves b a,
  swapped n (a / 2) (b / 2) (omega arith) (omega arith),
)

pub bit_and_comm : (a b : ℕ) → bit_and a b ≡ bit_and b a
bit_and_comm a b = swapped (a + b) a b (omega arith) (omega arith)

-- `v & 0x0001` is the lowest bit.
pub mask_bit0 : (v : ℕ) → bit_and v 1 ≡ v % 2
mask_bit0 v = bit_and_comm v 1 ∙ omega (arith, odd_mask 0 v, nothing-bit_and (v / 2))
