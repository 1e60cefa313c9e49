-- ===== src/Common/Bits.antt =====
-- `|` of a shifted field and a value that fits below it, as a sum, at every width.
use Prim.Native.Nat.{ℕ, zero, suc, ◌+◌, ◌*◌, ◌/◌, ◌%◌, ◌^◌, ◌≤◌, ◌<◌, max, bit_or}
use Prim.Native.Nat.{digits, bit_or-bitwise}
use mathlib.Core.Path.{◌≡◌, refl, ap}
use native.Mathlib.Omega.{arith}
use native.Mathlib.Nat.{pow-suc}

abbrev or_digits : ℕ → ℕ → ℕ → ℕ
or_digits n a b = digits (λ y. y) max n a b

-- More rounds than `a` has digits change nothing.
or_digits_extra : (n m a b : ℕ) → a ≤ n → a ≤ m → or_digits n a b ≡ or_digits m a b
or_digits_extra zero zero a b p q = refl
or_digits_extra zero (suc m) zero b p q = refl
or_digits_extra zero (suc m) (suc a) b p q = absurd (omega arith)
or_digits_extra (suc n) zero zero b p q = refl
or_digits_extra (suc n) zero (suc a) b p q = absurd (omega arith)
or_digits_extra (suc n) (suc m) zero b p q = refl
or_digits_extra (suc n) (suc m) (suc a) b p q =
    omega (arith, or_digits_extra n m (suc a / 2) (b / 2) (omega arith) (omega arith))

bit_or-zero_left : (b : ℕ) → bit_or 0 b ≡ b
bit_or-zero_left b = bit_or-bitwise 0 b

-- The lowest digit, and the rest.
bit_or_halves : (a b : ℕ) → bit_or a b ≡ bit_or (a / 2) (b / 2) * 2 + max (a % 2) (b % 2)
bit_or_halves zero b = omega (arith, bit_or-zero_left b, bit_or-zero_left (b / 2))
bit_or_halves (suc a) b = omega (
  arith,
  bit_or-bitwise (suc a) b,
  bit_or-bitwise (suc a / 2) (b / 2),
  or_digits_extra a (suc a / 2) (suc a / 2) (b / 2) (omega arith) (omega arith),
)

bit_or-zero_right : (n a : ℕ) → a ≤ n → bit_or a 0 ≡ a
bit_or-zero_right n zero h = refl
bit_or-zero_right zero (suc a) h = absurd (omega arith)
bit_or-zero_right (suc n) (suc a) h =
    omega (arith, bit_or_halves (suc a) 0, bit_or-zero_right n (suc a / 2) (omega arith))

double-shift : (q k : ℕ) → q * 2 ^ suc k ≡ 2 * (q * 2 ^ k)
double-shift q k = omega (arith, ap (λ (t : ℕ). q * t) (pow-suc 2 k))

pub bit_or-shifted : (k q r : ℕ) → r < 2 ^ k → bit_or (q * 2 ^ k) r ≡ q * 2 ^ k + r
bit_or-shifted zero q r h = ground (arith, bit_or-zero_right q q)
bit_or-shifted (suc k) q r h = ground (
  arith,
  bit_or_halves (q * 2 ^ suc k) r,
  double-shift q k,
  pow-suc 2 k,
  bit_or-shifted k q (r / 2),
)

-- The other way round: a low value first, the shifted field after it.
bit_or_comm : (n a b : ℕ) → a ≤ n → b ≤ n → bit_or a b ≡ bit_or b a
bit_or_comm zero zero zero p q = refl
bit_or_comm zero (suc a) b p q = absurd (omega arith)
bit_or_comm zero a (suc b) p q = absurd (omega arith)
bit_or_comm (suc n) a b p q = omega (
  arith,
  bit_or_halves a b,
  bit_or_halves b a,
  bit_or_comm n (a / 2) (b / 2) (omega arith) (omega arith),
)

pub shifted-bit_or : (k q r : ℕ) → r < 2 ^ k → bit_or r (q * 2 ^ k) ≡ r + q * 2 ^ k
shifted-bit_or k q r h = omega (
  arith,
  bit_or_comm (r + q * 2 ^ k) r (q * 2 ^ k) (omega arith) (omega arith),
  bit_or-shifted k q r h,
)
