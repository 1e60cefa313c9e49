-- ===== src/Common/Xor.antt =====
-- Laws of `^` on words.
use Prim.Native.Nat.{ℕ, zero, suc, ◌+◌, ◌*◌, ◌/◌, ◌%◌, ◌^◌, ◌≤◌, ◌<◌, bit_xor, digits, differ}
use Prim.Native.Nat.{bit_xor-bitwise}
use mathlib.Core.Path.{◌≡◌, refl, sym, ap, ◌∙◌}
use native.Mathlib.Omega.{arith}
use native.Mathlib.Nat.{pow-suc}

abbrev xor_digits : ℕ → ℕ → ℕ → ℕ
xor_digits n a b = digits (λ y. y) differ n a b

-- More rounds than `a` has digits change nothing.
xor_digits_extra : (n m a b : ℕ) → a ≤ n → a ≤ m → xor_digits n a b ≡ xor_digits m a b
xor_digits_extra zero zero a b p q = refl
xor_digits_extra zero (suc m) zero b p q = refl
xor_digits_extra zero (suc m) (suc a) b p q = absurd (omega arith)
xor_digits_extra (suc n) zero zero b p q = refl
xor_digits_extra (suc n) zero (suc a) b p q = absurd (omega arith)
xor_digits_extra (suc n) (suc m) zero b p q = refl
xor_digits_extra (suc n) (suc m) (suc a) b p q =
    ap (λ (t : ℕ). t * 2 + differ (suc a % 2) (b % 2))
      (xor_digits_extra n m (suc a / 2) (b / 2) (omega arith) (omega arith))

bit_xor-zero_left : (b : ℕ) → bit_xor 0 b ≡ b
bit_xor-zero_left b = bit_xor-bitwise 0 b

differ-zero_left : (y : ℕ) → differ 0 y ≡ y
differ-zero_left y = refl

-- Exclusive or of two digits.
differ_digits : (x y : ℕ) → x < 2 → y < 2 → differ x y ≡ (x + y) % 2
differ_digits zero y h k = omega arith
differ_digits (suc zero) zero h k = refl
differ_digits (suc zero) (suc zero) h k = refl
differ_digits (suc zero) (suc (suc y)) h k = absurd (omega arith)
differ_digits (suc (suc x)) y h k = absurd (omega arith)

-- The lowest digit, and the rest.
pub bit_xor_halves : (a b : ℕ) → bit_xor a b ≡ bit_xor (a / 2) (b / 2) * 2 + (a + b) % 2
bit_xor_halves zero b = omega (arith, bit_xor-zero_left b, bit_xor-zero_left (b / 2))
bit_xor_halves (suc a) b = omega (
  arith,
  bit_xor-bitwise (suc a) b,
  bit_xor-bitwise (suc a / 2) (b / 2),
  xor_digits_extra a (suc a / 2) (suc a / 2) (b / 2) (omega arith) (omega arith),
  differ_digits (suc a % 2) (b % 2) (omega arith) (omega arith),
)

twice_right : (n a b : ℕ) → a ≤ n → b ≤ n → bit_xor (bit_xor a b) b ≡ a
twice_right zero zero zero p q = refl
twice_right zero (suc a) b p q = absurd (omega arith)
twice_right zero a (suc b) p q = absurd (omega arith)
twice_right (suc n) a b p q =
    let c = bit_xor a b in
    let half : c / 2 ≡ bit_xor (a / 2) (b / 2) = omega (arith, bit_xor_halves a b) in
    bit_xor_halves c b
    ∙ rw (half, twice_right n (a / 2) (b / 2) (omega arith) (omega arith))
        (omega (arith, bit_xor_halves a b))

-- `a ^ b ^ b` is `a`.
pub bit_xor-twice_right : (a b : ℕ) → bit_xor (bit_xor a b) b ≡ a
bit_xor-twice_right a b = twice_right (a + b) a b (omega arith) (omega arith)

comm : (n a b : ℕ) → a ≤ n → b ≤ n → bit_xor a b ≡ bit_xor b a
comm zero zero zero p q = refl
comm zero (suc a) b p q = absurd (omega arith)
comm zero a (suc b) p q = absurd (omega arith)
comm (suc n) a b p q = omega (
  arith,
  bit_xor_halves a b,
  bit_xor_halves b a,
  comm n (a / 2) (b / 2) (omega arith) (omega arith),
)

pub bit_xor_comm : (a b : ℕ) → bit_xor a b ≡ bit_xor b a
bit_xor_comm a b = comm (a + b) a b (omega arith) (omega arith)

pub bit_xor-twice_left : (a b : ℕ) → bit_xor a (bit_xor a b) ≡ b
bit_xor-twice_left a b =
    bit_xor_comm a (bit_xor a b)
    ∙ ap (λ t. bit_xor t a) (bit_xor_comm a b)
    ∙ bit_xor-twice_right b a

-- Equal results with the same operand come of equal values.
pub bit_xor-injective_left : (a b c : ℕ) → bit_xor a c ≡ bit_xor b c → a ≡ b
bit_xor-injective_left a b c h =
    sym (bit_xor-twice_right a c) ∙ ap (λ t. bit_xor t c) h ∙ bit_xor-twice_right b c

pub bit_xor-injective_right : (a b c : ℕ) → bit_xor c a ≡ bit_xor c b → a ≡ b
bit_xor-injective_right a b c h =
    sym (bit_xor-twice_left c a) ∙ ap (bit_xor c) h ∙ bit_xor-twice_left c b

-- Words stay words.
pub bit_xor-lt : (k a b : ℕ) → a < 2 ^ k → b < 2 ^ k → bit_xor a b < 2 ^ k
bit_xor-lt zero zero zero p q = omega (arith, bit_xor-zero_left 0)
bit_xor-lt zero (suc a) b p q = absurd (omega arith)
bit_xor-lt zero a (suc b) p q = absurd (omega arith)
bit_xor-lt (suc k) a b p q = omega (
  arith,
  pow-suc 2 k,
  bit_xor_halves a b,
  bit_xor-lt k (a / 2) (b / 2) (omega (arith, pow-suc 2 k)) (omega (arith, pow-suc 2 k)),
)

-- A highest bit that one operand has.
pub bit_xor-top : (k a b : ℕ) → a < 2 ^ k → 2 ^ k ≤ b → b < 2 ^ suc k → 2 ^ k ≤ bit_xor a b
bit_xor-top zero zero (suc zero) p q r = omega (arith, bit_xor-zero_left 1)
bit_xor-top zero zero zero p q r = absurd (omega arith)
bit_xor-top zero zero (suc (suc b)) p q r = absurd (omega (arith, pow-suc 2 0))
bit_xor-top zero (suc a) b p q r = absurd (omega arith)
bit_xor-top (suc k) a b p q r = omega (
  arith,
  pow-suc 2 k,
  bit_xor_halves a b,
  bit_xor-top k (a / 2) (b / 2) (omega (arith, pow-suc 2 k)) (omega (arith, pow-suc 2 k))
      (omega (arith, pow-suc 2 k, pow-suc 2 (suc k))),
)
