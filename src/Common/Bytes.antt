-- ===== src/Common/Bytes.antt =====
-- Bytes of a 32-bit word, taken apart by masks and shifts and put together by `|`.
use Prim.Native.Nat.{ℕ, ◌+◌, ◌*◌, ◌/◌, ◌%◌, ◌^◌, ◌<◌, bit_and, bit_or}
use mathlib.Core.Path.{◌≡◌, ◌∙◌}
use native.Mathlib.Omega.{arith}
use i_dcu_io_t.Common.Masks.{mask_low}
use i_dcu_io_t.Common.Bits.{bit_or-shifted}

-- `0xff & b` of a byte.
pub low_byte : (b : ℕ) → b < 256 → bit_and 0xff b ≡ b
low_byte b h = omega (arith, mask_low b)

-- `b0 << 24 | b1 << 16 | b2 << 8 | b3`, with the mask that the sources write at each byte.
pub word : ℕ → ℕ → ℕ → ℕ → ℕ
word b0 b1 b2 b3 =
    bit_or
      (bit_or (bit_or (bit_and 0xff b0 * 2 ^ 24) (bit_and 0xff b1 * 2 ^ 16))
        (bit_and 0xff b2 * 2 ^ 8))
      (bit_and 0xff b3)

pub word_sum :
    (b0 b1 b2 b3 : ℕ)
    → b0 < 256
    → b1 < 256
    → b2 < 256
    → b3 < 256
    → word b0 b1 b2 b3 ≡ b0 * 2 ^ 24 + b1 * 2 ^ 16 + b2 * 2 ^ 8 + b3
unfolding word
word_sum b0 b1 b2 b3 h0 h1 h2 h3 =
    let top : b0 * 2 ^ 24 + b1 * 2 ^ 16 ≡ (b0 * 256 + b1) * 2 ^ 16 = omega arith in
    let mid : (b0 * 256 + b1) * 2 ^ 16 + b2 * 2 ^ 8 ≡ (b0 * 65536 + b1 * 256 + b2) * 2 ^ 8 =
      omega arith in
    rw
      (
        low_byte b0 h0,
        low_byte b1 h1,
        low_byte b2 h2,
        low_byte b3 h3,
        bit_or-shifted 24 b0 (b1 * 2 ^ 16) (omega arith),
        top,
        bit_or-shifted 16 (b0 * 256 + b1) (b2 * 2 ^ 8) (omega arith),
        mid,
        bit_or-shifted 8 (b0 * 65536 + b1 * 256 + b2) b3 (omega arith),
      )
      (omega arith)

-- The bytes of a word, the highest first.
abbrev pub byte3 : ℕ → ℕ
byte3 v = v / 2 ^ 24 % 256

abbrev pub byte2 : ℕ → ℕ
byte2 v = v / 2 ^ 16 % 256

abbrev pub byte1 : ℕ → ℕ
byte1 v = v / 2 ^ 8 % 256

abbrev pub byte0 : ℕ → ℕ
byte0 v = v % 256

pub word-bytes : (v : ℕ) → v < 2 ^ 32 → word (byte3 v) (byte2 v) (byte1 v) (byte0 v) ≡ v
word-bytes v h =
    word_sum (byte3 v) (byte2 v) (byte1 v) (byte0 v) (omega arith) (omega arith) (omega arith)
      (omega arith)
    ∙ omega arith
