-- ===== src/Iot/Command/Bits.antt =====
-- The byte of `getIOStatus` holds input `k` at bit `k`.
use i_dcu_io_t.Common.{
  ℕ, zero, suc, ◌+◌, ◌*◌, ◌%◌, ◌/◌, ◌^◌, ◌≤◌, ◌<◌, ◌≡◌, refl, arith, List, [], ◌∷◌, bit_or,
  shifted-bit_or, length,
}
use i_dcu_io_t.Iot.Command.{pack_from, pack_io}

-- Every input is 0 or 1.
abbrev pub Levels : List ℕ → Type 0
Levels [] = Unit
Levels (b ∷ bs) = (b ≤ 1) × Levels bs

-- The number that the inputs write in binary, the first as the lowest digit.
abbrev pub binary : List ℕ → ℕ
binary [] = 0
binary (b ∷ bs) = b + 2 * binary bs

-- An input at bit `k` above what is there.
put :
    (k acc b : ℕ)
    → acc < 2 ^ k
    → acc + b * 2 ^ k < 256
    → bit_or acc (b * 2 ^ k) % 256 ≡ acc + b * 2 ^ k
put k acc b h room = omega (arith, shifted-bit_or k b acc h)

pub pack_io-binary :
    (b0 b1 b2 b3 b4 b5 b6 b7 : ℕ)
    → Levels (b0 ∷ b1 ∷ b2 ∷ b3 ∷ b4 ∷ b5 ∷ b6 ∷ b7 ∷ [])
    → pack_io (b0 ∷ b1 ∷ b2 ∷ b3 ∷ b4 ∷ b5 ∷ b6 ∷ b7 ∷ [])
      ≡ binary (b0 ∷ b1 ∷ b2 ∷ b3 ∷ b4 ∷ b5 ∷ b6 ∷ b7 ∷ [])
unfolding pack_io pack_from
pack_io-binary b0 b1 b2 b3 b4 b5 b6 b7 h =
    let n0 : b0 * 1 % 256 ≡ b0 = omega arith in
    let n1 = b0 + b1 * 2 in
    let n2 = n1 + b2 * 4 in
    let n3 = n2 + b3 * 8 in
    let n4 = n3 + b4 * 16 in
    let n5 = n4 + b5 * 32 in
    let n6 = n5 + b6 * 64 in
    rw
      (
        n0,
        put 1 b0 b1 (omega arith) (omega arith),
        put 2 n1 b2 (omega arith) (omega arith),
        put 3 n2 b3 (omega arith) (omega arith),
        put 4 n3 b4 (omega arith) (omega arith),
        put 5 n4 b5 (omega arith) (omega arith),
        put 6 n5 b6 (omega arith) (omega arith),
        put 7 n6 b7 (omega arith) (omega arith),
      )
      (omega arith)

-- The binary number of the inputs, taken apart again.
abbrev pub unpack : ℕ → ℕ → List ℕ
unpack zero n = []
unpack (suc k) n = n % 2 ∷ unpack k (n / 2)

pub unpack-binary : (bs : List ℕ) → Levels bs → unpack (length bs) (binary bs) ≡ bs
unpack-binary [] h = refl
unpack-binary (b ∷ bs) h =
    let low : (b + 2 * binary bs) % 2 ≡ b = omega arith in
    let high : (b + 2 * binary bs) / 2 ≡ binary bs = omega arith in
    rw (low, high, unpack-binary bs h.1)

-- For any eight inputs of 0 or 1: the bits of the byte, lowest first, are the inputs in order.
pub unpack-pack_io : (io : List ℕ) → length io ≡ 8 → Levels io → unpack 8 (pack_io io) ≡ io
unpack-pack_io (b0 ∷ b1 ∷ b2 ∷ b3 ∷ b4 ∷ b5 ∷ b6 ∷ b7 ∷ []) e h =
    rw (pack_io-binary b0 b1 b2 b3 b4 b5 b6 b7 h)
      (unpack-binary (b0 ∷ b1 ∷ b2 ∷ b3 ∷ b4 ∷ b5 ∷ b6 ∷ b7 ∷ []) h)
unpack-pack_io _ e h = absurd (omega arith)
