-- ===== src/Gn1200/Crc.antt =====
-- src/driver/GN1200.c: the check sum.
use i_dcu_io_t.Common.{
  ◌⊎◌, ℕ, zero, suc, ◌/◌, ◌%◌, ◌^◌, ◌≤◌, ◌<◌, ◌≡◌, ◌≢◌, refl, sym, ◌∙◌, ap, arith, List, [], ◌∷◌,
  ◌++◌, append_assoc, ok, read_append, length, length-append, All, inl, inr, mask_bit0,
}
use Prim.Native.Nat.{bit_xor}
use i_dcu_io_t.Common.Xor.{bit_xor-lt, bit_xor-top, bit_xor-injective_left, bit_xor-injective_right}
use i_dcu_io_t.Gn1200.{polynormial, shift, shifts, crc_from, crc16}

abbrev pub IsByte : ℕ → Type 0
IsByte b = b < 256

shift_even : (c : ℕ) → c % 2 ≡ 0 → shift c ≡ c / 2
unfolding shift
shift_even c h = rw (mask_bit0 c, h)

shift_odd : (c : ℕ) → c % 2 ≡ 1 → shift c ≡ bit_xor (c / 2) polynormial
unfolding shift
shift_odd c h = rw (mask_bit0 c, h)

parity : (c : ℕ) → (c % 2 ≡ 0) ⊎ (c % 2 ≡ 1)
parity c = ground arith

-- A bit that was taken out shows in the highest bit.
shift_odd-ge : (c : ℕ) → c < 2 ^ 16 → c % 2 ≡ 1 → 2 ^ 15 ≤ shift c
shift_odd-ge c w h =
    rw (shift_odd c h)
      (bit_xor-top 15 (c / 2) polynormial (omega arith) (omega arith) (omega arith))

shift-lt : (c : ℕ) → c < 2 ^ 16 → shift c < 2 ^ 16
shift-lt c w = elim (parity c) [
  | inl e ↦ rw (shift_even c e) (omega arith)
  | inr o ↦ rw (shift_odd c o) (bit_xor-lt 16 (c / 2) polynormial (omega arith) (omega arith))
]

shift-injective : (a b : ℕ) → a < 2 ^ 16 → b < 2 ^ 16 → shift a ≡ shift b → a ≡ b
shift-injective a b wa wb h = cases (parity a) (parity b)
  where
    cases : (a % 2 ≡ 0) ⊎ (a % 2 ≡ 1) → (b % 2 ≡ 0) ⊎ (b % 2 ≡ 1) → a ≡ b
    cases (inl e) (inl f) = omega (arith, sym (shift_even a e) ∙ h ∙ shift_even b f)
    cases (inl e) (inr o) = absurd (omega (arith, shift_even a e, shift_odd-ge b wb o))
    cases (inr o) (inl e) = absurd (omega (arith, shift_even b e, shift_odd-ge a wa o))
    cases (inr o) (inr p) = omega (
      arith,
      bit_xor-injective_left (a / 2) (b / 2) polynormial (sym (shift_odd a o) ∙ h ∙ shift_odd b p),
    )

shifts-lt : (n c : ℕ) → c < 2 ^ 16 → shifts n c < 2 ^ 16
unfolding shifts
shifts-lt zero c w = w
shifts-lt (suc n) c w = shifts-lt n (shift c) (shift-lt c w)

shifts-injective : (n a b : ℕ) → a < 2 ^ 16 → b < 2 ^ 16 → shifts n a ≡ shifts n b → a ≡ b
unfolding shifts
shifts-injective zero a b wa wb h = h
shifts-injective (suc n) a b wa wb h =
    shift-injective a b wa wb
      (shifts-injective n (shift a) (shift b) (shift-lt a wa) (shift-lt b wb) h)

-- The check sum after these bytes.
pub crc_after : List ℕ → ℕ → ℕ
crc_after [] c = c
crc_after (b ∷ bytes) c = crc_after bytes (shifts 8 (bit_xor c b))

pub crc_of : List ℕ → ℕ
crc_of bytes = crc_after bytes 0xffff

crc_from_lem :
    (bytes pre post : List ℕ) (i c : ℕ)
    → i ≡ length pre
    → crc_from (length bytes) (pre ++ (bytes ++ post)) i c ≡ ok (crc_after bytes c)
unfolding crc_from crc_after
crc_from_lem [] pre post i c h = refl
crc_from_lem (b ∷ bytes) pre post i c h =
    let next =
      crc_from_lem bytes (pre ++ (b ∷ [])) post (suc i) (shifts 8 (bit_xor c b))
        (omega (arith, length-append pre (b ∷ []))) in
    rw (read_append pre b (bytes ++ post) i h) (
      ap (λ xs. crc_from (length bytes) xs (suc i) (shifts 8 (bit_xor c b)))
        (sym (append_assoc pre (b ∷ []) (bytes ++ post)))
      ∙ next)

-- `CRC16` reads the bytes given and no others.
pub crc16_lem :
    (bytes post : List ℕ) (n : ℕ) → n ≡ length bytes → crc16 (bytes ++ post) 0 n ≡ ok (crc_of bytes)
unfolding crc16 crc_of
crc16_lem bytes post n h = rw h (crc_from_lem bytes [] post 0 0xffff refl)

step-lt : (c b : ℕ) → c < 2 ^ 16 → b < 256 → shifts 8 (bit_xor c b) < 2 ^ 16
step-lt c b w h = shifts-lt 8 (bit_xor c b) (bit_xor-lt 16 c b w (omega arith))

pub crc_after-lt :
    (bytes : List ℕ) (c : ℕ) → c < 2 ^ 16 → All IsByte bytes → crc_after bytes c < 2 ^ 16
unfolding crc_after
crc_after-lt [] c w h = w
crc_after-lt (b ∷ bytes) c w h = crc_after-lt bytes (shifts 8 (bit_xor c b)) (step-lt c b w h.0) h.1

pub crc_of-lt : (bytes : List ℕ) → All IsByte bytes → crc_of bytes < 2 ^ 16
unfolding crc_of
crc_of-lt bytes h = crc_after-lt bytes 0xffff (omega arith) h

-- The same bytes after different check sums.
crc_after-injective :
    (bytes : List ℕ) (a b : ℕ)
    → a < 2 ^ 16
    → b < 2 ^ 16
    → All IsByte bytes
    → crc_after bytes a ≡ crc_after bytes b
    → a ≡ b
unfolding crc_after
crc_after-injective [] a b wa wb h e = e
crc_after-injective (x ∷ bytes) a b wa wb h e =
    let before : bit_xor a x ≡ bit_xor b x =
      shifts-injective 8 (bit_xor a x) (bit_xor b x) (bit_xor-lt 16 a x wa (omega (arith, h.0)))
        (bit_xor-lt 16 b x wb (omega (arith, h.0)))
        (crc_after-injective bytes (shifts 8 (bit_xor a x)) (shifts 8 (bit_xor b x))
          (step-lt a x wa h.0) (step-lt b x wb h.0) h.1 e) in
    bit_xor-injective_left a b x before

crc_after-one :
    (pre post : List ℕ) (x y c : ℕ)
    → c < 2 ^ 16
    → All IsByte pre
    → x < 256
    → y < 256
    → All IsByte post
    → crc_after (pre ++ (x ∷ post)) c ≡ crc_after (pre ++ (y ∷ post)) c
    → x ≡ y
unfolding crc_after
crc_after-one [] post x y c w hp hx hy ht e = bit_xor-injective_right x y c (
    shifts-injective 8 (bit_xor c x) (bit_xor c y) (bit_xor-lt 16 c x w (omega arith))
      (bit_xor-lt 16 c y w (omega arith))
      (crc_after-injective post (shifts 8 (bit_xor c x)) (shifts 8 (bit_xor c y)) (step-lt c x w hx)
        (step-lt c y w hy) ht e))
crc_after-one (b ∷ pre) post x y c w hp hx hy ht e =
    crc_after-one pre post x y (shifts 8 (bit_xor c b)) (step-lt c b w hp.0) hp.1 hx hy ht e

-- Bytes that differ at one place have different check sums.
pub crc_of-ne :
    (pre post : List ℕ) (x y : ℕ)
    → All IsByte pre
    → x < 256
    → y < 256
    → All IsByte post
    → x ≢ y
    → crc_of (pre ++ (x ∷ post)) ≢ crc_of (pre ++ (y ∷ post))
unfolding crc_of
crc_of-ne pre post x y hp hx hy ht ne e =
    ne (crc_after-one pre post x y 0xffff (omega arith) hp hx hy ht e)
