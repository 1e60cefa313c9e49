-- ===== src/Gn1200/Damage.antt =====
-- src/driver/GN1200.c: a reply that was changed on the way, and bytes that follow a reply.
use i_dcu_io_t.Common.{
  ℕ, ◌<◌, ◌^◌, ◌≡◌, ◌≢◌, refl, List, [], ◌∷◌, ◌++◌, ok, length, All, byte0, byte1,
}
use mathlib.Core.Path.{subst}
use i_dcu_io_t.Gn1200.{crc16}
use i_dcu_io_t.Gn1200.Crc.{IsByte, crc_of, crc_of-ne, crc_of-lt, crc16_lem}
use i_dcu_io_t.Gn1200.Replies.{Registers, message}

All-left {ℓ κ} :
    {A : Type ℓ} (P : A → Type κ) (xs ys : List A) → All P (xs ++ ys) → All P xs × All P ys
All-left P [] ys h = (tt, h)
All-left P (x ∷ xs) ys h = let (a, b) = All-left P xs ys h.1 in ((h.0, a), b)

-- Two messages that are the same but for one byte.
pub record DifferOnce (xs ys : List ℕ) : Type 0 where
  pub ahead : List ℕ
  pub x : ℕ
  pub y : ℕ
  pub behind : List ℕ
  pub left : xs ≡ ahead ++ (x ∷ behind)
  pub right : ys ≡ ahead ++ (y ∷ behind)
  pub other : x ≢ y

crc_of-DifferOnce :
    (xs ys : List ℕ) → DifferOnce xs ys → All IsByte xs → All IsByte ys → crc_of xs ≢ crc_of ys
crc_of-DifferOnce xs ys d hx hy =
    let (b, l) = All-left IsByte d.ahead (d.x ∷ d.behind) (subst (All IsByte) d.left hx) in
    let (_, r) = All-left IsByte d.ahead (d.y ∷ d.behind) (subst (All IsByte) d.right hy) in
    rw (d.left, d.right) (crc_of-ne d.ahead d.behind d.x d.y b l.0 r.0 l.1 d.other)

-- Messages of bytes that differ at one place have two different check sums, each of 16 bits.
pub crc16-DifferOnce :
    (xs ys rest rest' : List ℕ)
    → DifferOnce xs ys
    → All IsByte xs
    → All IsByte ys
    → (a : ℕ) × (b : ℕ) × (crc16 (xs ++ rest) 0 (length xs) ≡ ok a)
      × (crc16 (ys ++ rest') 0 (length ys) ≡ ok b)
      × (a < 2 ^ 16)
      × (b < 2 ^ 16)
      × (a ≢ b)
crc16-DifferOnce xs ys rest rest' d hx hy = (
  crc_of xs,
  crc_of ys,
  crc16_lem xs rest (length xs) refl,
  crc16_lem ys rest' (length ys) refl,
  crc_of-lt xs hx,
  crc_of-lt ys hy,
  crc_of-DifferOnce xs ys d hx hy,
)

-- The bytes that arrive where the registers of a reply are changed and its check sum is not.
abbrev pub spoilt : Registers → Registers → List ℕ
spoilt r r' = message r' ++ (byte0 (crc_of (message r)) ∷ byte1 (crc_of (message r)) ∷ [])
