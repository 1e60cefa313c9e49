-- ===== src/Gn1200/Replies.antt =====
-- src/driver/GN1200.c: a round of the parser at a reply.
use i_dcu_io_t.Common.{
  ℕ, ◌+◌, ◌*◌, ◌/◌, ◌%◌, ◌^◌, ◌≤◌, ◌<◌, ◌≡◌, refl, sym, ◌∙◌, ap, arith, Bool, true, false, List, [],
  ◌∷◌, ◌++◌, append_assoc, ◌==◌, ok, read, read_append, length, length-append, drop, ◌&&◌,
  memcpy-ok, All, eq→==, bit_and, bit_and_comm, mask_low, mask_up, bit_or-shifted, byte0, byte1,
  if◌then◌else◌,
}
use i_dcu_io_t.Iot.Serial.{Parser}
use i_dcu_io_t.Gn1200.{starts, checks, temperature, select_tag, take_reply, clear, round}
use i_dcu_io_t.Gn1200.Crc.{IsByte, crc_of, crc16_lem}

-- The register values of a reply: the bytes of the second one are the temperature.
pub record Registers : Type 0 where
  pub first : ℕ
  pub second : ℕ
  pub high : ℕ
  pub low : ℕ
  pub others : List ℕ

abbrev pub message : Registers → List ℕ
message r = 1 ∷ 3 ∷ 8 ∷ r.first ∷ r.second ∷ r.high ∷ r.low ∷ r.others

-- A reply with its check sum.
abbrev pub reply_bytes : Registers → List ℕ
reply_bytes r = message r ++ (byte0 (crc_of (message r)) ∷ byte1 (crc_of (message r)) ∷ [])

-- Four registers of two bytes.
pub record IsReply (r : Registers) : Type 0 where
  pub four : length r.others ≡ 4
  pub bytes : All IsByte (message r)

abbrev pub celsius : Registers → ℕ
celsius r = 256 * r.high + r.low

pub length-reply_bytes : (r : Registers) → IsReply r → length (reply_bytes r) ≡ 13
length-reply_bytes r h = omega (
  arith,
  length-append (message r) (0 ∷ 0 ∷ []),
  h.four,
  length-append r.others (byte0 (crc_of (message r)) ∷ byte1 (crc_of (message r)) ∷ []),
)

temperature_lem : (b0 b1 : ℕ) → b0 < 256 → b1 < 256 → temperature b0 b1 ≡ 256 * b0 + b1
unfolding temperature
temperature_lem b0 b1 h0 h1 =
    let up : bit_and (b0 * 2 ^ 8) 0xff00 % 2 ^ 16 ≡ b0 * 2 ^ 8 =
      rw (bit_and_comm (b0 * 2 ^ 8) 0xff00)
        (omega (arith, mask_up 0xff (b0 * 2 ^ 8), mask_low (b0 * 2 ^ 8 / 256))) in
    let down : bit_and b1 0x00ff ≡ b1 = bit_and_comm b1 0xff ∙ omega (arith, mask_low b1) in
    rw (up, down) (bit_or-shifted 8 b0 b1 (omega arith) ∙ omega arith)

and_if : (a b : Bool) → (if a then ok b else ok false) ≡ ok (a && b)
and_if true b = refl
and_if false b = refl

-- The test of the check sum on a message with two bytes behind it.
checks_lem :
    (r : Registers) (low high : ℕ) (post : List ℕ)
    → length r.others ≡ 4
    → checks (message r ++ (low ∷ high ∷ post)) 0 (crc_of (message r))
      ≡ ok (low == byte0 (crc_of (message r)) && high == byte1 (crc_of (message r)))
unfolding checks
checks_lem r low high post four =
    let c = crc_of (message r) in
    let mask0 : bit_and c 0x00ff ≡ byte0 c = bit_and_comm c 0xff ∙ mask_low c in
    let mask1 : bit_and (c / 2 ^ 8) 0x00ff ≡ byte1 c =
      bit_and_comm (c / 2 ^ 8) 0xff ∙ mask_low (c / 2 ^ 8) in
    let l : read (message r ++ (low ∷ high ∷ post)) 11 ≡ ok low =
      read_append (message r) low (high ∷ post) 11 (omega arith) in
    let h : read (message r ++ (low ∷ high ∷ post)) 12 ≡ ok high =
      ap (λ xs. read xs 12) (sym (append_assoc (message r) (low ∷ []) (high ∷ post)))
      ∙ read_append (message r ++ (low ∷ [])) high post 12
          (omega (arith, length-append r.others (low ∷ []))) in
    rw (mask0, mask1, l, h) (and_if (low == byte0 c) (high == byte1 c))

-- A message with two bytes behind it that are its check sum: its temperature is shown.
pub round_reply :
    (r : Registers) (post : List ℕ) (len : ℕ) (p : Parser (List ℕ))
    → IsReply r
    → 2 ≤ length p.set_buffer
    → round (reply_bytes r ++ post) len 0 p
      ≡ ok (
        13,
        record {
          set_buffer = r.high ∷ r.low ∷ drop 2 p.set_buffer;
          remain_size = 13;
          device = p.device ++ (celsius r ∷ []);
        },
      )
unfolding round starts take_reply select_tag
round_reply r post len p h room =
    let low = byte0 (crc_of (message r)) in
    let high = byte1 (crc_of (message r)) in
    let four = h.four in
    let layout : reply_bytes r ++ post ≡ message r ++ (low ∷ high ∷ post) =
      append_assoc (message r) (low ∷ high ∷ []) post in
    let eleven : 11 ≡ length (message r) = omega arith in
    let b = h.bytes in
    rw
      (
        layout,
        crc16_lem (message r) (low ∷ high ∷ post) 11 eleven,
        checks_lem r low high post four,
        eq→== low low refl,
        eq→== high high refl,
        memcpy-ok p.set_buffer 0 (message r ++ (low ∷ high ∷ post)) 5 2 (omega arith)
            (omega (arith, length-append (message r) (low ∷ high ∷ post))),
        temperature_lem r.high r.low (omega arith) (omega arith),
      )
      refl

-- A message with two other bytes behind it: all that was received is given up.
pub round_bad :
    (r : Registers) (low high : ℕ) (post : List ℕ) (len : ℕ) (p : Parser (List ℕ))
    → length r.others ≡ 4
    → (low == byte0 (crc_of (message r)) && high == byte1 (crc_of (message r))) ≡ false
    → round (message r ++ (low ∷ high ∷ post)) len 0 p ≡ ok (clear len p)
unfolding round starts
round_bad r low high post len p four bad =
    let eleven : 11 ≡ length (message r) = omega arith in
    rw (crc16_lem (message r) (low ∷ high ∷ post) 11 eleven, checks_lem r low high post four, bad)
      refl
