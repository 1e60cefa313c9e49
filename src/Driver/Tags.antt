-- ===== src/Driver/Tags.antt =====
-- What `selectTag_iDCU_IoT` makes of the bytes of one input byte and of one counter.
use i_dcu_io_t.Common.{
  ℕ, ◌+◌, ◌-◌, ◌*◌, ◌%◌, ◌/◌, ◌^◌, ◌<◌, ◌≡◌, refl, arith, inl, inr, ◌||◌, List, [], ◌∷◌, ◌++◌, ◌==◌,
  ltb, if◌then◌else◌, ok, low_byte, shifted-bit_or, mask_bit1, byte0, byte1, byte2, byte3,
  print_long, Bool-cases,
}
use i_dcu_io_t.Driver.{Tag, reading, wo_text, select_wo, count_word, same_bytes, select_count}

-- The bytes of a counter in the order of a reply.
abbrev pub count_bytes : ℕ → List ℕ
count_bytes v = byte1 v ∷ byte0 v ∷ byte3 v ∷ byte2 v ∷ []

pub count_word-bytes : (v : ℕ) → v < 2 ^ 32 → count_word (byte1 v) (byte0 v) (byte3 v) (byte2 v) ≡ v
unfolding count_word
count_word-bytes v h =
    let one : byte0 v * 2 ^ 0 ≡ byte0 v = omega arith in
    rw
      (
        low_byte (byte0 v) (omega arith),
        low_byte (byte1 v) (omega arith),
        low_byte (byte2 v) (omega arith),
        low_byte (byte3 v) (omega arith),
        one,
        shifted-bit_or 8 (byte1 v) (byte0 v) (omega arith),
        shifted-bit_or 16 (byte2 v) (byte0 v + byte1 v * 2 ^ 8) (omega arith),
        shifted-bit_or 24 (byte3 v) (byte0 v + byte1 v * 2 ^ 8 + byte2 v * 2 ^ 16) (omega arith),
      )
      (omega arith)

pub same_bytes-count_bytes :
    (v w : ℕ) → v < 2 ^ 32 → w < 2 ^ 32 → same_bytes (count_bytes v) (count_bytes w) ≡ (v == w)
same_bytes-count_bytes v w hv hw = ground arith

-- The bytes remembered are those of the count remembered.
pub record Agrees (s : Tag) : Type 0 where
  pub bytes : s.cnt_past ≡ count_bytes s.pre_qty
  pub word : s.pre_qty < 2 ^ 32

-- The message of a counter: its total, and what was added since the last one.
abbrev pub count_message : ℕ → ℕ → ℕ → List ℕ
count_message t count qty = 2 ∷ (reading 52 t (print_long count) ++ reading 53 t (print_long qty))

-- A counter read by the driver is remembered; a message with the total and the difference is
-- handed on exactly where a count was known before, the counter did not go back, and it moved.
pub select_count_lem :
    (v t : ℕ) (s : Tag)
    → v < 2 ^ 32
    → Agrees s
    → let s' = select_count (count_bytes v) t s in
      (s'.pre_qty ≡ v)
      × Agrees s'
      × (s'.wo_past ≡ s.wo_past)
      × (s'.offered ≡ (
          if (s.pre_qty == 0 || ltb v s.pre_qty) || (s.pre_qty == v)
          then s.offered
          else s.offered ++ (count_message t v (v - s.pre_qty) ∷ [])))
unfolding select_count
select_count_lem v t s h a = elim (Bool-cases (s.pre_qty == 0 || ltb v s.pre_qty)) [
  | inl first ↦
      rw (count_word-bytes v h, first) (refl, record { bytes = refl; word = h }, refl, refl)
  | inr known ↦
      rw (count_word-bytes v h, known, a.bytes, same_bytes-count_bytes s.pre_qty v a.word h)
        (refl, record { bytes = refl; word = h }, refl, refl)
]

-- The character of the level of the second input.
wo_text-level : (b : ℕ) → wo_text (2 * (b / 2 % 2)) ≡ (48 + b / 2 % 2) ∷ []
unfolding wo_text
wo_text-level b = ground arith

-- An input byte: the second bit is remembered, and a message with the new level is handed on
-- exactly where it differs from the one remembered.
pub select_wo_lem :
    (b t : ℕ) (rest : List ℕ) (s : Tag)
    → select_wo (b ∷ rest) t s
      ≡ ok (record s {
        wo_past = 2 * (b / 2 % 2);
        offered =
            if s.wo_past == 2 * (b / 2 % 2)
            then s.offered
            else s.offered ++ ((1 ∷ reading 51 t ((48 + b / 2 % 2) ∷ [])) ∷ []);
      })
unfolding select_wo
select_wo_lem b t rest s = rw (mask_bit1 b, wo_text-level b)
