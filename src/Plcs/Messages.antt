-- ===== src/Plcs/Messages.antt =====
-- src/driver/PLCS_12.c: the message that a line gives.
use i_dcu_io_t.Common.{
  All, ℕ, zero, suc, ◌+◌, ◌-◌, ◌≤◌, ◌<◌, ◌≡◌, refl, ◌∙◌, ap, arith, Bool, false, inl, inr, List, [],
  ◌∷◌, ◌++◌, ◌==◌, Bool-cases, ok, Returns, length, get_or, Lacks, trim,
}
use i_dcu_io_t.Iot.Server.{Conn}
use i_dcu_io_t.Plcs.{buffer_size, header, value_texts, select_tag, is_left_out, on_line, turn}
use i_dcu_io_t.Plcs.Lines.{set_buffer_of, all_lines}
use i_dcu_io_t.Plcs.Arrival.{IsClear}
use i_dcu_io_t.Plcs.Runs.{bodies, steps, turn-steps}
use i_dcu_io_t.Plcs.Rows.{kept, texts, value_texts_lem}
use i_dcu_io_t.Plcs.Report.{IsPlain, readings, Fits, select_tag_lem}
use i_dcu_io_t.Plcs.Fields.{
  Field, is_mark, field_texts, words, body, line_text, trim-text, Lacks-body, IsKind, fields_lem,
  Lacks-weaken,
}

-- The word that stands in row `k`.
abbrev pub value_at : List Field → ℕ → List ℕ
value_at fs k = get_or (words fs) (k - 3) []

pub trim-row :
    (fs : List Field) (j : ℕ)
    → j < length fs
    → trim (get_or (field_texts fs) j []) ≡ ok (get_or (words fs) j [])
trim-row [] j h = absurd (omega arith)
trim-row (f ∷ fs) zero h = trim-text f
trim-row (f ∷ fs) (suc j) h = trim-row fs j (omega arith)

word_IsPlain : (f : Field) → IsPlain f.word
word_IsPlain f = (
  f.full,
  Lacks-weaken is_mark (λ c. c == b':') (λ c h. ground arith) f.word f.plain,
  Lacks-weaken is_mark (λ c. c == b';') (λ c h. ground arith) f.word f.plain,
)

pub word-fits :
    (fs : List Field) (j : ℕ)
    → j < length fs
    → IsPlain (get_or (words fs) j []) × (length (get_or (words fs) j []) < 32)
word-fits [] j h = absurd (omega arith)
word-fits (f ∷ fs) zero h = (word_IsPlain f, omega (arith, f.small))
word-fits (f ∷ fs) (suc j) h = word-fits fs j (omega arith)

pub length-kept : (skip : ℕ → Bool) (rounds k : ℕ) → length (kept skip rounds k) ≤ rounds
length-kept skip zero k = omega arith
length-kept skip (suc rounds) k = elim (Bool-cases (skip k)) [
  | inl out ↦ rw out (omega (arith, length-kept skip rounds (suc k)))
  | inr taken ↦ rw taken (omega (arith, length-kept skip rounds (suc k)))
]

pub kept-Fits :
    (skip : ℕ → Bool) (word : ℕ → List ℕ) (width rounds k : ℕ)
    → ((j : ℕ)
        → k ≤ j
        → j < k + rounds
        → (j < 256) × IsPlain (word j) × (4 + length (word j) < width))
    → Fits word width (kept skip rounds k)
kept-Fits skip word width zero k h = tt
kept-Fits skip word width (suc rounds) k h =
    let rest =
      kept-Fits skip word width rounds (suc k) (λ j lo hi. h j (omega arith) (omega arith)) in
    elim (Bool-cases (skip k)) [
      | inl out ↦ rw out rest
      | inr taken ↦ rw taken (h k (omega arith) (omega arith), rest)
    ]

-- The fields stand in the rows from 3 on.
abbrev pub Stands : List Field → List (List ℕ) → Type 0
Stands fs rows = (j : ℕ) → j < length fs → get_or rows (3 + j) [] ≡ get_or (field_texts fs) j []

pub row_at :
    (fs : List Field) (rows : List (List ℕ))
    → Stands fs rows
    → (j : ℕ) → 3 ≤ j
    → j < 3 + length fs
    → trim (get_or rows j []) ≡ ok (value_at fs j)
row_at fs rows stands j l h =
    let place : j ≡ 3 + (j - 3) = omega arith in
    ap (λ m. trim (get_or rows m [])) place
    ∙ ap trim (stands (j - 3) (omega arith))
    ∙ trim-row fs (j - 3) (omega arith)

-- The values of the rows from `k` on.
pub values_read :
    (skip : ℕ → Bool) (rounds k : ℕ) (fs : List Field) (rows : List (List ℕ))
    → 3 ≤ k
    → k + rounds ≤ 3 + length fs
    → Stands fs rows
    → value_texts skip rows rounds k
      ≡ ok (length (kept skip rounds k), texts (value_at fs) (kept skip rounds k))
values_read skip rounds k fs rows lo hi stands =
    value_texts_lem skip rows (value_at fs) rounds k
      (λ j l h. row_at fs rows stands j (omega arith) (omega arith))

-- Their message, where the first of them is taken.
pub values_sent :
    (skip : ℕ → Bool) (now width rounds k : ℕ) (fs : List Field) (queue : List (List ℕ))
    → skip k ≡ false
    → 3 ≤ k
    → k + suc rounds ≤ 3 + length fs
    → k + suc rounds ≤ 256
    → 36 ≤ width
    → 1 + length (readings (value_at fs) now (kept skip (suc rounds) k)) ≤ 1024
    → select_tag width now
        (length (kept skip (suc rounds) k))
        (texts (value_at fs) (kept skip (suc rounds) k))
        queue
      ≡ ok (
          queue
          ++ ((length (kept skip (suc rounds) k)
                ∷ readings (value_at fs) now (kept skip (suc rounds) k))
              ∷ []))
values_sent skip now width rounds k fs queue first lo hi top wide small =
    let rest = kept skip rounds (suc k) in
    let all : kept skip (suc rounds) k ≡ k ∷ rest = rw first in
    let fit : Fits (value_at fs) width (k ∷ rest) = rw all at (
      kept-Fits skip (value_at fs) width (suc rounds) k (λ j l h.
        let (plain, short) = word-fits fs (j - 3) (omega arith) in
        (omega arith, plain, omega arith))) in
    rw all (
      select_tag_lem (value_at fs) now width k rest queue fit
        (omega (arith, length-kept skip rounds (suc k))) (rw all at small))

pub body-no_cr : (fs : List Field) → Lacks (λ c. c == 0x0d) (body fs)
body-no_cr fs = Lacks-body (λ c. c == 0x0d) (λ c h. ground arith) refl refl fs

abbrev pub kind_33 : List ℕ
kind_33 = b'3' ∷ b'3' ∷ []

pub kind_33-IsKind : IsKind kind_33
kind_33-IsKind = record {
  full = tt;
  no_comma = (refl, (refl, tt));
  no_zero = (refl, (refl, tt));
  small = omega arith;
}

-- The rows that a message takes: 9 to 77 without 62.
unfoldable pub taken : List ℕ
taken = kept is_left_out 69 9

-- The message for these fields.
abbrev pub message : ℕ → List Field → List ℕ
message now fs = length taken ∷ readings (value_at fs) now taken

on_line_lem :
    (now : ℕ) (fs : List Field) (queue : List (List ℕ))
    → 75 ≤ length fs
    → length fs < 253
    → length (line_text kind_33 fs) < buffer_size
    → length (message now fs) ≤ 1024
    → on_line now (set_buffer_of (line_text kind_33 fs)) queue ≡ ok (queue ++ (message now fs ∷ []))
unfolding on_line taken
on_line_lem now fs queue enough few fits small =
    let (r, e, (n, second, stands)) = fields_lem kind_33 fs kind_33-IsKind few fits in
    rw (e, values_read is_left_out 69 9 fs r.0 (omega arith) (omega arith) stands)
      (values_sent is_left_out now 256 68 9 fs queue refl (omega arith) (omega arith) (omega arith)
        (omega arith) (omega arith))

-- The lines that give a message: from 75 to 252 fields, and a message that fits `data_buff`.
pub record IsReport (now : ℕ) (fs : List Field) : Type 0 where
  pub enough : 75 ≤ length fs
  pub few : length fs < 253
  pub small : length (message now fs) ≤ 1024

-- Any number of lines of kind 33, each of 75 to 252 fields that are words of no delimiters with
-- spaces around them, below 10240 bytes in all, in one read to a loop that holds nothing back,
-- whose messages fit 1024 bytes: each line puts one message into the queue, in their order, with
-- the words of the rows 9 to 77 without 62 under the numbers 100 to 168 without 153, and nothing is
-- held back.
pub turn_reports :
    (now : ℕ) (lines : List (List Field)) (stack : List ℕ) (c : Conn (List (List ℕ)))
    → All (IsReport now) lines
    → length (all_lines header (bodies body lines)) < buffer_size
    → IsClear c
    → Returns (turn header (on_line now) (all_lines header (bodies body lines)) stack c) (λ c'.
      IsClear c'
      × (c'.link.device ≡ steps (λ fs queue. queue ++ (message now fs ∷ [])) lines c.link.device))
turn_reports now lines stack c r small clear =
    turn-steps header (on_line now) body (λ fs queue. queue ++ (message now fs ∷ [])) (IsReport now)
      (λ fs queue h fits. on_line_lem now fs queue h.enough h.few fits h.small)
      (refl, (refl, (refl, (refl, (refl, (refl, tt)))))) body-no_cr lines stack c r small clear
