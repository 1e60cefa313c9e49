-- ===== src/Plcs/Indexed/Messages.antt =====
-- src/driver/PLCS_12ex.c: the numbered message that a line gives.
use i_dcu_io_t.Common.{
  All, ℕ, zero, suc, ◌+◌, ◌-◌, ◌%◌, ◌^◌, ◌≤◌, ◌<◌, ◌≡◌, refl, sym, ◌∙◌, ap, arith, Bool, true,
  false, inl, inr, List, [], ◌∷◌, ◌++◌, ◌==◌, ne→==, if◌then◌else◌, Bool-cases, ok, Returns, length,
  get_or, length-append, Lacks, print_long, print_long_lem,
}
use i_dcu_io_t.Iot.Server.{Conn}
use i_dcu_io_t.Plcs
use i_dcu_io_t.Plcs.{buffer_size, fields, value_texts}
use i_dcu_io_t.Plcs.Ten.{none_left_out}
use i_dcu_io_t.Plcs.Indexed.{
  Counted, header, is_left_out, select_tag, indexed, create_etri_packet_format, on_line, turn,
}
use i_dcu_io_t.Plcs.Lines.{set_buffer_of, all_lines}
use i_dcu_io_t.Plcs.Arrival.{IsClear}
use i_dcu_io_t.Plcs.Runs.{bodies, steps, turn-steps}
use i_dcu_io_t.Plcs.Rows.{kept, texts, value_texts_lem}
use i_dcu_io_t.Plcs.Report.{IsPlain, readings, reading_of, Fits, select_tag_lem}
use i_dcu_io_t.Plcs.Fields.{Field, words, body, line_text, IsKind, fields_lem}
use i_dcu_io_t.Plcs.Messages.{
  value_at, Stands, row_at, word-fits, length-kept, kept-Fits, body-no_cr, kind_33, kind_33-IsKind,
}

abbrev pub kind_36 : List ℕ
kind_36 = b'3' ∷ b'6' ∷ []

kind_36-IsKind : IsKind kind_36
kind_36-IsKind = record {
  full = tt;
  no_comma = (refl, (refl, tt));
  no_zero = (refl, (refl, tt));
  small = omega arith;
}

-- The words are below 28 bytes: `parsing` of `selectTag_12ex` has room for the number before them.
abbrev pub Words28 : List Field → Type 0
Words28 [] = Unit {0}
Words28 (f ∷ fs) = (length f.word < 28) × Words28 fs

word-short :
    (fs : List Field) (j : ℕ) → Words28 fs → j < length fs → length (get_or (words fs) j []) < 28
word-short [] j w h = absurd (omega arith)
word-short (f ∷ fs) zero w h = w.0
word-short (f ∷ fs) (suc j) w h = word-short fs j w.1 (omega arith)

-- The message: the number of values, the index under the number 100, the values of the rows.
abbrev pub message : ℕ → ℕ → List Field → List ℕ → List ℕ
message now index fs ks =
    (1 + length ks) ∷ (reading_of now 9 (print_long index) ++ readings (value_at fs) now ks)

-- The state after a line.
abbrev pub counted : ℕ → List Field → List ℕ → Counted → Counted
counted now fs ks d = record {
  queue = d.queue ++ (message now d.index_count fs ks ∷ []);
  index_count = (d.index_count + 1) % 2 ^ 32;
}

-- The index stands in place of a row 9.
abbrev word_or_index : ℕ → List Field → ℕ → List ℕ
word_or_index index fs k = if k == 9 then print_long index else value_at fs k

other_row : (index : ℕ) (fs : List Field) (k : ℕ) → 9 < k → word_or_index index fs k ≡ value_at fs k
other_row index fs k h = rw (ne→== k 9 (λ e. omega arith))

readings-rows :
    (index : ℕ) (fs : List Field) (now : ℕ) (skip : ℕ → Bool) (rounds k : ℕ)
    → 9 < k
    → readings (word_or_index index fs) now (kept skip rounds k)
      ≡ readings (value_at fs) now (kept skip rounds k)
readings-rows index fs now skip zero k h = refl
readings-rows index fs now skip (suc rounds) k h =
    let rest = readings-rows index fs now skip rounds (suc k) (omega arith) in
    elim (Bool-cases (skip k)) [
      | inl out ↦ rw out rest
      | inr taken ↦ rw (taken, other_row index fs k h, rest)
    ]

print_long_small : (v : ℕ) → IsPlain (print_long v) × (length (print_long v) ≤ 11)
print_long_small v =
    let colon =
      print_long_lem (λ c. c == b':') (λ d h. ne→== (48 + d) b':' (λ e. omega arith)) refl v in
    let semi =
      print_long_lem (λ c. c == b';') (λ d h. ne→== (48 + d) b';' (λ e. omega arith)) refl v in
    ((colon.0, colon.1, semi.1), colon.2)

indexed_lem :
    (skip : ℕ → Bool) (rounds now : ℕ) (fs : List Field) (rows : List (List ℕ)) (d : Counted)
    → 10 + rounds ≤ 3 + length fs
    → 10 + rounds ≤ 256
    → Words28 fs
    → Stands fs rows
    → 20 + length (readings (value_at fs) now (kept skip rounds 10)) ≤ 1024
    → indexed skip rounds now rows d ≡ ok (counted now fs (kept skip rounds 10) d)
unfolding indexed select_tag
indexed_lem skip rounds now fs rows d hi top short stands small =
    let ks = kept skip rounds 10 in
    let w = word_or_index d.index_count fs in
    let number = print_long_small d.index_count in
    let read : value_texts skip rows rounds 10 ≡ ok (length ks, texts w ks) =
      value_texts_lem skip rows w rounds 10 (λ j l h.
        row_at fs rows stands j (omega arith) (omega arith)
        ∙ ap (λ v. ok v) (sym (other_row d.index_count fs j (omega arith)))) in
    let fit : Fits w 32 (9 ∷ ks) = (
      (omega arith, number.0, omega (arith, number.1)),
      kept-Fits skip w 32 rounds 10 (λ j l h. rw (other_row d.index_count fs j (omega arith)) (
        omega arith,
        (word-fits fs (j - 3) (omega arith)).0,
        omega (arith, word-short fs (j - 3) short (omega arith)),
      )),
    ) in
    let same : readings w now ks ≡ readings (value_at fs) now ks =
      readings-rows d.index_count fs now skip rounds 10 (omega arith) in
    let pl = print_long d.index_count in
    let sent : Plcs.select_tag 32 now (length ks + 1) (texts w (9 ∷ ks)) d.queue
        ≡ ok (d.queue ++ (message now d.index_count fs ks ∷ [])) =
      ap (λ n. Plcs.select_tag 32 now n (texts w (9 ∷ ks)) d.queue) (omega arith)
      ∙ select_tag_lem w now 32 9 ks d.queue fit (omega (arith, length-kept skip rounds 10)) (
          omega (
            arith,
            length-append (reading_of now 9 pl) (readings w now ks),
            length-append pl (0 ∷ []),
            ap length same,
            number.1,
          ))
      ∙ ap (λ rs. ok (d.queue ++ ((suc (length ks) ∷ (reading_of now 9 pl ++ rs)) ∷ []))) same
      ∙ ap
          (λ n. ok (d.queue ++ ((n ∷ (reading_of now 9 pl ++ readings (value_at fs) now ks)) ∷ [])))
          (omega arith) in
    rw (read, sent)

-- A line of one of the two kinds, and its fields.
pub record Line : Type 0 where
  pub is_36 : Bool
  pub fields : List Field

abbrev pub kind_of : Bool → List ℕ
kind_of b = b'3' ∷ (if b then b'6' else b'3') ∷ []

-- The bytes behind the header.
abbrev pub body_of : Line → List ℕ
body_of l = (if l.is_36 then b'6' else b'3') ∷ body l.fields

-- The rows that a line of these fields has in its message: all from 10 on, or those from 10 to 77
-- without 62.
unfoldable pub taken : Bool → ℕ → List ℕ
taken true n = kept none_left_out (3 + n - 10) 10
taken false n = kept is_left_out 68 10

pub record Takes (now : ℕ) (l : Line) : Type 0 where
  pub enough : (if l.is_36 then 7 else 75) ≤ length l.fields
  pub few : length l.fields < 253
  pub short : Words28 l.fields
  pub small :
      20 + length (readings (value_at l.fields) now (taken l.is_36 (length l.fields))) ≤ 1024

on_line_lem :
    (now : ℕ) (is_36 : Bool) (fs : List Field) (d : Counted)
    → (if is_36 then 7 else 75) ≤ length fs
    → length fs < 253
    → Words28 fs
    → 20 + length (readings (value_at fs) now (taken is_36 (length fs))) ≤ 1024
    → length (line_text (kind_of is_36) fs) < buffer_size
    → on_line now (set_buffer_of (line_text (kind_of is_36) fs)) d
      ≡ ok (counted now fs (taken is_36 (length fs)) d)
unfolding on_line create_etri_packet_format taken
on_line_lem now true fs d enough few short small fits =
    let (r, e, (n, second, stands)) = fields_lem kind_36 fs kind_36-IsKind few fits in
    rw (e, second, n)
      (indexed_lem none_left_out (3 + length fs - 10) now fs r.0 d (omega arith) (omega arith) short
        stands small)
on_line_lem now false fs d enough few short small fits =
    let (r, e, (n, second, stands)) = fields_lem kind_33 fs kind_33-IsKind few fits in
    rw (e, second)
      (indexed_lem is_left_out 68 now fs r.0 d (omega arith) (omega arith) short stands small)

digit_no_cr : (b : Bool) → ((if b then b'6' else b'3') == 0x0d) ≡ false
digit_no_cr true = refl
digit_no_cr false = refl

-- The driver that numbers its messages: any number of lines of kind 36 with 7 to 252 fields, or of
-- kind 33 with 75 to 252, of words below 28 bytes, below 10240 bytes in all, in one read to a loop
-- that holds nothing back, whose messages fit 1024 bytes: each line puts one message into the
-- queue, in their order, with the index under the number 100 and the words of the rows from 10 on
-- (for kind 33 up to 77 without 62), the index goes up by one, and nothing is held back.
pub turn_indexed :
    (now : ℕ) (lines : List Line) (stack : List ℕ) (c : Conn Counted)
    → All (Takes now) lines
    → length (all_lines header (bodies body_of lines)) < buffer_size
    → IsClear c
    → Returns (turn now (all_lines header (bodies body_of lines)) stack c) (λ c'.
      IsClear c'
      × (c'.link.device
          ≡ steps
              (λ l. counted now l.fields (taken l.is_36 (length l.fields)))
              lines
              c.link.device))
unfolding turn
turn_indexed now lines stack c r small clear =
    turn-steps header (on_line now) body_of
      (λ l. counted now l.fields (taken l.is_36 (length l.fields))) (Takes now)
      (λ l d h fits. on_line_lem now l.is_36 l.fields d h.enough h.few h.short h.small fits)
      (refl, (refl, (refl, (refl, (refl, tt))))) no_cr lines stack c r small clear
  where
    no_cr : (l : Line) → Lacks (λ c. c == 0x0d) (body_of l)
    no_cr l = (digit_no_cr l.is_36, body-no_cr l.fields)
