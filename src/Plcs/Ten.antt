-- ===== src/Plcs/Ten.antt =====
-- src/driver/PLCS_10.c: the driver of the older controller. Its text is that of PLCS_12.c but for
-- the rows: 63 of them from 9 on, none left out, and their number is not counted.
use i_dcu_io_t.Common.{
  All, ℕ, ◌≤◌, ◌<◌, ◌≡◌, refl, arith, Bool, false, List, [], ◌∷◌, ◌++◌, Run, ok, ◌>>=◌, Returns,
  length,
}
use i_dcu_io_t.Iot.Server.{Conn}
use i_dcu_io_t.Plcs
use i_dcu_io_t.Plcs.{buffer_size, header, fields, value_texts}
use i_dcu_io_t.Plcs.Lines.{set_buffer_of, all_lines}
use i_dcu_io_t.Plcs.Arrival.{IsClear}
use i_dcu_io_t.Plcs.Runs.{bodies, steps, turn-steps}
use i_dcu_io_t.Plcs.Rows.{kept}
use i_dcu_io_t.Plcs.Report.{readings}
use i_dcu_io_t.Plcs.Fields.{Field, body, line_text, fields_lem}
use i_dcu_io_t.Plcs.Messages.{
  value_at, values_read, values_sent, kind_33, kind_33-IsKind, body-no_cr,
}

abbrev pub none_left_out : ℕ → Bool
none_left_out k = false

-- `selectTag`: the number of values is 63.
pub select_tag : ℕ → List ℕ → List (List ℕ) → Run (List (List ℕ))
select_tag now text queue = Plcs.select_tag 256 now 63 text queue

-- What is done with a line.
pub on_line : ℕ → List ℕ → List (List ℕ) → Run (List (List ℕ))
on_line now set_buffer queue = do
  rows ← fields set_buffer
  values ← value_texts none_left_out rows.0 63 9
  select_tag now values.1 queue

-- One turn of the loop of `Socket_Manager`.
pub turn : ℕ → List ℕ → List ℕ → Conn (List (List ℕ)) → Run (Conn (List (List ℕ)))
turn now = Plcs.turn header (on_line now)

-- The rows that a message takes: 9 to 71.
unfoldable pub taken : List ℕ
taken = kept none_left_out 63 9

abbrev pub message : ℕ → List Field → List ℕ
message now fs = 63 ∷ readings (value_at fs) now taken

-- The lines that give a message.
pub record IsReport (now : ℕ) (fs : List Field) : Type 0 where
  pub enough : 69 ≤ length fs
  pub few : length fs < 253
  pub small : length (message now fs) ≤ 1024

on_line_lem :
    (now : ℕ) (fs : List Field) (queue : List (List ℕ))
    → 69 ≤ length fs
    → length fs < 253
    → length (line_text kind_33 fs) < buffer_size
    → length (message now fs) ≤ 1024
    → on_line now (set_buffer_of (line_text kind_33 fs)) queue ≡ ok (queue ++ (message now fs ∷ []))
unfolding on_line select_tag taken
on_line_lem now fs queue enough few fits small =
    let (r, e, (n, second, stands)) = fields_lem kind_33 fs kind_33-IsKind few fits in
    rw (e, values_read none_left_out 63 9 fs r.0 (omega arith) (omega arith) stands)
      (values_sent none_left_out now 256 62 9 fs queue refl (omega arith) (omega arith)
        (omega arith) (omega arith) (omega arith))

-- The driver of the older controller: any number of lines of kind 33 of 69 to 252 fields, below
-- 10240 bytes in all, in one read to a loop that holds nothing back, whose messages fit 1024
-- bytes: each line puts one message into the queue, in their order, with the words of the rows 9
-- to 71 under the numbers 100 to 162, and nothing is held back.
pub turn_reports_ten :
    (now : ℕ) (lines : List (List Field)) (stack : List ℕ) (c : Conn (List (List ℕ)))
    → All (IsReport now) lines
    → length (all_lines header (bodies body lines)) < buffer_size
    → IsClear c
    → Returns (turn now (all_lines header (bodies body lines)) stack c) (λ c'.
      IsClear c'
      × (c'.link.device ≡ steps (λ fs queue. queue ++ (message now fs ∷ [])) lines c.link.device))
unfolding turn
turn_reports_ten now lines stack c r small clear =
    turn-steps header (on_line now) body (λ fs queue. queue ++ (message now fs ∷ [])) (IsReport now)
      (λ fs queue h fits. on_line_lem now fs queue h.enough h.few fits h.small)
      (refl, (refl, (refl, (refl, (refl, (refl, tt)))))) body-no_cr lines stack c r small clear
