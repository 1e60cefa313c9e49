-- ===== src/Plcs/Runs.antt =====
-- The receiving loops of the drivers of src/driver/PLCS_12.c, PLCS_10.c and PLCS_12ex.c, for lines
-- that a driver takes by a step of its state.
use i_dcu_io_t.Common.{
  All, ℕ, ◌<◌, ◌≡◌, refl, sym, ap, arith, List, [], ◌∷◌, ◌++◌, append_assoc, ◌==◌, Run, ok, Returns,
  length, length-append, Lacks,
}
use i_dcu_io_t.Iot.Server.{Conn}
use i_dcu_io_t.Plcs.{buffer_size, turn}
use i_dcu_io_t.Plcs.Lines.{set_buffer_of, line, all_lines, Bodies, meaning}
use i_dcu_io_t.Plcs.Arrival.{IsClear, turn_lines}

module _ {L : Type 0} (body_of : L → List ℕ) where
  abbrev pub bodies : List L → List (List ℕ)
  bodies [] = []
  bodies (l ∷ lines) = body_of l ∷ bodies lines

module _ {L S : Type 0} (step : L → S → S) where
  abbrev pub steps : List L → S → S
  steps [] d = d
  steps (l ∷ lines) d = steps lines (step l d)

module _ {L S : Type 0} (header : List ℕ) (on_line : List ℕ → S → Run S) (body_of : L → List ℕ)
    (step : L → S → S) (Takes : L → Type 0)
    (takes : (l : L) (d : S)
      → Takes l
      → length (header ++ body_of l) < buffer_size
      → on_line (set_buffer_of (header ++ body_of l)) d ≡ ok (step l d))
    (header_no_cr : Lacks (λ c. c == 0x0d) header)
    (body_no_cr : (l : L) → Lacks (λ c. c == 0x0d) (body_of l)) where
  bodies-Bodies : (lines : List L) → Bodies (bodies body_of lines)
  bodies-Bodies [] = tt
  bodies-Bodies (l ∷ lines) = (body_no_cr l, bodies-Bodies lines)

  meaning_lem :
      (lines : List L) (d : S)
      → All Takes lines
      → length (all_lines header (bodies body_of lines)) < buffer_size
      → meaning header on_line (bodies body_of lines) d ≡ ok (steps step lines d)
  meaning_lem [] d r small = refl
  meaning_lem (l ∷ lines) d r small =
      let rest = all_lines header (bodies body_of lines) in
      let longer = length-append (line header (body_of l)) rest in
      let one = length-append (header ++ body_of l) (0x0d ∷ []) in
      let whole : line header (body_of l) ≡ (header ++ body_of l) ++ (0x0d ∷ []) =
        sym (append_assoc header (body_of l) (0x0d ∷ [])) in
      rw (takes l d r.0 (omega (arith, longer, one, ap length whole)))
        (meaning_lem lines (step l d) r.1 (omega (arith, longer)))

  pub turn-steps :
      (lines : List L) (stack : List ℕ) (c : Conn S)
      → All Takes lines
      → length (all_lines header (bodies body_of lines)) < buffer_size
      → IsClear c
      → Returns
          (turn header on_line (all_lines header (bodies body_of lines)) stack c)
          (λ c'. IsClear c' × (c'.link.device ≡ steps step lines c.link.device))
  turn-steps lines stack c r small clear =
      turn_lines header on_line header_no_cr (bodies body_of lines) stack c
        (steps step lines c.link.device) small (bodies-Bodies lines) clear
        (meaning_lem lines c.link.device r small)
