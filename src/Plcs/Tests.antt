-- ===== src/Plcs/Tests.antt =====
-- src/driver/PLCS_12.c, PLCS_10.c and PLCS_12ex.c: their theorems on concrete lines.
use i_dcu_io_t.Common.{
  ℕ, ◌≡◌, refl, arith, true, List, [], ◌∷◌, Returns, length, replicate, length-replicate,
}
use i_dcu_io_t.Iot.Server.{Conn}
use i_dcu_io_t.Plcs
use i_dcu_io_t.Plcs.{buffer_size, header, on_line}
use i_dcu_io_t.Plcs.Lines.{all_lines}
use i_dcu_io_t.Plcs.Arrival.{IsClear}
use i_dcu_io_t.Plcs.Runs.{bodies}
use i_dcu_io_t.Plcs.Fields.{Field, body}
use i_dcu_io_t.Plcs.Messages.{message, IsReport, turn_reports}
use i_dcu_io_t.Plcs.Ten
use i_dcu_io_t.Plcs.Ten.{turn_reports_ten}
use i_dcu_io_t.Plcs.Indexed
use i_dcu_io_t.Plcs.Indexed.{Counted}
use i_dcu_io_t.Plcs.Indexed.Messages.{Line, body_of, counted, Takes, turn_indexed}

-- Arrays with nothing in them.
pub zeros : List ℕ
zeros = replicate 10240 0

pub length-zeros : length zeros ≡ buffer_size
unfolding zeros
length-zeros = length-replicate {A = ℕ} 10240 0

module _ {S : Type 0} (d : S) where
  abbrev pub quiet : Conn S
  quiet = record {
    link = record { receive_buffer = zeros; receive_size = 0; remainder = zeros; device = d };
    parsing_size = 0;
  }

  pub quiet-IsClear : IsClear quiet
  quiet-IsClear = record { buffer = length-zeros; rest = length-zeros; none = refl; size = refl }

abbrev pub one : Field
one = record {
  left = 1;
  word = b'1' ∷ [];
  right = 0;
  full = tt;
  plain = (refl, tt);
  small = omega arith;
}

abbrev pub ones : List Field
ones = replicate 75 one

pub ones-IsReport : IsReport 5 ones
unfolding Plcs.Messages.taken
ones-IsReport = record { enough = omega arith; few = omega arith; small = omega arith }

turn_reports_example :
    Returns
      (Plcs.turn header
        (on_line 5)
        (all_lines header (bodies body (ones ∷ ones ∷ [])))
        []
        (quiet []))
      (λ c'. IsClear c' × (c'.link.device ≡ message 5 ones ∷ message 5 ones ∷ []))
turn_reports_example =
    turn_reports 5 (ones ∷ ones ∷ []) [] (quiet []) (ones-IsReport, (ones-IsReport, tt))
      (omega arith) (quiet-IsClear [])

ones-IsReport_ten : Plcs.Ten.IsReport 5 ones
unfolding Plcs.Ten.taken
ones-IsReport_ten = record { enough = omega arith; few = omega arith; small = omega arith }

turn_reports_ten_example :
    Returns
      (Plcs.Ten.turn 5 (all_lines header (bodies body (ones ∷ []))) [] (quiet []))
      (λ c'. IsClear c' × (c'.link.device ≡ Plcs.Ten.message 5 ones ∷ []))
turn_reports_ten_example =
    turn_reports_ten 5 (ones ∷ []) [] (quiet []) (ones-IsReport_ten, tt) (omega arith)
      (quiet-IsClear [])

abbrev fresh : Counted
fresh = record { queue = []; index_count = 1 }

-- A line of kind 36 with eight fields.
abbrev short_line : Line
short_line = record { is_36 = true; fields = replicate 8 one }

short_line-Takes : Takes 5 short_line
unfolding Plcs.Indexed.Messages.taken
short_line-Takes = record {
  enough = omega arith;
  few = omega arith;
  short = omega arith;
  small = omega arith;
}

abbrev counted_line : Line → Counted → Counted
counted_line l = counted 5 l.fields (Plcs.Indexed.Messages.taken l.is_36 (length l.fields))

turn_indexed_example :
    Returns
      (Plcs.Indexed.turn 5
        (all_lines Plcs.Indexed.header (bodies body_of (short_line ∷ short_line ∷ [])))
        []
        (quiet fresh))
      (λ c'.
        IsClear c' × (c'.link.device ≡ counted_line short_line (counted_line short_line fresh)))
turn_indexed_example =
    turn_indexed 5 (short_line ∷ short_line ∷ []) [] (quiet fresh)
      (short_line-Takes, (short_line-Takes, tt)) (omega arith) (quiet-IsClear fresh)
