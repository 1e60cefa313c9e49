-- ===== src/Plcs/Indexed.antt =====
-- src/driver/PLCS_12ex.c: the driver that numbers its messages: `createETRIPacketFormat`,
-- `selectTag_12ex` and the receiving loop of `Socket_Manager_12ex`. The parser differs from that of
-- PLCS_12.c in the header, and the rows of `selectTag_12ex` have 32 bytes.
pub mod Messages
use i_dcu_io_t.Common.{
  ℕ, zero, suc, ◌+◌, ◌-◌, ◌%◌, ◌^◌, ◌≤◌, ◌<◌, ◌≡◌, refl, sym, ◌∙◌, ap, arith, Bool, true, false,
  List, [], ◌∷◌, ◌++◌, append_assoc, ◌==◌, if◌then◌else◌, Run, ok, ◌>>=◌, Returns, length, get_or,
  length-append, Lacks, three, print_long,
}
use i_dcu_io_t.Iot.Server.{Conn}
use i_dcu_io_t.Driver.{same_bytes}
use i_dcu_io_t.Plcs
use i_dcu_io_t.Plcs.{buffer_size, fields, value_texts}
use i_dcu_io_t.Plcs.Ten.{none_left_out}

-- The queue and `indexCount`, an int by its 32-bit pattern.
pub record Counted : Type 0 where
  pub queue : List (List ℕ)
  pub index_count : ℕ

-- `":",3`
abbrev pub header : List ℕ
header = b'"' ∷ b':' ∷ b'"' ∷ b',' ∷ b'3' ∷ []

-- `idOffset-10 != 52`
abbrev pub is_left_out : ℕ → Bool
is_left_out k = k - 10 == 52

-- `selectTag_12ex`: a row has 32 bytes; the byte `parsingCnt` reaches 256 of the 1024 rows.
pub select_tag : ℕ → ℕ → List ℕ → List (List ℕ) → Run (List (List ℕ))
select_tag now count text queue = Plcs.select_tag 32 now count text queue

-- The index under the number 100, and `rounds` rows from 10 on.
pub indexed : (ℕ → Bool) → ℕ → ℕ → List (List ℕ) → Counted → Run Counted
indexed skip rounds now rows d = do
  values ← value_texts skip rows rounds 10
  queue ←
      select_tag now (values.0 + 1)
        ((three 100 ++ (b':' ∷ (print_long d.index_count ++ (b';' ∷ [])))) ++ values.1) d.queue
  ok (record { queue = queue; index_count = (d.index_count + 1) % 2 ^ 32 })

-- `createETRIPacketFormat`: all rows that are set for a line of kind 36, those up to 77 but 62 for
-- one of kind 33.
pub create_etri_packet_format : List ℕ → List (List ℕ) → ℕ → ℕ → Counted → Run Counted
create_etri_packet_format id rows count now d =
    if same_bytes id (b'3' ∷ b'6' ∷ [])
    then indexed none_left_out (count - 10) now rows d
    else if same_bytes id (b'3' ∷ b'3' ∷ [])
    then indexed is_left_out 68 now rows d
    else ok d

-- What is done with a line.
pub on_line : ℕ → List ℕ → Counted → Run Counted
on_line now set_buffer d = do
  rows ← fields set_buffer
  create_etri_packet_format (get_or rows.0 2 []) rows.0 rows.1 now d

-- One turn of the loop of `Socket_Manager_12ex`.
pub turn : ℕ → List ℕ → List ℕ → Conn Counted → Run (Conn Counted)
turn now = Plcs.turn header (on_line now)
