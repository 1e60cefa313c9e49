-- ===== src/Driver/Tests.antt =====
-- src/driver/iDCU_IoT.c: its theorems on concrete replies and tags.
use i_dcu_io_t.Common.{
  ℕ, ◌≡◌, refl, arith, List, [], ◌∷◌, Returns, length, replicate, length-replicate, true, false,
}
use i_dcu_io_t.Iot.Command.{failed, rows, io_reply, comm_reply, command_process}
use i_dcu_io_t.Iot.Command.Stored.{printed}
use i_dcu_io_t.Iot.Server
use i_dcu_io_t.Iot.Server.Requests
use i_dcu_io_t.Iot.Server.Tests.{fresh, fresh-IsClear}
use i_dcu_io_t.Iot.Tests.{zeros, length-zeros, idle}
use i_dcu_io_t.Driver.{buffer_size, poll, Tag, reading, Link, turn}
use i_dcu_io_t.Driver.Tags.{count_bytes, count_message, Agrees}
use i_dcu_io_t.Driver.Replies.{IsClear}
use i_dcu_io_t.Driver.EndToEnd.{answered, poll_inputs, poll_counters}

abbrev nothing : List ℕ
nothing = replicate 1024 0

length-nothing : length nothing ≡ buffer_size
length-nothing = length-replicate {A = ℕ} 1024 0

-- `byteBuffer` with nothing in it.
abbrev byte_buffer : List ℕ
byte_buffer = replicate 64 0

-- The tags after a count of 5.
abbrev known : Tag
known = record { wo_past = 0; cnt_past = count_bytes 5; pre_qty = 5; offered = [] }

known-Agrees : Agrees known
known-Agrees = record { bytes = refl; word = omega arith }

abbrev waiting : Link
waiting = record {
  receive_buffer = nothing;
  receive_size = 0;
  remainder = nothing;
  parsing_size = 0;
  tag = known;
}

waiting-IsClear : IsClear waiting
waiting-IsClear = record {
  buffer = length-nothing;
  rest = length-nothing;
  none = refl;
  size = refl;
}

poll_inputs_example :
    Returns
      (Server.turn (command_process failed) (poll false) zeros fresh)
      (λ conn'. Requests.IsClear conn' × (conn'.link.device ≡ answered idle (io_reply idle.io)))
    × Returns (turn (io_reply idle.io) 100 byte_buffer waiting) (λ l'.
      IsClear l'
      × (l'.tag ≡ record known { wo_past = 2; offered = (1 ∷ reading 51 100 (49 ∷ [])) ∷ [] }))
poll_inputs_example =
    poll_inputs failed zeros byte_buffer fresh waiting 100 length-zeros (omega arith) fresh-IsClear
      waiting-IsClear refl
      (
        omega arith,
        (
          omega arith,
          (
            omega arith,
            (omega arith, (omega arith, (omega arith, (omega arith, (omega arith, tt))))),
          ),
        ),
      )

poll_counters_example :
    Returns
      (Server.turn (command_process (rows (printed (replicate 8 9) ∷ []))) (poll true) zeros fresh)
      (λ conn'.
        Requests.IsClear conn'
        × (conn'.link.device ≡ answered idle (comm_reply (printed (replicate 8 9) ∷ []))))
    × Returns (turn (comm_reply (printed (replicate 8 9) ∷ [])) 100 byte_buffer waiting) (λ l'.
      IsClear l'
      × (l'.tag.pre_qty ≡ 9)
      × Agrees l'.tag
      × (l'.tag.wo_past ≡ 0)
      × (l'.tag.offered ≡ count_message 100 9 4 ∷ []))
poll_counters_example =
    poll_counters 9 (replicate 7 9) [] zeros byte_buffer fresh waiting 100 (omega arith) refl
      (omega arith) length-zeros (omega arith) fresh-IsClear waiting-IsClear known-Agrees
