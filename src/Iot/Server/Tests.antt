-- ===== src/Iot/Server/Tests.antt =====
-- src/IoTManager.c: its theorems on concrete TCP requests, inputs and tables.
use i_dcu_io_t.Common.{ℕ, ◌≡◌, refl, arith, List, [], ◌∷◌, Returns, replicate, some}
use i_dcu_io_t.Iot.Event.{Device}
use i_dcu_io_t.Iot.Command.{failed, rows, pack_io, get_io_status, command_process, init}
use i_dcu_io_t.Iot.Command.Bits.{unpack, unpack-pack_io}
use i_dcu_io_t.Iot.Command.Stored.{printed, init-printed}
use i_dcu_io_t.Iot.Server.{Conn, turn}
use i_dcu_io_t.Iot.Server.Requests.{IsClear, request_bytes, turn_request}
use i_dcu_io_t.Iot.Tests.{zeros, length-zeros, idle, quiet, quiet-HasRoom, quiet-Holds}

abbrev pub fresh : Conn Device
fresh = record { link = quiet; parsing_size = 0 }

pub fresh-IsClear : IsClear fresh
fresh-IsClear = record { room = quiet-HasRoom; none = quiet-Holds; size = refl }

-- A request of the inputs with a body of six bytes.
abbrev inputs_body : List ℕ
inputs_body = 1 ∷ 2 ∷ 0 ∷ 0x10 ∷ 0 ∷ 8 ∷ []

turn_request_example :
    Returns
      (turn (command_process failed) (request_bytes 0 0 0 inputs_body) zeros fresh)
      (λ conn'. IsClear conn' × (conn'.link.device ≡ get_io_status idle))
unfolding command_process
turn_request_example =
    turn_request (command_process failed) 0 0 0 inputs_body zeros fresh (get_io_status idle)
      (omega arith) length-zeros fresh-IsClear refl

abbrev inputs : List ℕ
inputs = 1 ∷ 0 ∷ 1 ∷ 1 ∷ 0 ∷ 0 ∷ 0 ∷ 1 ∷ []

unpack-pack_io_example : unpack 8 (pack_io inputs) ≡ inputs
unpack-pack_io_example = unpack-pack_io inputs refl (
  omega arith,
  (
    omega arith,
    (omega arith, (omega arith, (omega arith, (omega arith, (omega arith, (omega arith, tt)))))),
  ),
)

abbrev counters : List ℕ
counters = 7 ∷ 0 ∷ 120 ∷ []

init-printed_example :
    init (rows ((printed (replicate 3 1)) ∷ printed counters ∷ [])) idle
    ≡ some (record idle { past = counters; node = counters })
init-printed_example =
    init-printed (printed (replicate 3 1) ∷ []) counters idle
      (omega arith, (omega arith, (omega arith, tt)))
