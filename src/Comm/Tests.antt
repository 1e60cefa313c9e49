-- ===== src/Comm/Tests.antt =====
-- src/CommManager.c: its theorems on a concrete frame and a concrete command.
use i_dcu_io_t.Common.{ℕ, ◌≡◌, refl, arith, List, [], ◌∷◌, ◌++◌, ok, Returns, replicate}
use i_dcu_io_t.Iot.Serial.{Link}
use i_dcu_io_t.M2m
use i_dcu_io_t.M2m.Arrival
use i_dcu_io_t.M2m.Arrival.{packet_bytes}
use i_dcu_io_t.M2m.Packets.{node_message, event_message, delete_node, pack_manager}
use i_dcu_io_t.M2m.Tests.{free, free-IsClear, nothing, length-nothing, world}
use i_dcu_io_t.Comm.{Sent, tag, line, turn, on_command}
use i_dcu_io_t.Comm.Frames.{IsClear, turn_tag}
use i_dcu_io_t.Comm.Commands.{change_node}

abbrev idle : Link (List Sent)
idle = record { receive_buffer = nothing; receive_size = 0; remainder = nothing; device = [] }

idle-IsClear : IsClear idle
idle-IsClear = record { buffer = length-nothing; rest = length-nothing; none = refl }

-- A frame of group 3 and node 5, behind its FE.
abbrev node_report : List ℕ
node_report = 82 ∷ 0 ∷ 0 ∷ 3 ∷ 0 ∷ 0 ∷ 5 ∷ (replicate 75 0 ++ (90 ∷ 0xff ∷ []))

turn_tag_example :
    Returns
      (turn (0xfe ∷ node_report) nothing idle)
      (λ l'. IsClear l' × (l'.device ≡ tag (5 ∷ 3 ∷ (replicate 31 0 ++ (8 ∷ []))) ∷ []))
turn_tag_example = turn_tag node_report refl refl refl nothing idle length-nothing idle-IsClear

abbrev change : List ℕ
change = 0xfe ∷ 5 ∷ 0x12 ∷ 3 ∷ 7 ∷ 8 ∷ 2 ∷ 0xff ∷ []

change_node_example :
    Returns (M2m.turn (pack_manager world) change nothing free) (λ conn'.
      Arrival.IsClear conn'
      × (conn'.link.device ≡ node_message change ∷ event_message change ∷ delete_node 7 ∷ []))
    × (on_command change []
        ≡ ok (
            line (
              0xfe ∷ 0x1a ∷ 0x1e ∷ 0x18 ∷ 7 ∷ 8 ∷ 0 ∷ 2 ∷ 0x1a ∷ 4 ∷ 0 ∷ 0 ∷ 0x32 ∷ 0 ∷ 0x32 ∷ 0
              ∷ 0x32 ∷ 0 ∷ 0x32 ∷ 0 ∷ 0x32 ∷ 0 ∷ 0x32 ∷ 1 ∷ 1 ∷ 1 ∷ 1 ∷ 1 ∷ 0xff ∷ [])
            ∷ []))
unfolding i_dcu_io_t.Comm.node_change
change_node_example =
    change_node 3 7 8 2 [] world nothing free [] (omega arith) (omega arith) length-nothing
      free-IsClear
