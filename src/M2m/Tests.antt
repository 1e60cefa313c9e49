-- ===== src/M2m/Tests.antt =====
-- src/M2MManager.c: its theorems on concrete packets and tables.
use i_dcu_io_t.Common.{
  ℕ, ◌≡◌, refl, arith, false, List, [], ◌∷◌, ◌++◌, Run, ok, Returns, length, replicate,
  length-replicate, print_long, three,
}
use i_dcu_io_t.Iot.Command.{failed, rows}
use i_dcu_io_t.Iot.Server.{Conn}
use i_dcu_io_t.Driver.{buffer_size}
use i_dcu_io_t.M2m.{turn}
use i_dcu_io_t.M2m.Arrival.{packet_bytes, IsClear}
use i_dcu_io_t.M2m.Tables.{
  status_row, data_row, node_row, all_rows, locked, empty, logged, data_reply, node_reply,
}
use i_dcu_io_t.M2m.Tables.Rows.{time_text, status_row-printed, data_row-printed, node_row-printed}
use i_dcu_io_t.M2m.Tables.Whole.{Converts, reply_of, data_reply_lem, node_reply_lem}
use i_dcu_io_t.M2m.Packets.{Act, write, event_message, World, pack_manager}
use i_dcu_io_t.M2m.Packets.Calls.{data_body, turn_status, turn_log}

abbrev pub nothing : List ℕ
nothing = replicate 1024 0

pub length-nothing : length nothing ≡ buffer_size
length-nothing = length-replicate {A = ℕ} 1024 0

abbrev pub free : Conn (List Act)
free = record {
  link = record { receive_buffer = nothing; receive_size = 0; remainder = nothing; device = [] };
  parsing_size = 0;
}

pub free-IsClear : IsClear free
free-IsClear = record { buffer = length-nothing; rest = length-nothing; none = refl; size = refl }

-- Texts of one row of each table.
abbrev noon : List ℕ
noon = time_text 14 6 21 12 0 59 (46 ∷ three 300)

abbrev status_texts : List (List ℕ)
status_texts =
    print_long 3
    ∷ print_long 6
    ∷ print_long 1
    ∷ print_long 2
    ∷ print_long 3
    ∷ print_long 4
    ∷ print_long 5
    ∷ print_long 600000
    ∷ noon
    ∷ []

abbrev data_texts : List (List ℕ)
data_texts = print_long 3 ∷ print_long 1 ∷ print_long 70000 ∷ noon ∷ []

abbrev node_texts : List (List ℕ)
node_texts = print_long 3 ∷ print_long 9 ∷ noon ∷ []

abbrev status_bytes : List ℕ
status_bytes =
    3
    ∷ 6
    ∷ 0
    ∷ 0
    ∷ 0
    ∷ 1
    ∷ 0
    ∷ 0
    ∷ 0
    ∷ 2
    ∷ 0
    ∷ 0
    ∷ 0
    ∷ 3
    ∷ 0
    ∷ 0
    ∷ 0
    ∷ 4
    ∷ 0
    ∷ 0
    ∷ 0
    ∷ 5
    ∷ 0
    ∷ 9
    ∷ 39
    ∷ 192
    ∷ (replicate 8 0 ++ (14 ∷ 6 ∷ 21 ∷ 12 ∷ 0 ∷ 59 ∷ []))

status_texts-Converts : Converts status_row 40 (status_texts ∷ [])
status_texts-Converts = (
  (
    status_bytes,
    status_row-printed 3 6 1 2 3 4 5 600000 14 6 21 12 0 59 (46 ∷ three 300) (omega arith)
        (omega arith) (omega arith, omega arith, omega arith, omega arith, omega arith, omega arith)
        (omega arith, omega arith, omega arith, omega arith, omega arith, omega arith),
    refl,
  ),
  tt,
)

data_texts-Converts : Converts data_row 14 (data_texts ∷ [])
data_texts-Converts = (
  (
    _,
    data_row-printed 3 1 70000 14 6 21 12 0 59 300 (omega arith) (omega arith) (omega arith)
        (omega arith, omega arith, omega arith, omega arith, omega arith, omega arith)
        (omega arith),
    refl,
  ),
  tt,
)

node_texts-Converts : Converts node_row 8 (node_texts ∷ [])
node_texts-Converts = (
  (
    _,
    node_row-printed 3 9 14 6 21 12 0 59 (46 ∷ three 300) (omega arith) (omega arith)
        (omega arith, omega arith, omega arith, omega arith, omega arith, omega arith),
    refl,
  ),
  tt,
)

abbrev call : List ℕ
call = 14 ∷ 6 ∷ 21 ∷ 12 ∷ 1 ∷ 0 ∷ []

data_reply_lem_example :
    ((bytes : List ℕ) × (all_rows data_row (data_texts ∷ []) ≡ ok bytes)
      × (length bytes ≡ 14)
      × (data_reply call (logged (data_texts ∷ [])) ≡ ok (reply_of 3 call bytes)))
    × (data_reply call empty ≡ ok (reply_of 3 call []))
    × (data_reply call locked ≡ ok (0 ∷ 0 ∷ 0 ∷ 0 ∷ []))
data_reply_lem_example =
    data_reply_lem call (data_texts ∷ []) refl (omega arith) data_texts-Converts

node_reply_lem_example :
    (bytes : List ℕ) × (all_rows node_row (node_texts ∷ []) ≡ ok bytes)
    × (length bytes ≡ 8)
    × (node_reply (node_texts ∷ []) ≡ ok (0xfe ∷ 0 ∷ 11 ∷ 5 ∷ 0 ∷ 8 ∷ (bytes ++ (0xff ∷ []))))
node_reply_lem_example = node_reply_lem (node_texts ∷ []) (omega arith) node_texts-Converts

-- A handler that keeps what it is given.
abbrev keep_message : List ℕ → ℕ → List Act → Run (List Act)
keep_message buffer len acts = ok (event_message (len ∷ []) ∷ acts)

abbrev pub world : World
world = record {
  status = rows (status_texts ∷ []);
  log = λ time. logged (data_texts ∷ []);
  nodes = failed;
  is_future = λ time. false;
}

turn_status_example :
    (bytes : List ℕ) × (all_rows status_row (status_texts ∷ []) ≡ ok bytes)
    × Returns
        (turn (pack_manager world) (packet_bytes (data_body world 99 0 0 0 0 0 0 [])) nothing free)
        (λ conn'.
          IsClear conn'
          × (conn'.link.device ≡ write (reply_of 6 (99 ∷ 0 ∷ 0 ∷ 0 ∷ 0 ∷ 0 ∷ []) bytes) ∷ []))
turn_status_example =
    turn_status world 99 0 0 0 0 0 0 [] nothing free (status_texts ∷ []) (omega arith)
      length-nothing free-IsClear refl refl (omega arith) status_texts-Converts

turn_log_example :
    (bytes : List ℕ) × (all_rows data_row (data_texts ∷ []) ≡ ok bytes)
    × Returns
        (turn
          (pack_manager world)
          (packet_bytes (data_body world 14 6 21 12 1 0 0 []))
          nothing
          free)
        (λ conn'. IsClear conn' × (conn'.link.device ≡ write (reply_of 3 call bytes) ∷ []))
turn_log_example =
    turn_log world 14 6 21 12 1 0 0 [] nothing free (data_texts ∷ []) (omega arith) length-nothing
      free-IsClear refl refl (omega arith) data_texts-Converts
