-- ===== src/Iot/Command.antt =====
-- src/IoTManager.c: the commands of a TCP client, `CommandProcess`, `getIOStatus`,
-- `getCommStatus`, `setCountClear`, and `init`, which loads the counters from the table.
pub mod Bits
pub mod Stored
use i_dcu_io_t.Common.{
  ℕ, zero, suc, ◌+◌, ◌*◌, ◌%◌, ◌/◌, ◌^◌, Bool, true, false, List, [], ◌∷◌, ◌++◌, ◌==◌, leb, ltb,
  if◌then◌else◌, Option, none, some, Run, ok, fault, ◌>>=◌, read, length, replicate, bit_or,
  bit_and, atoi,
}
use i_dcu_io_t.Iot.Event.{Device, Effect, sent, replied}

abbrev pub emit : Effect → Device → Device
emit e d = record d { effects = d.effects ++ (e ∷ []) }

-- `SendBuffer[9] |= io[k] << k` into a byte, from port `k` on.
pub pack_from : ℕ → ℕ → List ℕ → ℕ
pack_from k acc [] = acc
pack_from k acc (b ∷ bs) = pack_from (suc k) (bit_or acc (b * 2 ^ k) % 2 ^ 8) bs

-- The eight inputs in one byte, input `k` at bit `k`.
pub pack_io : List ℕ → ℕ
pack_io [] = 0
pack_io (b ∷ bs) = pack_from 1 (b * 2 ^ 0 % 2 ^ 8) bs

unfoldable pub io_reply : List ℕ → List ℕ
io_reply io = 1 ∷ 2 ∷ 0 ∷ 0 ∷ 0 ∷ 4 ∷ 1 ∷ 2 ∷ 1 ∷ pack_io io ∷ []

-- `getIOStatus`.
unfoldable pub get_io_status : Device → Device
get_io_status d = emit (replied (io_reply d.io)) d

-- What `_sqlite3_select` hands back: `failed` for a size of 0 or less, or else rows of eight
-- texts, one for each port.
pub data Selected : Type 0 where
  failed : Selected
  rows : List (List (List ℕ)) → Selected

-- A counter in the order of the reply: the low half word first, each with its high byte first.
pub channel_bytes : ℕ → List ℕ
channel_bytes v =
    bit_and 0xff00 v / 2 ^ 8
    ∷ bit_and 0xff v
    ∷ bit_and 0xff000000 v / 2 ^ 24
    ∷ bit_and 0xff0000 v / 2 ^ 16
    ∷ []

unfoldable pub status_row : List (List ℕ) → List ℕ
status_row [] = []
status_row (cell ∷ cells) = channel_bytes (atoi cell) ++ status_row cells

-- `statusSend[0]`, which is cleared after each reply.
unfoldable pub first_row : List (List (List ℕ)) → List ℕ
first_row [] = replicate 32 0
first_row (r ∷ rs) = status_row r

unfoldable pub comm_reply : List (List (List ℕ)) → List ℕ
comm_reply rs = 1 ∷ 2 ∷ 0 ∷ 0 ∷ 0 ∷ 0x23 ∷ 1 ∷ 4 ∷ 0x20 ∷ first_row rs

-- `getCommStatus`: no reply where the select fails; `statusSend` has room for eight rows.
unfoldable pub get_comm_status : Selected → Device → Run Device
get_comm_status failed d = ok d
get_comm_status (rows rs) d =
    if leb (length rs) 8 then ok (emit (replied (comm_reply rs)) d) else fault

pub clear_frame : ℕ → List ℕ
clear_frame port = 0xfe ∷ 4 ∷ 0x55 ∷ 2 ∷ 2 ∷ port ∷ 0xff ∷ []

-- `setCountClear`.
pub set_count_clear : ℕ → Device → Device
set_count_clear port d = emit (sent (clear_frame port)) d

-- `CommandProcess`; its parameter `len` is not read.
unfoldable pub command_process : Selected → List ℕ → ℕ → Device → Run Device
command_process table buffer len d = do
  type ← read buffer 7
  if type == 2
      then ok (get_io_status d)
      else if type == 4
      then get_comm_status table d
      else if type == 5
      then (do port ← read buffer 9; ok (set_count_clear port d))
      else ok d

abbrev pub cells_of : List (List ℕ) → List ℕ
cells_of [] = []
cells_of (cell ∷ cells) = atoi cell ∷ cells_of cells

-- The loop of `init`: every row is copied over `pastData` and `node`, so the last one stays.
pub load_rows : List (List (List ℕ)) → Device → Device
load_rows [] d = d
load_rows (r ∷ rs) d = load_rows rs (record d { past = cells_of r; node = cells_of r })

-- `init`: `none` stands for the -1 that makes `main` give up.
pub init : Selected → Device → Option Device
init failed d = none
init (rows rs) d = some (load_rows rs d)
