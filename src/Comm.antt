-- ===== src/Comm.antt =====
-- src/CommManager.c: the bridge between the nodes on a serial line and the queues. A frame is 85
-- bytes from FE to FF with a check sum before the FF. `BUFFER_SIZE` is 1024 here as well.
pub mod Positions
pub mod Frames
pub mod Commands
pub mod Tests
use i_dcu_io_t.Common.{
  ℕ, zero, suc, ◌+◌, ◌-◌, ◌%◌, ◌^◌, Bool, true, false, ◌&&◌, List, [], ◌∷◌, ◌++◌, ◌==◌, leb, ltb,
  if◌then◌else◌, Run, ok, ◌>>=◌, read, memcpy, length, replicate, scan,
}
use i_dcu_io_t.Iot.Serial.{Parser, Parsed, finish, Link, keep_rest, accept}
use i_dcu_io_t.Driver.{buffer_size}

-- What the program does to the outside: a message for the queue of the tags, bytes for the nodes.
pub data Sent : Type 0 where
  tag : List ℕ → Sent
  line : List ℕ → Sent

-- The four bytes of each counter, for the ports that are left; two more stand behind each.
pub count_fields : ℕ → List ℕ → ℕ → Run (List ℕ)
count_fields zero buffer offset = ok []
count_fields (suc ports) buffer offset = do
  b0 ← read buffer offset
  b1 ← read buffer (offset + 1)
  b2 ← read buffer (offset + 2)
  b3 ← read buffer (offset + 3)
  rest ← count_fields ports buffer (offset + 6)
  ok (b0 ∷ b1 ∷ b2 ∷ b3 ∷ rest)

-- `data_buff[offset] += data_buff[i]` into an unsigned char.
pub byte_sum : ℕ → List ℕ → ℕ
byte_sum acc [] = acc
byte_sum acc (x ∷ xs) = byte_sum ((acc + x) % 2 ^ 8) xs

-- `selectTag`: node, group, number, six inputs, six counters, and their sum; `len` is not read.
pub select_tag : List ℕ → ℕ → List Sent → Run (List Sent)
select_tag buffer len sent = do
  nodeid ← read buffer 7
  group ← read buffer 4
  seq ← read buffer 10
  w0 ← read buffer 13
  w1 ← read buffer 16
  w2 ← read buffer 19
  w3 ← read buffer 22
  w4 ← read buffer 25
  w5 ← read buffer 28
  cnt ← count_fields 6 buffer 31
  let fields = nodeid ∷ group ∷ seq ∷ w0 ∷ w1 ∷ w2 ∷ w3 ∷ w4 ∷ w5 ∷ cnt
  ok (sent ++ (tag (fields ++ (byte_sum 0 fields ∷ [])) ∷ []))

-- At FE: a frame has 85 bytes here, whatever its length byte. What is done with it has the text
-- of `uartParsingReceiveValue`, for a length byte of 82.
pub at_start : List ℕ → ℕ → ℕ → Parser (List Sent) → Run (ℕ × Parser (List Sent))
at_start cvalue len i p =
    if leb (i + 85) len
    then (do
      e ← read cvalue (i + 84)
      if e == 0xff then accept select_tag cvalue i 82 p else ok (i, p))
    else ok (i, p)

-- One round of the loop over the bytes received.
pub round : List ℕ → ℕ → ℕ → Parser (List Sent) → Run (ℕ × Parser (List Sent))
round cvalue len i p = do
  c ← read cvalue i
  if c == 0xfe then at_start cvalue len i p else ok (i, p)

-- `ParsingReceiveValue`.
pub parsing_receive_value : List ℕ → ℕ → List ℕ → ℕ → List ℕ → List Sent → Run (Parsed (List Sent))
parsing_receive_value cvalue len remainder remain_size set_buffer sent =
    let start : Parser (List Sent) = record {
      set_buffer = set_buffer;
      remain_size = remain_size;
      device = sent;
    } in
    scan len (round cvalue len) (len + 1) 0 start >>= finish cvalue len remainder

pub take_in : List ℕ → List ℕ → Link (List Sent) → Run (Link (List Sent))
take_in bytes stack l = do
  received ← memcpy l.receive_buffer l.receive_size bytes 0 (length bytes)
  p ← parsing_receive_value received (l.receive_size + length bytes) l.remainder 0 stack l.device
  keep_rest received p

-- The first half of a turn of `main`, after `read` has put `bytes` into `DataBuf`.
pub turn : List ℕ → List ℕ → Link (List Sent) → Run (Link (List Sent))
turn bytes stack l =
    if ltb 0 (length bytes)
    then if leb buffer_size l.receive_size then ok l else take_in bytes stack l
    else ok l

-- `nodeChangeBuf` with the node, its new number and its group.
pub node_change : ℕ → ℕ → ℕ → List ℕ
node_change nodeid setid group =
    0xfe ∷ 0x1a ∷ 0x1e ∷ 0x18 ∷ nodeid ∷ setid ∷ 0 ∷ group ∷ 0x1a ∷ 4 ∷ 0 ∷ 0 ∷ 0x32 ∷ 0 ∷ 0x32 ∷ 0
    ∷ 0x32 ∷ 0 ∷ 0x32 ∷ 0 ∷ 0x32 ∷ 0 ∷ 0x32 ∷ 1 ∷ 1 ∷ 1 ∷ 1 ∷ 1 ∷ 0xff ∷ []

-- `remoteNodeCommand`: `size` is an unsigned char.
pub remote_node_command : List ℕ → ℕ → List Sent → Run (List Sent)
remote_node_command buffer len sent = do
  data_buf ← memcpy (replicate len 0) 0 buffer 0 len
  n ← read data_buf 1
  type ← read data_buf 2
  if (n + 3) % 2 ^ 8 == len
      then if type == 1
        then ok (sent ++ (line data_buf ∷ []))
        else if type == 0x12
        then (do
          nodeid ← read data_buf 4
          setid ← read data_buf 5
          group ← read data_buf 6
          ok (sent ++ (line (node_change nodeid setid group) ∷ [])))
        else ok sent
      else ok sent

-- The second half of a turn of `main`, on a message of the queue of commands: the value of the
-- command is copied into 16 bytes, whatever its length, and is not used.
pub on_command : List ℕ → List Sent → Run (List Sent)
on_command message sent = do
  let data_buff = message ++ replicate (1024 - length message) 0
  first ← read data_buff 0
  last ← read message (length message - 1)
  if (first == 0xfe) && (last == 0xff)
      then (do
        size ← read data_buff 3
        value ← memcpy (replicate 16 0) 0 data_buff 4 size
        remote_node_command data_buff (length message) sent)
      else ok sent
