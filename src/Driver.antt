-- ===== src/Driver.antt =====
-- src/driver/iDCU_IoT.c: the client that asks the gateway for its inputs and counters and hands
-- changes to the message queue: `thread_main`, `ParsingReceiveValue_iDCU_IoT`,
-- `selectTag_iDCU_IoT` and the loop of `Socket_Manager_iDCU_IoT`.
pub mod Tags
pub mod Replies
pub mod EndToEnd
pub mod Tests
use i_dcu_io_t.Common.{
  ℕ, zero, suc, ◌+◌, ◌-◌, ◌*◌, ◌%◌, ◌/◌, ◌^◌, Bool, true, false, ◌&&◌, ◌||◌, List, [], ◌∷◌, ◌++◌,
  ◌==◌, leb, ltb, if◌then◌else◌, Run, ok, fault, ◌>>=◌, read, memcpy, length, replicate, scan,
  bit_and, bit_or, byte0, byte1, byte2, byte3, print_long,
}

-- `BUFFER_SIZE` of include/M2MManager.h.
abbrev pub buffer_size : ℕ
buffer_size = 1024

-- `SendBuf` of `thread_main`: the two requests that it sends in turn.
pub poll : Bool → List ℕ
poll false = 1 ∷ 2 ∷ 0 ∷ 0 ∷ 0 ∷ 6 ∷ 1 ∷ 2 ∷ 0 ∷ 0x10 ∷ 0 ∷ 8 ∷ []
poll true = 1 ∷ 2 ∷ 0 ∷ 0 ∷ 0 ∷ 6 ∷ 1 ∷ 4 ∷ 0 ∷ 0x10 ∷ 0 ∷ 0x10 ∷ []

-- The statics, and the messages handed to `msgsnd` so far, each `data_num` bytes of `data_buff`.
pub record Tag : Type 0 where
  pub wo_past : ℕ
  pub cnt_past : List ℕ
  pub pre_qty : ℕ
  pub offered : List (List ℕ)

-- `memcpy( …, &sensingTime, 4 )`: the seconds, the lowest byte first.
abbrev pub utc : ℕ → List ℕ
utc t = byte0 t ∷ byte1 t ∷ byte2 t ∷ byte3 t ∷ []

-- A reading: transducer id, time, length, text with its end byte.
abbrev pub reading : ℕ → ℕ → List ℕ → List ℕ
reading id t text = id ∷ 0 ∷ (utc t ++ ((length text + 1) ∷ (text ++ (0 ∷ []))))

pub wo_text : ℕ → List ℕ
wo_text bit = (if bit == 0 then 0x30 else 0x31) ∷ []

-- `case 2`: the second input.
pub select_wo : List ℕ → ℕ → Tag → Run Tag
select_wo buffer t s = do
  b ← read buffer 0
  let bit = bit_and 2 b
  let message = 1 ∷ reading 51 t (wo_text bit)
  ok (record s {
    wo_past = bit;
    offered = if s.wo_past == bit then s.offered else s.offered ++ (message ∷ []);
  })

-- `count |= (0xff & buffer[k]) << n`, from the lowest byte of the word on.
pub count_word : ℕ → ℕ → ℕ → ℕ → ℕ
count_word b0 b1 b2 b3 =
    bit_or
      (bit_or (bit_or (bit_and 0xff b1 * 2 ^ 0) (bit_and 0xff b0 * 2 ^ 8))
        (bit_and 0xff b3 * 2 ^ 16))
      (bit_and 0xff b2 * 2 ^ 24)

-- The count of the first four bytes of a reply.
abbrev pub count_of : List ℕ → ℕ
count_of (b0 ∷ b1 ∷ b2 ∷ b3 ∷ _) = count_word b0 b1 b2 b3
count_of _ = 0

abbrev pub same_bytes : List ℕ → List ℕ → Bool
same_bytes [] [] = true
same_bytes (x ∷ xs) (y ∷ ys) = (x == y) && same_bytes xs ys
same_bytes _ _ = false

-- `case 4` on the bytes read: the total and what was added since; a first count, or one that
-- went back, is only remembered. UINT32 is the 32-bit `unsigned long`.
pub select_count : List ℕ → ℕ → Tag → Tag
select_count bytes t s =
    let count = count_of bytes in
    let qty = count - s.pre_qty in
    let message = 2 ∷ (reading 52 t (print_long count) ++ reading 53 t (print_long qty)) in
    if s.pre_qty == 0 || ltb count s.pre_qty
    then record s { cnt_past = bytes; pre_qty = count }
    else record s {
      cnt_past = bytes;
      pre_qty = count;
      offered = if same_bytes s.cnt_past bytes then s.offered else s.offered ++ (message ∷ []);
    }

-- `selectTag_iDCU_IoT` at time `t`; its parameter `len` is not read.
pub select_tag : List ℕ → ℕ → ℕ → Tag → Run Tag
select_tag buffer type t s =
    if type == 2
    then select_wo buffer t s
    else if type == 4
    then (do
      b0 ← read buffer 0
      b1 ← read buffer 1
      b2 ← read buffer 2
      b3 ← read buffer 3
      ok (select_count (b0 ∷ b1 ∷ b2 ∷ b3 ∷ []) t s))
    else ok s

-- The locals of the parser; `stopped` is its early return of 0.
pub record Parser : Type 0 where
  pub byte_buffer : List ℕ
  pub remain_size : ℕ
  pub stopped : Bool
  pub tag : Tag

pub record Parsed : Type 0 where
  pub remainder : List ℕ
  pub size : ℕ
  pub tag : Tag

-- A reply at `i`; the index moves past it, and the loop moves it once more.
pub reply : List ℕ → ℕ → ℕ → ℕ → Parser → Run (ℕ × Parser)
reply cvalue len t i p = do
  tlen ← read cvalue (i + 5)
  m ← read cvalue (i + 8)
  if tlen == m + 3
      then (do
        buffer ← memcpy p.byte_buffer 0 cvalue (i + 9) (tlen - 3)
        type ← read cvalue (i + 7)
        s ← select_tag buffer type t p.tag
        ok (i + tlen + 6, record p { byte_buffer = buffer; remain_size = i + tlen + 6; tag = s }))
      else ok (len, record p { stopped = true })

pub round : List ℕ → ℕ → ℕ → ℕ → Parser → Run (ℕ × Parser)
round cvalue len t i p = do
  c ← read cvalue i
  if c == 1
      then (do c' ← read cvalue (i + 1); if c' == 2 then reply cvalue len t i p else ok (i, p))
      else ok (i, p)

-- A return of 0 leaves `remainder` alone; a negative size runs out of range.
pub finish : List ℕ → ℕ → List ℕ → Parser → Run Parsed
finish cvalue len remainder p =
    if p.stopped
    then ok (record { remainder = remainder; size = 0; tag = p.tag })
    else if leb p.remain_size len
    then (do
      r ← memcpy remainder 0 cvalue p.remain_size (len - p.remain_size)
      ok (record { remainder = r; size = len - p.remain_size; tag = p.tag }))
    else fault

-- `ParsingReceiveValue_iDCU_IoT`; `byte_buffer` is what the stack holds in `byteBuffer`.
pub parsing_receive_value : List ℕ → ℕ → ℕ → List ℕ → ℕ → List ℕ → Tag → Run Parsed
parsing_receive_value cvalue len t remainder remain_size byte_buffer s =
    let start : Parser = record {
      byte_buffer = byte_buffer;
      remain_size = remain_size;
      stopped = false;
      tag = s;
    } in
    scan len (round cvalue len t) (len + 1) 0 start >>= finish cvalue len remainder

-- The locals of `Socket_Manager_iDCU_IoT` that outlive a read.
pub record Link : Type 0 where
  pub receive_buffer : List ℕ
  pub receive_size : ℕ
  pub remainder : List ℕ
  pub parsing_size : ℕ
  pub tag : Tag

clear_head : List ℕ → Run (List ℕ)
clear_head a = memcpy a 0 (replicate 4 0) 0 4

pub take_in : List ℕ → ℕ → List ℕ → Link → Run Link
take_in bytes t stack l = do
  received ← memcpy l.receive_buffer l.receive_size bytes 0 (length bytes)
  p ←
      parsing_receive_value received (l.receive_size + length bytes) t l.remainder l.parsing_size
        stack l.tag
  cleared ← clear_head received
  moved ← memcpy cleared 0 p.remainder 0 p.size
  rest ← clear_head p.remainder
  ok (record {
    receive_buffer = moved;
    receive_size = p.size;
    remainder = rest;
    parsing_size = p.size;
    tag = p.tag;
  })

-- One turn of the loop in which `recv` has brought `bytes`, at least one: a read that fills
-- `DataBuf` is dropped.
pub turn : List ℕ → ℕ → List ℕ → Link → Run Link
turn bytes t stack l = if leb buffer_size (length bytes) then ok l else take_in bytes t stack l
