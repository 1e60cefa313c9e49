-- ===== src/Gn1200.antt =====
-- src/driver/GN1200.c: the client of a temperature meter that speaks Modbus: `CRC16`, the request of
-- `thread_main`, `ParsingReceiveValue`, `selectTag` and the loop of `Socket_Manager`.
pub mod Crc
pub mod Replies
pub mod Turns
pub mod Damage
pub mod Next
pub mod Again
pub mod Tests
use i_dcu_io_t.Common.{
  ℕ, zero, suc, ◌+◌, ◌-◌, ◌*◌, ◌%◌, ◌/◌, ◌^◌, Bool, true, false, List, [], ◌∷◌, ◌++◌, ◌==◌, leb,
  if◌then◌else◌, Run, ok, ◌>>=◌, read, memcpy, length, scan, bit_and, bit_or,
}
use Prim.Native.Nat.{bit_xor}
use i_dcu_io_t.Iot.Serial.{Parser, Parsed, finish, keep_rest}
use i_dcu_io_t.Iot.Server.{Conn}
use i_dcu_io_t.Driver.{buffer_size}

-- `POLYNORMIAL`.
abbrev pub polynormial : ℕ
polynormial = 0xa001

-- A round of the inner loop of `CRC16`: the lowest bit is taken out.
pub shift : ℕ → ℕ
shift crc = if bit_and crc 0x0001 == 0 then crc / 2 else bit_xor (crc / 2) polynormial

-- `for (i=0; i<8; i++)`, with the rounds left.
pub shifts : ℕ → ℕ → ℕ
shifts zero crc = crc
shifts (suc n) crc = shifts n (shift crc)

-- `while(usDataLen--)`, from the byte at `i` on.
pub crc_from : ℕ → List ℕ → ℕ → ℕ → Run ℕ
crc_from zero msg i crc = ok crc
crc_from (suc rounds) msg i crc =
    read msg i >>= λ b. crc_from rounds msg (suc i) (shifts 8 (bit_xor crc b))

-- `CRC16( msg + i, len )`.
pub crc16 : List ℕ → ℕ → ℕ → Run ℕ
crc16 msg i len = crc_from len msg i 0xffff

-- `SendBuf` of `thread_main`, sent again after each scan.
pub send_buf : List ℕ
send_buf = 0x01 ∷ 0x03 ∷ 0x00 ∷ 0x00 ∷ 0x00 ∷ 0x04 ∷ 0x44 ∷ 0x09 ∷ []

-- The temperature of `selectTag`, in tenths of a degree.
pub temperature : ℕ → ℕ → ℕ
temperature b0 b1 = bit_or (bit_and (b0 * 2 ^ 8) 0xff00 % 2 ^ 16) (bit_and b1 0x00ff)

-- `selectTag`: the temperature is shown.
pub select_tag : List ℕ → List ℕ → Run (List ℕ)
select_tag buffer shown = do
  b0 ← read buffer 0
  b1 ← read buffer 1
  ok (shown ++ (temperature b0 b1 ∷ []))

-- A reply whose check sum is right: the second of its registers is taken. Of the parser's locals
-- `set_buffer` is `byteBuffer`, and `device` holds the temperatures shown.
pub take_reply : List ℕ → ℕ → ℕ → Parser (List ℕ) → Run (ℕ × Parser (List ℕ))
take_reply cvalue i tlen p = do
  byte_buffer ← memcpy p.set_buffer 0 cvalue (i + 5) 2
  shown ← select_tag byte_buffer p.device
  ok (i + tlen + 5, record { set_buffer = byte_buffer; remain_size = i + tlen + 5; device = shown })

-- The two bytes after the reply are its check sum, the low one first.
pub checks : List ℕ → ℕ → ℕ → Run Bool
checks cvalue i crc = do
  low ← read cvalue (i + 3 + 8 + 0)
  if low == bit_and crc 0x00ff
      then (do high ← read cvalue (i + 3 + 8 + 1); ok (high == bit_and (crc / 2 ^ 8) 0x00ff))
      else ok false

-- `cvalue[i] == 0x01 && cvalue[i+1] == 0x03 && cvalue[i+2] == 0x08`.
pub starts : List ℕ → ℕ → Run Bool
starts cvalue i = do
  c0 ← read cvalue i
  if c0 == 0x01
      then (do
        c1 ← read cvalue (i + 1)
        if c1 == 0x03 then (do c2 ← read cvalue (i + 2); ok (c2 == 0x08)) else ok false)
      else ok false

-- `i = len-1; remainSize = i+1`: all that was received is done.
pub clear : ℕ → Parser (List ℕ) → ℕ × Parser (List ℕ)
clear len p = (len - 1, record p { remain_size = len - 1 + 1 })

-- A round of the loop. A reply moves the index behind its end, and the loop one byte further.
pub round : List ℕ → ℕ → ℕ → Parser (List ℕ) → Run (ℕ × Parser (List ℕ))
round cvalue len i p = do
  begins ← starts cvalue i
  if begins
      then (do
        tlen ← read cvalue (i + 2)
        crc ← crc16 cvalue i (3 + tlen)
        good ← checks cvalue i crc
        if good then take_reply cvalue i tlen p else ok (clear len p))
      else ok (if i + 1 == len then clear len p else (i, p))

-- `ParsingReceiveValue`; `byte_buffer` is what the stack holds in `byteBuffer` on entry.
pub parsing_receive_value : List ℕ → ℕ → List ℕ → ℕ → List ℕ → List ℕ → Run (Parsed (List ℕ))
parsing_receive_value cvalue len remainder remain_size byte_buffer shown =
    let start : Parser (List ℕ) = record {
      set_buffer = byte_buffer;
      remain_size = remain_size;
      device = shown;
    } in
    scan len (round cvalue len) (len + 1) 0 start >>= finish cvalue len remainder

-- `parsingSize` is not reset.
pub take_in : List ℕ → List ℕ → Conn (List ℕ) → Run (Conn (List ℕ))
take_in bytes stack c = do
  received ← memcpy c.link.receive_buffer c.link.receive_size bytes 0 (length bytes)
  p ←
      parsing_receive_value received (c.link.receive_size + length bytes) c.link.remainder
        c.parsing_size stack c.link.device
  l ← keep_rest received p
  ok (record { link = l; parsing_size = p.size })

-- One turn of the loop of `Socket_Manager` in which `recv` has brought `bytes`, at least one.
pub turn : List ℕ → List ℕ → Conn (List ℕ) → Run (Conn (List ℕ))
turn bytes stack c = if leb buffer_size (length bytes) then ok c else take_in bytes stack c
