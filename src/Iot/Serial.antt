-- ===== src/Iot/Serial.antt =====
-- src/IoTManager.c: `uartParsingReceiveValue`, `_uartGetCheckSum` and the reading loop of
-- `main`. A frame is FE, n, n bytes of which the last is a check sum, FF.
pub mod Sum
pub mod Safe
pub mod Rest
pub mod Frames
pub mod Reads
pub mod Partial
pub mod Offset
pub mod Stream
use i_dcu_io_t.Common.{
  ℕ, zero, suc, ◌+◌, ◌-◌, ◌%◌, ◌^◌, Bool, true, false, List, [], ◌∷◌, ◌++◌, ◌==◌, leb, ltb,
  if◌then◌else◌, Run, ok, fault, no_fuel, ◌>>=◌, read, memcpy, length, take, replicate, scan,
}

-- `BUFFER_SIZE` of IoTManager.c.
abbrev pub buffer_size : ℕ
buffer_size = 2048

-- `sum += buffer[i]` into an unsigned char, for the `rounds` indices from `i` on.
pub sum_from : List ℕ → ℕ → ℕ → ℕ → Run ℕ
sum_from buffer zero i sum = ok sum
sum_from buffer (suc rounds) i sum =
    read buffer i >>= λ b. sum_from buffer rounds (suc i) ((sum + b) % 2 ^ 8)

-- `_uartGetCheckSum`: `for( i = 1; i < len-2; i++ )`.
pub uart_get_check_sum : List ℕ → ℕ → Run ℕ
uart_get_check_sum buffer len = sum_from buffer (len - 3) 1 0

-- The locals of the parser that outlive a round, and the device that the frames change.
pub record Parser (S : Type 0) : Type 0 where
  pub set_buffer : List ℕ
  pub remain_size : ℕ
  pub device : S

-- What a call leaves: the array `remainder`, and the size that is returned.
pub record Parsed (S : Type 0) : Type 0 where
  pub remainder : List ℕ
  pub size : ℕ
  pub device : S

module _ {S : Type 0} where
  -- `remainSize = len - remainSize` is an int: below 0 it makes the `memcpy` run out of range.
  pub finish : List ℕ → ℕ → List ℕ → Parser S → Run (Parsed S)
  finish cvalue len remainder p =
      if leb p.remain_size len
      then (do
        r ← memcpy remainder 0 cvalue p.remain_size (len - p.remain_size)
        ok (record { remainder = r; size = len - p.remain_size; device = p.device }))
      else fault

module _ {S : Type 0} (on_frame : List ℕ → ℕ → S → Run S) where
  -- The check sum test: `receiveEvent( setBuffer, i+1 )` where it passes.
  pub deliver : List ℕ → ℕ → S → Run S
  deliver set_buffer len d = do
    sum ← uart_get_check_sum set_buffer len
    last ← read set_buffer (len - 2)
    if sum == last then on_frame set_buffer len d else ok d

  -- A frame of `n + 3` bytes at `i`; the index moves to its last byte.
  unfoldable pub accept : List ℕ → ℕ → ℕ → Parser S → Run (ℕ × Parser S)
  accept cvalue i n p = do
    set_buffer ← memcpy p.set_buffer 0 cvalue i (n + 3)
    d ← deliver set_buffer (i + (n + 2) + 1) p.device
    ok (i + (n + 2), record { set_buffer = set_buffer; remain_size = i + (n + 2) + 1; device = d })

  -- At FE: a frame is there if its length byte fits what was received and it ends in FF.
  pub at_start : List ℕ → ℕ → ℕ → Parser S → Run (ℕ × Parser S)
  at_start cvalue len i p = do
    n ← read cvalue (i + 1)
    if leb (i + (n + 3)) len
        then (do
          e ← read cvalue (i + (n + 2))
          if e == 0xff then accept cvalue i n p else ok (i, p))
        else ok (i, p)

  -- One round of the loop over the bytes received.
  pub round : List ℕ → ℕ → ℕ → Parser S → Run (ℕ × Parser S)
  round cvalue len i p = do
    c ← read cvalue i
    if c == 0xfe then at_start cvalue len i p else ok (i, p)

  -- `uartParsingReceiveValue`; `set_buffer` is what the stack holds in `setBuffer` on entry.
  pub uart_parsing_receive_value : List ℕ → ℕ → List ℕ → ℕ → List ℕ → S → Run (Parsed S)
  uart_parsing_receive_value cvalue len remainder remain_size set_buffer d =
      let start : Parser S = record {
        set_buffer = set_buffer;
        remain_size = remain_size;
        device = d;
      } in
      scan len (round cvalue len) (len + 1) 0 start >>= finish cvalue len remainder

-- The locals of `main` that outlive a read, and the device.
pub record Link (S : Type 0) : Type 0 where
  pub receive_buffer : List ℕ
  pub receive_size : ℕ
  pub remainder : List ℕ
  pub device : S

-- `memset( a, 0, sizeof(BUFFER_SIZE) )` clears the size of an int, four bytes.
pub clear_head : List ℕ → Run (List ℕ)
clear_head a = memcpy a 0 (replicate 4 0) 0 4

module _ {S : Type 0} where
  -- What follows the parser in the loop: the rest is moved to the front.
  pub keep_rest : List ℕ → Parsed S → Run (Link S)
  keep_rest receive_buffer p = do
    cleared ← clear_head receive_buffer
    moved ← memcpy cleared 0 p.remainder 0 p.size
    rest ← clear_head p.remainder
    ok (record {
      receive_buffer = moved;
      receive_size = p.size;
      remainder = rest;
      device = p.device;
    })

module _ {S : Type 0} (on_frame : List ℕ → ℕ → S → Run S) where
  -- `receiveBuffer` with the bytes appended, parsed; `parsingSize` is 0 here.
  pub take_in : List ℕ → List ℕ → Link S → Run (Link S)
  take_in bytes stack l = do
    received ← memcpy l.receive_buffer l.receive_size bytes 0 (length bytes)
    p ←
        uart_parsing_receive_value on_frame received (l.receive_size + length bytes) l.remainder 0
          stack l.device
    keep_rest received p

  -- One turn of `while(1)` after `read` has put `bytes` into `DataBuf`: nothing is done where
  -- nothing was read, or where the buffer is full.
  pub turn : List ℕ → List ℕ → Link S → Run (Link S)
  turn bytes stack l =
      if ltb 0 (length bytes)
      then if leb buffer_size l.receive_size then ok l else take_in bytes stack l
      else ok l
