-- ===== src/M2m.antt =====
-- src/M2MManager.c: the server of the M2M program, `ParsingReceiveValue` and the receiving loop of
-- `Socket_Manager`. A packet is FE, n, n bytes, FF.
pub mod Replies
pub mod Tables
pub mod Packets
pub mod Arrival
pub mod Split
pub mod Tests
use i_dcu_io_t.Common.{
  ℕ, ◌+◌, ◌-◌, Bool, List, ◌==◌, leb, if◌then◌else◌, Run, ok, ◌>>=◌, read, memcpy, length, scan,
}
use i_dcu_io_t.Iot.Serial.{Parser, Parsed, finish, keep_rest}
use i_dcu_io_t.Iot.Server.{Conn}
use i_dcu_io_t.Driver.{buffer_size}

module _ {S : Type 0} (on_packet : List ℕ → ℕ → S → Run S) where
  -- A packet of `n + 3` bytes at `i`; the length handed on is its end in what was received.
  pub packet : List ℕ → ℕ → ℕ → Parser S → Run (ℕ × Parser S)
  packet cvalue i n p = do
    set_buffer ← memcpy p.set_buffer 0 cvalue i (n + 3)
    d ← on_packet set_buffer (i + (n + 2) + 1) p.device
    ok (i + (n + 2), record { set_buffer = set_buffer; remain_size = i + (n + 2) + 1; device = d })

  -- At FE: the test `len >= i + cvalue[i+1]` leaves out the three bytes around the body.
  pub at_start : List ℕ → ℕ → ℕ → Parser S → Run (ℕ × Parser S)
  at_start cvalue len i p = do
    n ← read cvalue (i + 1)
    if leb (i + n) len
        then (do
          e ← read cvalue (i + (n + 2))
          if e == 0xff then packet cvalue i n p else ok (i, p))
        else ok (i, p)

  -- One round of the loop over the bytes received.
  pub round : List ℕ → ℕ → ℕ → Parser S → Run (ℕ × Parser S)
  round cvalue len i p = do
    c ← read cvalue i
    if c == 0xfe then at_start cvalue len i p else ok (i, p)

  -- `ParsingReceiveValue`; `set_buffer` is what the stack holds in `setBuffer` on entry.
  pub parsing_receive_value : List ℕ → ℕ → List ℕ → ℕ → List ℕ → S → Run (Parsed S)
  parsing_receive_value cvalue len remainder remain_size set_buffer d =
      let start : Parser S = record {
        set_buffer = set_buffer;
        remain_size = remain_size;
        device = d;
      } in
      scan len (round cvalue len) (len + 1) 0 start >>= finish cvalue len remainder

  -- The arrays have 1024 bytes here; `parsingSize` is not reset.
  pub take_in : List ℕ → List ℕ → Conn S → Run (Conn S)
  take_in bytes stack c = do
    received ← memcpy c.link.receive_buffer c.link.receive_size bytes 0 (length bytes)
    p ←
        parsing_receive_value received (c.link.receive_size + length bytes) c.link.remainder
          c.parsing_size stack c.link.device
    l ← keep_rest received p
    ok (record { link = l; parsing_size = p.size })

  -- One turn of the loop in which `recv` has brought `bytes`, at least one: a read that fills
  -- `DataBuf` is dropped.
  pub turn : List ℕ → List ℕ → Conn S → Run (Conn S)
  turn bytes stack c = if leb buffer_size (length bytes) then ok c else take_in bytes stack c
