-- ===== src/Iot/Server.antt =====
-- src/IoTManager.c: `ParsingReceiveValue` and the receiving loop of `SocketPorcess`. A request
-- is 01 02, three bytes, n, then n bytes.
pub mod Requests
pub mod Cut
pub mod Tests
use i_dcu_io_t.Common.{
  ℕ, ◌+◌, ◌-◌, Bool, List, ◌==◌, leb, if◌then◌else◌, Run, ok, ◌>>=◌, read, memcpy, length, scan,
}
use i_dcu_io_t.Iot.Serial.{buffer_size, Parser, Parsed, finish, Link, keep_rest}

-- A connection: the arrays of the loop, and `parsingSize`, which this loop does not reset.
pub record Conn (S : Type 0) : Type 0 where
  pub link : Link S
  pub parsing_size : ℕ

module _ {S : Type 0} (on_command : List ℕ → ℕ → S → Run S) where
  -- A request of `n + 6` bytes at `i`; the length is not compared with what was received.
  pub request : List ℕ → ℕ → Parser S → Run (ℕ × Parser S)
  request cvalue i p = do
    n ← read cvalue (i + 5)
    set_buffer ← memcpy p.set_buffer 0 cvalue i (n + 6)
    d ← on_command set_buffer (n + 6) p.device
    ok (i + (n + 5), record { set_buffer = set_buffer; remain_size = i + (n + 5) + 1; device = d })

  -- One round of the loop over the bytes received.
  pub round : List ℕ → ℕ → Parser S → Run (ℕ × Parser S)
  round cvalue i p = do
    c ← read cvalue i
    if c == 1
        then (do c' ← read cvalue (i + 1); if c' == 2 then request cvalue i p else ok (i, p))
        else ok (i, p)

  -- `ParsingReceiveValue`; `set_buffer` is what the stack holds in `setBuffer` on entry.
  pub parsing_receive_value : List ℕ → ℕ → List ℕ → ℕ → List ℕ → S → Run (Parsed S)
  parsing_receive_value cvalue len remainder remain_size set_buffer d =
      let start : Parser S = record {
        set_buffer = set_buffer;
        remain_size = remain_size;
        device = d;
      } in
      scan len (round cvalue) (len + 1) 0 start >>= finish cvalue len remainder

  pub take_in : List ℕ → List ℕ → Conn S → Run (Conn S)
  take_in bytes stack c = do
    received ← memcpy c.link.receive_buffer c.link.receive_size bytes 0 (length bytes)
    p ←
        parsing_receive_value received (c.link.receive_size + length bytes) c.link.remainder
          c.parsing_size stack c.link.device
    l ← keep_rest received p
    ok (record { link = l; parsing_size = p.size })

  -- One turn of the loop in which `recv` has brought `bytes`, at least one: a read that fills
  -- `DataBuf` is dropped.
  pub turn : List ℕ → List ℕ → Conn S → Run (Conn S)
  turn bytes stack c = if leb buffer_size (length bytes) then ok c else take_in bytes stack c
