-- ===== src/Uart.antt =====
-- src/UartManager.c: its parser `ParsingReceiveValue`, which takes the counters out of a frame
-- with the index of the loop itself.
pub mod Endless
pub mod Single
pub mod Tests
use i_dcu_io_t.Common.{
  ℕ, zero, suc, ◌+◌, ◌-◌, Bool, List, [], ◌∷◌, ◌++◌, ◌==◌, leb, if◌then◌else◌, Run, ok, ◌>>=◌, read,
  memcpy, scan, bit_or,
}
use i_dcu_io_t.Iot.Serial.{uart_get_check_sum, Parser, Parsed, finish}

-- `node.cnt[i] = b; node.cnt[i] |= b; …` for the ports that are left: the bytes are not shifted.
unfoldable pub counts : ℕ → List ℕ → ℕ → Run (List ℕ)
counts zero buffer offset = ok []
counts (suc ports) buffer offset = do
  b0 ← read buffer offset
  b1 ← read buffer (offset + 1)
  b2 ← read buffer (offset + 2)
  b3 ← read buffer (offset + 3)
  rest ← counts ports buffer (offset + 6)
  ok (bit_or (bit_or (bit_or b0 b1) b2) b3 ∷ rest)

-- A frame of `n + 3` bytes at `i`: where the check sum passes, a row is written, and the loop over
-- the ports leaves 8 in the index. `device` is the rows written so far. `_getCheckSum` has the
-- same text as `_uartGetCheckSum`.
pub accept : List ℕ → ℕ → ℕ → Parser (List (List ℕ)) → Run (ℕ × Parser (List (List ℕ)))
accept cvalue i n p = do
  set_buffer ← memcpy p.set_buffer 0 cvalue i (n + 3)
  sum ← uart_get_check_sum set_buffer (i + (n + 2) + 1)
  last ← read set_buffer (i + (n + 2) + 1 - 2)
  if sum == last
      then (do
        node ← counts 8 set_buffer 4
        ok (
          8,
          record {
            set_buffer = set_buffer;
            remain_size = i + (n + 2) + 1;
            device = p.device ++ (node ∷ []);
          },
        ))
      else ok (i + (n + 2), record p { set_buffer = set_buffer; remain_size = i + (n + 2) + 1 })

pub at_start : List ℕ → ℕ → ℕ → Parser (List (List ℕ)) → Run (ℕ × Parser (List (List ℕ)))
at_start cvalue len i p = do
  n ← read cvalue (i + 1)
  if leb (i + (n + 3)) len
      then (do e ← read cvalue (i + (n + 2)); if e == 0xff then accept cvalue i n p else ok (i, p))
      else ok (i, p)

-- One round of the loop over the bytes received.
pub round : List ℕ → ℕ → ℕ → Parser (List (List ℕ)) → Run (ℕ × Parser (List (List ℕ)))
round cvalue len i p = do
  c ← read cvalue i
  if c == 0xfe then at_start cvalue len i p else ok (i, p)

-- `ParsingReceiveValue` followed for `rounds` rounds of its loop: a frame moves the index back, so
-- no number of rounds is enough for every buffer.
pub parsing_receive_value :
    ℕ → List ℕ → ℕ → List ℕ → ℕ → List ℕ → List (List ℕ) → Run (Parsed (List (List ℕ)))
parsing_receive_value rounds cvalue len remainder remain_size set_buffer d =
    let start : Parser (List (List ℕ)) = record {
      set_buffer = set_buffer;
      remain_size = remain_size;
      device = d;
    } in
    scan len (round cvalue len) rounds 0 start >>= finish cvalue len remainder
