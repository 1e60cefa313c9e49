-- ===== src/M2m/Split.antt =====
-- src/M2MManager.c: a packet that arrives in three reads. `Socket_Manager` hands the size that
-- the last call held back to the next one, which takes it for bytes already done.
use i_dcu_io_t.Common.{ℕ, ◌≡◌, List, length, take}
use i_dcu_io_t.Iot.Server.{Conn}
use i_dcu_io_t.Driver.{buffer_size}

-- The loop holds these bytes, after a call that gave `back`.
pub record Keeps {S : Type 0} (c : Conn S) (bytes : List ℕ) (back : ℕ) : Type 0 where
  pub buffer : length c.link.receive_buffer ≡ buffer_size
  pub rest : length c.link.remainder ≡ buffer_size
  pub held : c.link.receive_size ≡ length bytes
  pub front : take (length bytes) c.link.receive_buffer ≡ bytes
  pub size : c.parsing_size ≡ back
