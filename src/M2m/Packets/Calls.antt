-- ===== src/M2m/Packets/Calls.antt =====
-- src/M2MManager.c: a call of a client from the bytes of its packet to the bytes of the reply.
use i_dcu_io_t.Common.{
  ℕ, ◌≤◌, ◌<◌, ◌≡◌, refl, arith, true, false, ◌||◌, List, [], ◌∷◌, ◌++◌, ◌==◌, ok, Returns, length,
  two,
}
use i_dcu_io_t.Iot.Command.{rows}
use i_dcu_io_t.Iot.Server.{Conn}
use i_dcu_io_t.Driver.{buffer_size}
use i_dcu_io_t.M2m.{turn}
use i_dcu_io_t.M2m.Arrival.{packet_bytes, IsClear, turn_packet}
use i_dcu_io_t.M2m.Tables.{status_row, data_row, all_rows, logged}
use i_dcu_io_t.M2m.Tables.Whole.{Converts, reply_of, status_reply_lem, data_reply_lem}
use i_dcu_io_t.M2m.Packets.{Act, write, World, get_node_status_data, get_data, pack_manager}

-- The text that sets the clock.
abbrev pub clock_text : ℕ → ℕ → ℕ → ℕ → ℕ → ℕ → List ℕ
clock_text year month day hour minute sec =
    two month ++ (two day ++ (two hour ++ (two minute ++ (50 ∷ 48 ∷ (two year ++ (46 ∷ two sec))))))

module _ (w : World) (year month day hour minute sec : ℕ) where
  -- The body of a call: its type, a byte, and then the time with what stands behind it.
  abbrev pub sync_body : ℕ → ℕ → List ℕ → List ℕ
  sync_body a node rest = 2 ∷ a ∷ node ∷ year ∷ month ∷ day ∷ hour ∷ minute ∷ sec ∷ rest

  abbrev pub data_body : ℕ → List ℕ → List ℕ
  data_body a rest = 3 ∷ a ∷ year ∷ month ∷ day ∷ hour ∷ minute ∷ sec ∷ rest

  abbrev pub call_time : List ℕ
  call_time = year ∷ month ∷ day ∷ hour ∷ minute ∷ sec ∷ []

  -- A call for data of the year 99 or of a time to come, in one read, to a loop that holds nothing
  -- back, on a status table of at most 255 rows that convert: the status is sent, as FE, head, time
  -- of the call, rows, check sum and FF.
  pub turn_status :
      (a : ℕ) (rest stack : List ℕ) (conn : Conn (List Act)) (rs : List (List (List ℕ)))
      → length rest < 240
      → length stack ≡ buffer_size
      → IsClear conn
      → ((year == 99) || w.is_future call_time) ≡ true
      → w.status ≡ rows rs
      → length rs ≤ 255
      → Converts status_row 40 rs
      → (bytes : List ℕ) × (all_rows status_row rs ≡ ok bytes)
        × Returns (turn (pack_manager w) (packet_bytes (data_body a rest)) stack conn) (λ conn'.
          IsClear conn'
          × (conn'.link.device ≡ conn.link.device ++ (write (reply_of 6 call_time bytes) ∷ [])))
  unfolding pack_manager get_data get_node_status_data
  turn_status a rest stack conn rs small ws clear now table few c =
      let (bytes, e, _, sent) = status_reply_lem call_time rs refl few c in
      (
        bytes,
        e,
        turn_packet (pack_manager w) (data_body a rest) stack conn _ (omega arith) ws clear
            (rw (now, table, sent)),
      )

  -- A call for data of a time that is past, of another year than 99, in one read, to a loop that
  -- holds nothing back, where the log has at most 1461 rows that convert: the log is sent.
  pub turn_log :
      (a : ℕ) (rest stack : List ℕ) (conn : Conn (List Act)) (rs : List (List (List ℕ)))
      → length rest < 240
      → length stack ≡ buffer_size
      → IsClear conn
      → ((year == 99) || w.is_future call_time) ≡ false
      → w.log call_time ≡ logged rs
      → length rs ≤ 1461
      → Converts data_row 14 rs
      → (bytes : List ℕ) × (all_rows data_row rs ≡ ok bytes)
        × Returns (turn (pack_manager w) (packet_bytes (data_body a rest)) stack conn) (λ conn'.
          IsClear conn'
          × (conn'.link.device ≡ conn.link.device ++ (write (reply_of 3 call_time bytes) ∷ [])))
  unfolding pack_manager get_data
  turn_log a rest stack conn rs small ws clear past table few c =
      let ((bytes, e, _, sent), _, _) = data_reply_lem call_time rs refl few c in
      (
        bytes,
        e,
        turn_packet (pack_manager w) (data_body a rest) stack conn _ (omega arith) ws clear
            (rw (past, table, sent)),
      )
