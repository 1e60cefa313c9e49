-- ===== src/Iot/Event.antt =====
-- src/IoTManager.c: `receiveEvent`, `CreateSync` and `thread_syncCount`, and what they keep.
pub mod Blocks
pub mod Reports
pub mod Arrival
pub mod Handling
pub mod Sync
use i_dcu_io_t.Common.{
  ℕ, zero, suc, ◌+◌, Bool, true, false, List, [], ◌∷◌, ◌++◌, ◌==◌, if◌then◌else◌, Run, ok, no_fuel,
  ◌>>=◌, read, set, word, byte0, byte1, byte2, byte3,
}
use i_dcu_io_t.Storage.{transaction, insert_begin, insert_end}

-- What the process does to the outside: rows written, bytes sent on the serial line, bytes sent
-- to the TCP client.
pub data Effect : Type 0 where
  update : List ℕ → Effect
  sent : List ℕ → Effect
  replied : List ℕ → Effect

-- The globals `node`, `pastData` and `io`, the effects so far, and the number of calls of
-- `sqlite3_exec` so far.
pub record Device : Type 0 where
  pub node : List ℕ
  pub past : List ℕ
  pub io : List ℕ
  pub effects : List Effect
  pub calls : ℕ

-- `node.cnt[i]`, four bytes with the highest first, for the ports that are left; two more
-- bytes stand behind each.
pub counts : ℕ → List ℕ → ℕ → Run (List ℕ)
counts zero buffer offset = ok []
counts (suc ports) buffer offset = do
  b0 ← read buffer offset
  b1 ← read buffer (offset + 1)
  b2 ← read buffer (offset + 2)
  b3 ← read buffer (offset + 3)
  rest ← counts ports buffer (offset + 6)
  ok (word b0 b1 b2 b3 ∷ rest)

-- `io[i] = buffer[cntOffset++]; cntOffset += 2` for the ports that are left.
pub levels : ℕ → List ℕ → ℕ → Run (List ℕ)
levels zero buffer offset = ok []
levels (suc ports) buffer offset = do
  b ← read buffer offset
  rest ← levels ports buffer (offset + 3)
  ok (b ∷ rest)

-- `pastData.cnt[i] != node.cnt[i]` at some port.
unfoldable pub changed : List ℕ → List ℕ → Bool
changed [] ys = false
changed (x ∷ xs) [] = false
changed (x ∷ xs) (y ∷ ys) = if x == y then changed xs ys else true

-- A 32-bit word as `memcpy` moves it on this machine, the lowest byte first.
abbrev pub word_memory : List ℕ → List ℕ
word_memory [] = []
word_memory (v ∷ vs) = byte0 v ∷ byte1 v ∷ byte2 v ∷ byte3 v ∷ word_memory vs

-- `thread_syncCount`: `length` is 32, the size of `MGData`; the end byte goes to index 35.
pub sync_frame : List ℕ → List ℕ
sync_frame past = set (0xfe ∷ 35 ∷ 0x32 ∷ 32 ∷ word_memory past) 35 0xff

-- `CreateSync`: only type 1 starts the thread.
pub create_sync : ℕ → Device → Device
create_sync kind d =
    if kind == 1 then record d { effects = d.effects ++ (sent (sync_frame d.past) ∷ []) } else d

-- `exec k` is what the k-th call of `sqlite3_exec` returns; `patience` is the number of times
-- that the `do … while( transaction )` loop is followed.
module _ (exec : ℕ → ℕ) where
  pub commit : ℕ → ℕ → Run ℕ
  commit zero calls = no_fuel
  commit (suc left) calls = elim (transaction insert_end (exec calls)) [
    | true ↦ ok (suc calls)
    | false ↦ commit left (suc calls)
  ]

module _ (exec : ℕ → ℕ) (patience : ℕ) where
  -- The transaction round `_sqlite3_update`; where it does not begin, nothing is written.
  pub store : Device → Run Device
  store d =
      if transaction insert_begin (exec d.calls)
      then (do
        calls ← commit exec patience (suc (suc d.calls))
        ok (record d { effects = d.effects ++ (update d.node ∷ []); calls = calls }))
      else ok (record d { calls = suc d.calls })

  -- The `default` case: a report of the eight counters and the eight inputs.
  pub report : List ℕ → Device → Run Device
  report buffer d = do
    cnt ← counts 8 buffer 4
    io ← levels 8 buffer 52
    let seen = record d { node = cnt; io = io }
    stored ← (if changed d.past cnt then store seen else ok seen)
    ok (record stored { past = cnt })

  -- `receiveEvent`; its parameter `len` is not read.
  pub receive_event : List ℕ → ℕ → Device → Run Device
  receive_event buffer len d = do
    kind ← read buffer 2
    if kind == 1 then (do type ← read buffer 4; ok (create_sync type d)) else report buffer d
