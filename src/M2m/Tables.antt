-- ===== src/M2m/Tables.antt =====
-- src/M2MManager.c: the rows that `getNodeStatusData`, `getNodeData` and `commandGetNodeInfo` make
-- of the texts of a select.
pub mod Rows
pub mod Whole
use i_dcu_io_t.Common.{
  ℕ, ◌+◌, ◌-◌, ◌*◌, ◌/◌, ◌%◌, ◌^◌, List, [], ◌∷◌, ◌++◌, Run, ok, fault, ◌>>=◌, read, memcpy, take,
  length, replicate, leb, if◌then◌else◌, bit_and, atoi,
}
use i_dcu_io_t.M2m.Replies.{tlv_size, tlv_reply}

-- `p[k]` of a C string.
abbrev pub char_at : List ℕ → ℕ → Run ℕ
char_at text k = read (text ++ (0 ∷ [])) k

-- Two characters of a time from `k` on, as a char.
pub two_digits : List ℕ → ℕ → Run ℕ
two_digits text k = do a ← char_at text k; b ← char_at text (k + 1); ok (atoi (a ∷ b ∷ []) % 2 ^ 8)

-- Year, month, day, hour, minute and second of a text YYYYmmddHHMMSS.
pub time_bytes : List ℕ → Run (List ℕ)
time_bytes text = do
  year ← two_digits text 2
  month ← two_digits text 4
  day ← two_digits text 6
  hour ← two_digits text 8
  min ← two_digits text 10
  sec ← two_digits text 12
  ok (year ∷ month ∷ day ∷ hour ∷ min ∷ sec ∷ [])

-- A word with its highest byte first.
pub word_bytes : ℕ → List ℕ
word_bytes v =
    bit_and 0xff000000 v / 2 ^ 24
    ∷ bit_and 0xff0000 v / 2 ^ 16
    ∷ bit_and 0xff00 v / 2 ^ 8
    ∷ bit_and 0xff v
    ∷ []

-- `AustemStatusSendData`, 40 bytes: channels 6 and 7 are never set.
pub status_row : List (List ℕ) → Run (List ℕ)
status_row (node ∷ size ∷ p0 ∷ p1 ∷ p2 ∷ p3 ∷ p4 ∷ p5 ∷ datetime ∷ []) = do
  time ← time_bytes datetime
  ok (
      (atoi node % 2 ^ 8 ∷ atoi size % 2 ^ 8 ∷ [])
      ++ (word_bytes (atoi p0)
          ++ (word_bytes (atoi p1)
              ++ (word_bytes (atoi p2)
                  ++ (word_bytes (atoi p3)
                      ++ (word_bytes (atoi p4)
                          ++ (word_bytes (atoi p5) ++ (replicate 8 0 ++ time))))))))
status_row _ = fault

-- The milliseconds of a time text, as an unsigned short in two bytes.
pub milli_bytes : List ℕ → Run (List ℕ)
milli_bytes text = do
  a ← char_at text 15
  b ← char_at text 16
  c ← char_at text 17
  let sec = atoi (a ∷ b ∷ c ∷ []) % 2 ^ 16
  ok (bit_and 0xff00 sec / 2 ^ 8 ∷ bit_and 0xff sec ∷ [])

-- `AustemSendData`, 14 bytes.
pub data_row : List (List ℕ) → Run (List ℕ)
data_row (node ∷ port ∷ value ∷ datetime ∷ []) = do
  time ← time_bytes datetime
  milli ← milli_bytes datetime
  ok ((atoi node % 2 ^ 8 ∷ atoi port % 2 ^ 8 ∷ []) ++ (word_bytes (atoi value) ++ (time ++ milli)))
data_row _ = fault

-- `RTRNNODEGROUP`, 8 bytes.
pub node_row : List (List ℕ) → Run (List ℕ)
node_row (node ∷ group ∷ datetime ∷ []) = do
  time ← time_bytes datetime
  ok (atoi node % 2 ^ 8 ∷ atoi group % 2 ^ 8 ∷ time)
node_row _ = fault

-- The rows of a loop over the table, one behind the other.
pub all_rows : (List (List ℕ) → Run (List ℕ)) → List (List (List ℕ)) → Run (List ℕ)
all_rows row [] = ok []
all_rows row (r ∷ rs) = do bytes ← row r; rest ← all_rows row rs; ok (bytes ++ rest)

-- An array of `room` rows of `width` bytes that begins with these rows; the rest is 0.
pub filled_array : (List (List ℕ) → Run (List ℕ)) → ℕ → ℕ → List (List (List ℕ)) → Run (List ℕ)
filled_array row width room rs =
    if leb (length rs) room
    then (do bytes ← all_rows row rs; ok (bytes ++ replicate (width * (room - length rs)) 0))
    else fault

-- `getNodeStatusData` on a table with these rows.
pub status_reply : List ℕ → List (List (List ℕ)) → Run (List ℕ)
status_reply time rs = do
  array ← filled_array status_row 40 256 rs
  let v_length = 40 * length rs + 6
  tlv_reply (replicate tlv_size 0) 6 time array v_length v_length

-- The result of the select of `getNodeData`: a size of -1, of 0, or rows.
pub data Logged : Type 0 where
  locked : Logged
  empty : Logged
  logged : List (List (List ℕ)) → Logged

-- `getNodeData`: what it sends; after a size of -1 that is four bytes of a cleared buffer.
pub data_reply : List ℕ → Logged → Run (List ℕ)
data_reply time locked = ok (replicate 4 0)
data_reply time empty = tlv_reply (replicate tlv_size 0) 3 time [] 0 6
data_reply time (logged rs) = do
  array ← filled_array data_row 14 2048 rs
  let v_length = 14 * length rs + 6
  tlv_reply (replicate tlv_size 0) 3 time array v_length v_length

-- `commandGetNodeInfo` on a table with these rows.
pub node_reply : List (List (List ℕ)) → Run (List ℕ)
node_reply rs = do
  send ← filled_array node_row 8 64 rs
  let v = 8 * length rs
  let total = v + 3
  headed ←
      memcpy (replicate 1024 0) 0
        (0xfe ∷ total / 2 ^ 8 % 2 ^ 8 ∷ total % 2 ^ 8 ∷ 5 ∷ v / 2 ^ 8 % 2 ^ 8 ∷ v % 2 ^ 8 ∷ []) 0 6
  filled ← memcpy headed 6 send 0 v
  ended ← memcpy filled (total + 3) (0xff ∷ []) 0 1
  ok (take (total + 4) ended)
