-- ===== src/Plcs.antt =====
-- src/driver/PLCS_12.c: the driver of a controller that sends lines of fields, its parser
-- `ParsingReceiveValue_12`, `selectTag_12` and the receiving loop of `Socket_Manager_12`.
pub mod Lines
pub mod Arrival
pub mod Runs
pub mod Rows
pub mod Report
pub mod Fields
pub mod Messages
pub mod Ten
pub mod Indexed
pub mod Tests
use i_dcu_io_t.Common.{
  ℕ, zero, suc, ◌+◌, ◌-◌, ◌%◌, Bool, true, false, Option, none, some, List, [], ◌∷◌, ◌++◌, ◌==◌,
  leb, ltb, if◌then◌else◌, Run, ok, fault, ◌>>=◌, read, memcpy, length, replicate, set, get_or,
  scan, atoi, three, c_string, tokens, trim,
}
use i_dcu_io_t.Iot.Serial.{Parser, Parsed, finish}
use i_dcu_io_t.Iot.Server.{Conn}
use i_dcu_io_t.Driver.{utc}

-- `BUFFER_SIZE*10`.
abbrev pub buffer_size : ℕ
buffer_size = 10240

-- `memset( setBuffer, 0, BUFFER_SIZE*10 )`.
pub zeroed : List ℕ
zeroed = replicate buffer_size 0

-- `memset( parsing, 0, 1024*32 )`: rows with no text.
pub no_rows : List (List ℕ)
no_rows = replicate 1024 []

-- The rows of `selectTag_12`; those that are not set are not read, or give NULL in this model.
pub tag_rows : List (List ℕ)
tag_rows = replicate 256 []

-- `cvalue[i] == '"' && cvalue[i+1] == ':' && …`: the reading stops at the first difference.
pub starts : List ℕ → List ℕ → ℕ → Run Bool
starts [] cvalue i = ok true
starts (b ∷ header) cvalue i = do
  c ← read cvalue i
  let rest = starts header cvalue (suc i)
  if c == b then rest else ok false

-- The loop over `crOffset`: the first CR from `i` on.
pub find_cr : ℕ → List ℕ → ℕ → Run (Option ℕ)
find_cr zero cvalue i = ok none
find_cr (suc rounds) cvalue i = do
  c ← read cvalue i
  let rest = find_cr rounds cvalue (suc i)
  if c == 0x0d then ok (some i) else rest

module _ {S : Type 0} (header : List ℕ) (on_line : List ℕ → S → Run S) where
  -- A line from `i` to the CR at `cr`.
  pub take_line : List ℕ → ℕ → ℕ → Parser S → Run (ℕ × Parser S)
  take_line cvalue i cr p = do
    set_buffer ← memcpy zeroed 0 cvalue i (cr - i)
    d ← on_line set_buffer p.device
    ok (cr, record { set_buffer = set_buffer; remain_size = cr + 1; device = d })

  -- A line without its CR is held back: the index leaves the range.
  abbrev pub at_start : List ℕ → ℕ → ℕ → Parser S → Option ℕ → Run (ℕ × Parser S)
  at_start cvalue len i p none = ok (i + (len - 1), record p { remain_size = i })
  at_start cvalue len i p (some cr) = take_line cvalue i cr p

  -- One round of the loop over the bytes received; the last byte clears what is held back where no
  -- line starts there.
  pub round : List ℕ → ℕ → ℕ → Parser S → Run (ℕ × Parser S)
  round cvalue len i p = do
    here ← starts header cvalue i
    if here
        then (do e ← find_cr (len - i) cvalue i; at_start cvalue len i p e)
        else ok (i, if i + 1 == len then record p { remain_size = i + 1 } else p)

  pub parsing_receive_value : List ℕ → ℕ → List ℕ → ℕ → List ℕ → S → Run (Parsed S)
  parsing_receive_value cvalue len remainder remain_size set_buffer d =
      let start : Parser S = record {
        set_buffer = set_buffer;
        remain_size = remain_size;
        device = d;
      } in
      scan len (round cvalue len) (len + 1) 0 start >>= finish cvalue len remainder

  -- `memset( a, 0, sizeof(BUFFER_SIZE)*10 )` clears forty bytes.
  pub clear_head : List ℕ → Run (List ℕ)
  clear_head a = memcpy a 0 (replicate 40 0) 0 40

  -- `receiveSize >= BUFFER_SIZE*10`: what was received is dropped.
  pub drop_all : List ℕ → Conn S → Run (Conn S)
  drop_all received c = do
    buffer ← clear_head received
    rest ← clear_head c.link.remainder
    ok (record c {
      link = record {
        receive_buffer = buffer;
        receive_size = 0;
        remainder = rest;
        device = c.link.device;
      };
    })

  -- What follows the parser: the rest is moved to the front.
  pub keep : List ℕ → Parsed S → Run (Conn S)
  keep received p = do
    cleared ← clear_head received
    moved ← memcpy cleared 0 p.remainder 0 p.size
    rest ← clear_head p.remainder
    ok (record {
      link = record {
        receive_buffer = moved;
        receive_size = p.size;
        remainder = rest;
        device = p.device;
      };
      parsing_size = p.size;
    })

  pub parse : List ℕ → ℕ → List ℕ → Conn S → Run (Conn S)
  parse received size stack c =
      parsing_receive_value received size c.link.remainder c.parsing_size stack c.link.device
      >>= keep received

  -- One turn of the loop in which `recv` has brought `bytes`, at least one.
  pub turn : List ℕ → List ℕ → Conn S → Run (Conn S)
  turn bytes stack c = if leb buffer_size (length bytes) then ok c else (do
    received ← memcpy c.link.receive_buffer c.link.receive_size bytes 0 (length bytes)
    let size = c.link.receive_size + length bytes
    if leb buffer_size size then drop_all received c else parse received size stack c)

-- `strcpy( parsing[parsingCnt++], token )` for each token: a row has `width` bytes, and the counter
-- is a byte.
pub fill : ℕ → List (List ℕ) → ℕ → List (List ℕ) → Run (List (List ℕ) × ℕ)
fill width rows count [] = ok (rows, count)
fill width rows count (t ∷ ts) =
    let rest = fill width (set rows count t) ((count + 1) % 256) ts in
    if ltb (length t) width then rest else fault

-- The first token is copied without a test.
pub store_tokens : ℕ → List (List ℕ) → ℕ → List (List ℕ) → Run (List (List ℕ) × ℕ)
store_tokens width rows count [] = fault
store_tokens width rows count (t ∷ ts) = fill width rows count (t ∷ ts)

-- `sprintf( …, "%03d:%s;", 100-9+idOffset, trim(parsing[idOffset]) )`.
pub value_text : List (List ℕ) → ℕ → Run (List ℕ)
value_text rows k = do
  v ← trim (get_or rows k [])
  ok (three (91 + k) ++ (b':' ∷ (v ++ (b';' ∷ []))))

-- The loop over `idOffset`, `rounds` values from `k` on: their number and their text.
pub value_texts : (ℕ → Bool) → List (List ℕ) → ℕ → ℕ → Run (ℕ × List ℕ)
value_texts skip rows zero k = ok (0, [])
value_texts skip rows (suc rounds) k =
    let rest = value_texts skip rows rounds (suc k) in
    let taken = (do v ← value_text rows k; r ← rest; ok (r.0 + 1, v ++ r.1)) in
    if skip k then rest else taken

abbrev entry_of : ℕ → List (List ℕ) → Run (List ℕ)
entry_of now [] = fault
entry_of now (id ∷ []) = fault
entry_of now (id ∷ (v ∷ _)) =
    ok ((atoi id % 256) ∷ 0 ∷ (utc now ++ (((length v + 1) % 256) ∷ (v ++ (0 ∷ [])))))

-- A value of the message: number, time, length with the zero, text, zero. Without a text `strtok`
-- gives NULL.
pub entry : ℕ → List ℕ → Run (List ℕ)
entry now row = entry_of now (tokens (λ c. c == b':') row)

pub entries : ℕ → List (List ℕ) → ℕ → ℕ → Run (List ℕ)
entries now rows zero i = ok []
entries now rows (suc rounds) i = do
  e ← entry now (get_or rows i [])
  rest ← entries now rows rounds (suc i)
  ok (e ++ rest)

-- `selectTag_12`: the message for the tag server. `data_buff` has 1024 bytes.
pub select_tag : ℕ → ℕ → ℕ → List ℕ → List (List ℕ) → Run (List (List ℕ))
select_tag width now count text queue = do
  rows ← store_tokens width tag_rows 0 (tokens (λ c. c == b';') text)
  es ← entries now rows.0 count 0
  let message = (count % 256) ∷ es
  if leb (length message) 1024 then ok (queue ++ (message ∷ [])) else fault

-- The fields of a line, from row 1 on.
pub fields : List ℕ → Run (List (List ℕ) × ℕ)
fields set_buffer = store_tokens 32 no_rows 1 (tokens (λ c. c == b',') (c_string set_buffer))

-- `":",33`
abbrev pub header : List ℕ
header = b'"' ∷ b':' ∷ b'"' ∷ b',' ∷ b'3' ∷ b'3' ∷ []

-- Row 62 is left out.
abbrev pub is_left_out : ℕ → Bool
is_left_out k = k - 9 == 53

-- What is done with a line: the values of rows 9 to 77.
pub on_line : ℕ → List ℕ → List (List ℕ) → Run (List (List ℕ))
on_line now set_buffer queue = do
  rows ← fields set_buffer
  values ← value_texts is_left_out rows.0 69 9
  select_tag 256 now values.0 values.1 queue
