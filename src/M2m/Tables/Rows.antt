-- ===== src/M2m/Tables/Rows.antt =====
-- The bytes of one row of src/M2MManager.c, from texts as SQLite prints them.
use i_dcu_io_t.Common.{
  ℕ, ◌/◌, ◌%◌, ◌^◌, ◌<◌, ◌≡◌, arith, List, [], ◌∷◌, ◌++◌, ok, replicate, atoi, two, three, atoi-two,
  atoi-three, print_long, atoi-print_long, byte0, byte1, byte2, byte3, mask_low, mask_byte1,
  mask_byte2, mask_byte3,
}
use i_dcu_io_t.M2m.Tables.{
  two_digits, time_bytes, word_bytes, status_row, milli_bytes, data_row, node_row,
}

pub word_bytes-bytes : (v : ℕ) → word_bytes v ≡ byte3 v ∷ byte2 v ∷ byte1 v ∷ byte0 v ∷ []
unfolding word_bytes
word_bytes-bytes v = rw (mask_byte1 v, mask_low v, mask_byte3 v, mask_byte2 v)

byte_small : (n : ℕ) → n < 256 → n % 2 ^ 8 ≡ n
byte_small n h = omega arith

-- `atoi` into a char gives a printed number below 256 back.
printed_byte : (n : ℕ) → n < 256 → atoi (print_long n) % 2 ^ 8 ≡ n
printed_byte n h = rw (atoi-print_long n (omega arith)) (omega arith)

printed_word :
    (v : ℕ)
    → v < 2 ^ 32
    → word_bytes (atoi (print_long v)) ≡ byte3 v ∷ byte2 v ∷ byte1 v ∷ byte0 v ∷ []
printed_word v h = rw (atoi-print_long v h) (word_bytes-bytes v)

-- A word, the highest byte first.
abbrev pub big_endian : ℕ → List ℕ
big_endian v = byte3 v ∷ byte2 v ∷ byte1 v ∷ byte0 v ∷ []

-- The numbers of a time are below 100.
abbrev pub ShortTime : ℕ → ℕ → ℕ → ℕ → ℕ → ℕ → Type 0
ShortTime year month day hour minute sec =
    (year < 100) × (month < 100) × (day < 100) × (hour < 100) × (minute < 100) × (sec < 100)

-- A time as SQLite prints it with `%Y%m%d%H%M%S` and more behind it.
abbrev pub time_text : ℕ → ℕ → ℕ → ℕ → ℕ → ℕ → List ℕ → List ℕ
time_text year month day hour minute sec rest =
    50
    ∷ 48
    ∷ (two year ++ (two month ++ (two day ++ (two hour ++ (two minute ++ (two sec ++ rest))))))

-- The six numbers of a time text, each below 100, come back.
pub time_bytes-time_text :
    (year month day hour minute sec : ℕ) (rest : List ℕ)
    → ShortTime year month day hour minute sec
    → time_bytes (time_text year month day hour minute sec rest)
      ≡ ok (year ∷ month ∷ day ∷ hour ∷ minute ∷ sec ∷ [])
unfolding time_bytes two_digits
time_bytes-time_text year month day hour minute sec rest (hy, hm, hd, hh, hi, hs) =
    rw
      (
        atoi-two year hy,
        atoi-two month hm,
        atoi-two day hd,
        atoi-two hour hh,
        atoi-two minute hi,
        atoi-two sec hs,
      )
      (rw (
        byte_small year (omega arith),
        byte_small month (omega arith),
        byte_small day (omega arith),
        byte_small hour (omega arith),
        byte_small minute (omega arith),
        byte_small sec (omega arith),
      ))

milli_bytes-time_text :
    (year month day hour minute sec milli : ℕ)
    → milli < 1000
    → milli_bytes (time_text year month day hour minute sec (46 ∷ three milli))
      ≡ ok (milli / 256 ∷ milli % 256 ∷ [])
unfolding milli_bytes
milli_bytes-time_text year month day hour minute sec milli h =
    let whole : milli % 2 ^ 16 ≡ milli = omega arith in
    let high : milli / 256 % 256 ≡ milli / 256 = omega arith in
    rw (atoi-three milli h, whole, mask_byte1 milli, mask_low milli, high)

-- A row of the status table with a node and a channel count below 256, six 32-bit counters and a
-- time of two-digit numbers, as SQLite prints them, becomes the 40 bytes of these numbers: each
-- counter with its highest byte first, eight zeros for the channels that are not set, the time.
pub status_row-printed :
    (node size p0 p1 p2 p3 p4 p5 year month day hour minute sec : ℕ) (rest : List ℕ)
    → node < 256
    → size < 256
    → (p0 < 2 ^ 32) × (p1 < 2 ^ 32) × (p2 < 2 ^ 32) × (p3 < 2 ^ 32) × (p4 < 2 ^ 32) × (p5 < 2 ^ 32)
    → ShortTime year month day hour minute sec
    → status_row (
        print_long node
        ∷ print_long size
        ∷ print_long p0
        ∷ print_long p1
        ∷ print_long p2
        ∷ print_long p3
        ∷ print_long p4
        ∷ print_long p5
        ∷ time_text year month day hour minute sec rest
        ∷ [])
      ≡ ok (
          (node ∷ size ∷ [])
          ++ (big_endian p0
              ++ (big_endian p1
                  ++ (big_endian p2
                      ++ (big_endian p3
                          ++ (big_endian p4
                              ++ (big_endian p5
                                  ++ (replicate 8 0
                                      ++ (year ∷ month ∷ day ∷ hour ∷ minute ∷ sec ∷ [])))))))))
unfolding status_row
status_row-printed node size p0 p1 p2 p3 p4 p5 year month day hour minute sec rest hn hs
      (h0, h1, h2, h3, h4, h5) ht =
    rw (
      time_bytes-time_text year month day hour minute sec rest ht,
      printed_byte node hn,
      printed_byte size hs,
      printed_word p0 h0,
      printed_word p1 h1,
      printed_word p2 h2,
      printed_word p3 h3,
      printed_word p4 h4,
      printed_word p5 h5,
    )

-- A row of the log with a node and a port below 256, a 32-bit value, a time of two-digit numbers
-- and milliseconds below 1000, as SQLite prints them, becomes the 14 bytes of these numbers.
pub data_row-printed :
    (node port value year month day hour minute sec milli : ℕ)
    → node < 256
    → port < 256
    → value < 2 ^ 32
    → ShortTime year month day hour minute sec
    → milli < 1000
    → data_row (
        print_long node
        ∷ print_long port
        ∷ print_long value
        ∷ time_text year month day hour minute sec (46 ∷ three milli)
        ∷ [])
      ≡ ok (
          (node ∷ port ∷ [])
          ++ (big_endian value
              ++ (year ∷ month ∷ day ∷ hour ∷ minute ∷ sec ∷ milli / 256 ∷ milli % 256 ∷ [])))
unfolding data_row
data_row-printed node port value year month day hour minute sec milli hn hp hv ht hm = rw (
  time_bytes-time_text year month day hour minute sec (46 ∷ three milli) ht,
  milli_bytes-time_text year month day hour minute sec milli hm,
  printed_byte node hn,
  printed_byte port hp,
  printed_word value hv,
)

-- A row of the node list with a node and a group below 256 and a time of two-digit numbers, as
-- SQLite prints them, becomes the 8 bytes of these numbers.
pub node_row-printed :
    (node group year month day hour minute sec : ℕ) (rest : List ℕ)
    → node < 256
    → group < 256
    → ShortTime year month day hour minute sec
    → node_row
        (print_long node ∷ print_long group ∷ time_text year month day hour minute sec rest ∷ [])
      ≡ ok (node ∷ group ∷ year ∷ month ∷ day ∷ hour ∷ minute ∷ sec ∷ [])
unfolding node_row
node_row-printed node group year month day hour minute sec rest hn hg ht = rw (
  time_bytes-time_text year month day hour minute sec rest ht,
  printed_byte node hn,
  printed_byte group hg,
)
