-- ===== src/Iot/Command/Stored.antt =====
-- Counters that go to the table as text and come back, and the bytes of the reply.
use i_dcu_io_t.Common.{
  ℕ, ◌^◌, ◌<◌, ◌≡◌, refl, List, [], ◌∷◌, ◌++◌, some, byte0, byte1, byte2, byte3, mask_low,
  mask_byte1, mask_byte2, mask_byte3, print_long, atoi-print_long,
}
use i_dcu_io_t.Iot.Event.{Device}
use i_dcu_io_t.Iot.Command.{rows, channel_bytes, cells_of, load_rows, init}

-- Every number is a 32-bit word.
abbrev pub AllWords : List ℕ → Type 0
AllWords [] = Unit
AllWords (v ∷ vs) = (v < 2 ^ 32) × AllWords vs

-- The row that `_sqlite3_update` writes, as the table gives it back: one text for each port.
abbrev pub printed : List ℕ → List (List ℕ)
printed [] = []
printed (v ∷ vs) = print_long v ∷ printed vs

pub channel_bytes-bytes : (v : ℕ) → channel_bytes v ≡ byte1 v ∷ byte0 v ∷ byte3 v ∷ byte2 v ∷ []
unfolding channel_bytes
channel_bytes-bytes v = rw (mask_byte1 v, mask_low v, mask_byte3 v, mask_byte2 v)

cells_of-printed : (cnt : List ℕ) → AllWords cnt → cells_of (printed cnt) ≡ cnt
cells_of-printed [] h = refl
cells_of-printed (v ∷ vs) h = rw (atoi-print_long v h.0, cells_of-printed vs h.1)

-- `init` on a table whose last row is what `_sqlite3_update` wrote holds the counters that were
-- written, whatever rows stand before it.
pub init-printed :
    (before : List (List (List ℕ))) (cnt : List ℕ) (d : Device)
    → AllWords cnt
    → init (rows (before ++ (printed cnt ∷ []))) d ≡ some (record d { past = cnt; node = cnt })
unfolding init load_rows
init-printed [] cnt d h = rw (cells_of-printed cnt h)
init-printed (r ∷ before) cnt d h =
    init-printed before cnt (record d { past = cells_of r; node = cells_of r }) h
