-- ===== src/Iot/Event/Blocks.antt =====
-- The layout of a report, and that `receiveEvent` reads back what the layout holds.
use i_dcu_io_t.Common.{
  ℕ, zero, suc, ◌+◌, ◌*◌, ◌^◌, ◌<◌, ◌≡◌, refl, arith, List, [], ◌∷◌, ◌++◌, ok, read, length, byte0,
  byte1, byte2, byte3, word-bytes,
}
use i_dcu_io_t.Iot.Event.{counts, levels}

-- A port of the board: its value, and the two bytes that stand behind it.
pub record Port : Type 0 where
  pub value : ℕ
  pub next : ℕ
  pub last : ℕ

abbrev pub values : List Port → List ℕ
values [] = []
values (p ∷ ps) = p.value ∷ values ps

-- Counters, six bytes each.
abbrev pub count_block : List Port → List ℕ
count_block [] = []
count_block (p ∷ ps) =
    byte3 p.value ∷ byte2 p.value ∷ byte1 p.value ∷ byte0 p.value ∷ p.next ∷ p.last ∷ count_block ps

-- Inputs, three bytes each.
abbrev pub level_block : List Port → List ℕ
level_block [] = []
level_block (p ∷ ps) = p.value ∷ p.next ∷ p.last ∷ level_block ps

abbrev pub Words : List Port → Type 0
Words [] = Unit
Words (p ∷ ps) = (p.value < 2 ^ 32) × Words ps

-- `xs` stands in the buffer from `offset` on.
abbrev pub Shows : List ℕ → ℕ → List ℕ → Type 0
Shows buffer offset xs = (j i : ℕ) → i ≡ offset + j → j < length xs → read buffer i ≡ read xs j

pub Shows-append :
    (pre xs rest : List ℕ) (offset : ℕ)
    → offset ≡ length pre
    → Shows (pre ++ (xs ++ rest)) offset xs
Shows-append [] [] rest offset e j i h k = absurd (omega arith)
Shows-append [] (x ∷ xs) rest offset e zero zero h k = refl
Shows-append [] (x ∷ xs) rest offset e zero (suc i) h k = absurd (omega arith)
Shows-append [] (x ∷ xs) rest offset e (suc j) zero h k = absurd (omega arith)
Shows-append [] (x ∷ xs) rest offset e (suc j) (suc i) h k =
    Shows-append [] xs rest 0 refl j i (omega arith) (omega arith)
Shows-append (y ∷ pre) xs rest offset e j zero h k = absurd (omega arith)
Shows-append (y ∷ pre) xs rest offset e j (suc i) h k =
    Shows-append pre xs rest (length pre) refl j i (omega arith) k

pub length-count_block : (ps : List Port) → length (count_block ps) ≡ 6 * length ps
length-count_block [] = refl
length-count_block (p ∷ ps) = omega (arith, length-count_block ps)

pub length-level_block : (ps : List Port) → length (level_block ps) ≡ 3 * length ps
length-level_block [] = refl
length-level_block (p ∷ ps) = omega (arith, length-level_block ps)

pub counts-count_block :
    (ps : List Port) (buffer : List ℕ) (offset : ℕ)
    → Words ps
    → Shows buffer offset (count_block ps)
    → counts (length ps) buffer offset ≡ ok (values ps)
unfolding counts
counts-count_block [] buffer offset w h = refl
counts-count_block (p ∷ ps) buffer offset w h = rw (
  h 0 offset (omega arith) (omega arith),
  h 1 (offset + 1) refl (omega arith),
  h 2 (offset + 2) refl (omega arith),
  h 3 (offset + 3) refl (omega arith),
  counts-count_block ps buffer (offset + 6) w.1
      (λ j i e k. h (suc (suc (suc (suc (suc (suc j)))))) i (omega arith) (omega arith)),
  word-bytes p.value w.0,
)

pub levels-level_block :
    (ps : List Port) (buffer : List ℕ) (offset : ℕ)
    → Shows buffer offset (level_block ps)
    → levels (length ps) buffer offset ≡ ok (values ps)
unfolding levels
levels-level_block [] buffer offset h = refl
levels-level_block (p ∷ ps) buffer offset h = rw (
  h 0 offset (omega arith) (omega arith),
  levels-level_block ps buffer (offset + 3)
      (λ j i e k. h (suc (suc (suc j))) i (omega arith) (omega arith)),
)
