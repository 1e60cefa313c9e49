-- ===== src/Comm/Positions.antt =====
-- The message of `selectTag` in src/CommManager.c as the bytes of a frame at fixed positions.
use i_dcu_io_t.Common.{
  ℕ, zero, suc, ◌+◌, ◌*◌, ◌%◌, ◌^◌, ◌≤◌, ◌<◌, ◌≡◌, refl, ap, ◌∙◌, arith, Bool, true, false,
  Bool-cases, inl, inr, List, [], ◌∷◌, ◌++◌, ltb, if◌then◌else◌, ok, read, read-eq-get_or, get_or,
  take, length, ltb→lt,
}
use i_dcu_io_t.Iot.Serial.Sum.{sum}
use i_dcu_io_t.Comm.{Sent, tag, count_fields, byte_sum, select_tag}

-- The bytes that stand at these positions.
abbrev pub gather : List ℕ → List ℕ → List ℕ
gather xs [] = []
gather xs (k ∷ ks) = get_or xs k 0 ∷ gather xs ks

-- Four bytes for each of these counters, every six bytes.
abbrev pub count_positions : ℕ → ℕ → List ℕ
count_positions zero offset = []
count_positions (suc ports) offset =
    offset ∷ (offset + 1) ∷ (offset + 2) ∷ (offset + 3) ∷ count_positions ports (offset + 6)

-- Where the bytes of a message stand in a frame.
abbrev pub positions : List ℕ
positions = 7 ∷ 4 ∷ 10 ∷ 13 ∷ 16 ∷ 19 ∷ 22 ∷ 25 ∷ 28 ∷ count_positions 6 31

abbrev pub message_of : List ℕ → List ℕ
message_of xs = gather xs positions ++ (sum (gather xs positions) % 256 ∷ [])

count_fields_lem :
    (ports : ℕ) (buffer : List ℕ) (offset : ℕ)
    → offset + 6 * ports ≤ length buffer
    → count_fields ports buffer offset ≡ ok (gather buffer (count_positions ports offset))
unfolding count_fields
count_fields_lem zero buffer offset h = refl
count_fields_lem (suc ports) buffer offset h = rw (
  read-eq-get_or buffer offset 0 (omega arith),
  read-eq-get_or buffer (offset + 1) 0 (omega arith),
  read-eq-get_or buffer (offset + 2) 0 (omega arith),
  read-eq-get_or buffer (offset + 3) 0 (omega arith),
  count_fields_lem ports buffer (offset + 6) (omega arith),
)

byte_sum-eq-sum : (acc : ℕ) (xs : List ℕ) → acc < 256 → byte_sum acc xs ≡ (acc + sum xs) % 256
unfolding byte_sum
byte_sum-eq-sum acc [] h = omega arith
byte_sum-eq-sum acc (x ∷ xs) h = byte_sum-eq-sum ((acc + x) % 2 ^ 8) xs (omega arith) ∙ omega arith

byte_sum_lem : (xs : List ℕ) → byte_sum 0 xs ≡ sum xs % 256
byte_sum_lem xs =
    let same : 0 + sum xs ≡ sum xs = omega arith in
    byte_sum-eq-sum 0 xs (omega arith) ∙ ap (λ n. n % 256) same

pub select_tag_lem :
    (buffer : List ℕ) (len : ℕ) (sent : List Sent)
    → 67 ≤ length buffer
    → select_tag buffer len sent ≡ ok (sent ++ (tag (message_of buffer) ∷ []))
unfolding select_tag
select_tag_lem buffer len sent long = rw (
  read-eq-get_or buffer 7 0 (omega arith),
  read-eq-get_or buffer 4 0 (omega arith),
  read-eq-get_or buffer 10 0 (omega arith),
  read-eq-get_or buffer 13 0 (omega arith),
  read-eq-get_or buffer 16 0 (omega arith),
  read-eq-get_or buffer 19 0 (omega arith),
  read-eq-get_or buffer 22 0 (omega arith),
  read-eq-get_or buffer 25 0 (omega arith),
  read-eq-get_or buffer 28 0 (omega arith),
  count_fields_lem 6 buffer 31 (omega arith),
  byte_sum_lem (gather buffer positions),
)

pub read_front : (xs ys : List ℕ) (k : ℕ) → k < length xs → read (xs ++ ys) k ≡ read xs k
read_front [] ys k h = absurd (omega arith)
read_front (x ∷ xs) ys zero h = refl
read_front (x ∷ xs) ys (suc k) h = read_front xs ys k (omega arith)

pub take_front : (xs ys : List ℕ) (k : ℕ) → k ≤ length xs → take k (xs ++ ys) ≡ take k xs
take_front xs ys zero h = refl
take_front [] ys (suc k) h = absurd (omega arith)
take_front (x ∷ xs) ys (suc k) h = ap (◌∷◌ x) (take_front xs ys k (omega arith))

pub get_or_front : (xs ys : List ℕ) (k : ℕ) → k < length xs → get_or (xs ++ ys) k 0 ≡ get_or xs k 0
get_or_front [] ys k h = absurd (omega arith)
get_or_front (x ∷ xs) ys zero h = refl
get_or_front (x ∷ xs) ys (suc k) h = get_or_front xs ys k (omega arith)

abbrev pub below : ℕ → List ℕ → Bool
below n [] = true
below n (k ∷ ks) = if ltb k n then below n ks else false

pub gather_front :
    (xs ys ks : List ℕ) → below (length xs) ks ≡ true → gather (xs ++ ys) ks ≡ gather xs ks
gather_front xs ys [] h = refl
gather_front xs ys (k ∷ ks) h = elim (Bool-cases (ltb k (length xs))) [
  | inl under ↦
      rw (get_or_front xs ys k (ltb→lt k (length xs) under), gather_front xs ys ks (rw under at h))
  | inr over ↦ let broken : false ≡ true = rw over at h in cc
]
