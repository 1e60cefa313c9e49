-- ===== src/Iot/Serial/Sum.antt =====
-- What `_uartGetCheckSum` computes: the sum of the bytes between the first and the last two.
use Prim.Native.Nat.{ℕ}
use i_dcu_io_t.Common.{
  zero, suc, ◌+◌, ◌-◌, ◌%◌, ◌≤◌, ◌<◌, ◌≡◌, refl, ap, ◌∙◌, arith, List, [], ◌∷◌, ok, length, get_or,
  take, drop, read-eq-get_or,
}
use i_dcu_io_t.Iot.Serial.{sum_from, uart_get_check_sum}

abbrev pub sum : List ℕ → ℕ
sum [] = 0
sum (x ∷ xs) = x + sum xs

pub take-drop :
    (xs : List ℕ) (i n : ℕ)
    → i < length xs
    → take (suc n) (drop i xs) ≡ get_or xs i 0 ∷ take n (drop (suc i) xs)
take-drop [] i n h = absurd (omega arith)
take-drop (x ∷ xs) zero n h = refl
take-drop (x ∷ xs) (suc i) n h = take-drop xs i n (omega arith)

-- The loop adds the bytes from `i` on, modulo 256.
pub sum_from-eq-sum :
    (buffer : List ℕ) (rounds i s : ℕ)
    → i + rounds ≤ length buffer
    → s < 256
    → sum_from buffer rounds i s ≡ ok ((s + sum (take rounds (drop i buffer))) % 256)
unfolding sum_from
sum_from-eq-sum buffer zero i s h k = ap ok (omega arith)
sum_from-eq-sum buffer (suc rounds) i s h k =
    rw (read-eq-get_or buffer i 0 (omega arith), take-drop buffer i rounds (omega arith))
      (sum_from-eq-sum buffer rounds (suc i) ((s + get_or buffer i 0) % 256) (omega arith)
          (omega arith)
        ∙ ap ok (omega arith))

-- The check sum of the first `len` bytes of an array that holds them.
pub uart_get_check_sum-eq-sum :
    (buffer : List ℕ) (len : ℕ)
    → 3 ≤ len
    → len ≤ length buffer
    → uart_get_check_sum buffer len ≡ ok (sum (take (len - 3) (drop 1 buffer)) % 256)
unfolding uart_get_check_sum
uart_get_check_sum-eq-sum buffer len h k =
    sum_from-eq-sum buffer (len - 3) 1 0 (omega arith) (omega arith) ∙ ap ok (omega arith)
