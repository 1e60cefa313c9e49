-- ===== src/M2m/Replies/Layout.antt =====
-- The reply of `tlv_reply` as one list: what a client of src/M2MManager.c reads.
use i_dcu_io_t.Common.{
  ℕ, zero, suc, ◌+◌, ◌-◌, ◌%◌, ◌≤◌, ◌≡◌, refl, sym, ap, ◌∙◌, arith, List, [], ◌∷◌, ◌++◌,
  append_assoc, Run, ok, ◌>>=◌, memcpy, memcpy-ok, take, drop, length, length-append, length-drop,
  take_append, take-all, read-eq-get_or, get_or,
}
use i_dcu_io_t.Iot.Serial.Sum.{sum, take-drop}
use i_dcu_io_t.M2m.Replies.{int_sum_from, get_check_sum, tlv_head, tlv_reply}

-- The loop adds the bytes from `i` on.
int_sum_from-eq-sum :
    (buffer : List ℕ) (rounds i s : ℕ)
    → i + rounds ≤ length buffer
    → int_sum_from buffer rounds i s ≡ ok (s + sum (take rounds (drop i buffer)))
unfolding int_sum_from
int_sum_from-eq-sum buffer zero i s h = ap (λ n. ok n) (omega arith)
int_sum_from-eq-sum buffer (suc rounds) i s h =
    rw
      (
        read-eq-get_or buffer i 0 (omega arith),
        int_sum_from-eq-sum buffer rounds (suc i) (s + get_or buffer i 0) (omega arith),
        take-drop buffer i rounds (omega arith),
      )
      (ap (λ n. ok n) (omega arith))

-- The check sum of a buffer that begins with FE and these bytes is their sum.
check_sum_front :
    (xs rest : List ℕ) (len : ℕ)
    → len ≡ length xs
    → get_check_sum (0xfe ∷ (xs ++ rest)) len ≡ ok (sum xs % 256)
unfolding get_check_sum
check_sum_front xs rest len e =
    let held : length (xs ++ rest) ≡ length xs + length rest = length-append xs rest in
    rw (int_sum_from-eq-sum (0xfe ∷ (xs ++ rest)) len 1 0 (omega arith), take_append xs rest len e)
      (ap (λ n. ok n) (omega arith))

-- The rest of a run once its first part is known.
pub then_ok {ℓ κ} :
    {A : Type ℓ} {B : Type κ} {m : Run A} {a : A} (f : A → Run B) → m ≡ ok a → (m >>= f) ≡ f a
then_ok f e = rw e

drop_behind : (pre rest : List ℕ) (n : ℕ) → drop (length pre + n) (pre ++ rest) ≡ drop n rest
drop_behind [] rest n = let same : 0 + n ≡ n = omega arith in ap (λ k. drop k rest) same
drop_behind (x ∷ pre) rest n =
    let more : suc (length pre) + n ≡ suc (length pre + n) = omega arith in
    ap (λ k. drop k (x ∷ (pre ++ rest))) more ∙ drop_behind pre rest n

-- A copy behind the first bytes.
pub copy_behind :
    (pre src rest : List ℕ) (to n : ℕ)
    → to ≡ length pre
    → n ≤ length src
    → n ≤ length rest
    → memcpy (pre ++ rest) to src 0 n ≡ ok (pre ++ (take n src ++ drop n rest))
copy_behind pre src rest to n e k room =
    memcpy-ok (pre ++ rest) to src 0 n (omega (arith, length-append pre rest)) (omega arith)
    ∙ rw e (rw (take_append pre rest (length pre) refl, drop_behind pre rest n) refl)

regroup_end :
    (front : List ℕ) (check : ℕ) (rest : List ℕ)
    → (front ++ (check ∷ [])) ++ (0xff ∷ rest) ≡ (front ++ (check ∷ 0xff ∷ [])) ++ rest
regroup_end front check rest = simp append_assoc

-- The reply is FE, the bytes of head, time and rows, their check sum and FF.
pub tlv_reply_lem :
    (buffer : List ℕ) (type : ℕ) (time rows extra array : List ℕ) (size v_length : ℕ)
    → length time ≡ 6
    → v_length ≡ length rows + 6
    → size ≤ length array
    → take size array ≡ rows ++ extra
    → size ≡ length rows + length extra
    → v_length + 8 ≤ length buffer
    → size + 12 ≤ length buffer
    → let body = drop 1 (tlv_head type v_length) ++ (time ++ rows) in
      tlv_reply buffer type time array size v_length
      ≡ ok (0xfe ∷ (body ++ (sum body % 256 ∷ 0xff ∷ [])))
unfolding tlv_reply
tlv_reply_lem buffer type time rows extra array size v_length ht hv ha taken hs room fits =
    let head = tlv_head type v_length in
    let r1 = drop 6 buffer in
    let r2 = drop 6 r1 in
    let l1 : length r1 ≡ length buffer - 6 = length-drop 6 buffer in
    let l2 : length r2 ≡ length buffer - 12 = omega (arith, length-drop 6 r1) in
    let front = head ++ (time ++ rows) in
    let body = drop 1 head ++ (time ++ rows) in
    let r3 = extra ++ drop size r2 in
    let l3 : length r3 ≡ length buffer - 12 - length rows =
      omega (arith, length-append extra (drop size r2), length-drop size r2) in
    let long : length front ≡ v_length + 6 = omega (arith, length-append time rows) in
    let check = sum body % 256 in
    let r4 = drop 1 r3 in
    let l4 : length r4 ≡ length r3 - 1 = length-drop 1 r3 in
    then_ok _ (copy_behind [] head buffer 0 6 refl (omega arith) (omega arith))
    ∙ then_ok _ (
        copy_behind head time r1 6 6 refl (omega arith) (omega arith)
        ∙ ap (λ t. ok (head ++ (t ++ r2))) (take-all time 6 (sym ht)))
    ∙ then_ok _ (
        ap (λ b. memcpy b 12 array 0 size) (sym (append_assoc head time r2))
        ∙ copy_behind (head ++ time) array r2 12 size (omega arith) ha (omega arith)
        ∙ ap ok (rw taken (simp append_assoc)))
    ∙ then_ok _ (check_sum_front body r3 (v_length + 5) (omega arith))
    ∙ then_ok _ (
        copy_behind front (check ∷ []) r3 (v_length + 6) 1 (omega arith) (omega arith)
          (omega arith))
    ∙ then_ok _ (
        ap (λ b. memcpy b (v_length + 7) (0xff ∷ []) 0 1) (sym (append_assoc front (check ∷ []) r4))
        ∙ copy_behind (front ++ (check ∷ [])) (0xff ∷ []) r4 (v_length + 7) 1
            (omega (arith, length-append front (check ∷ []))) (omega arith) (omega arith))
    ∙ ap ok (
        ap (take (v_length + 4 + 4)) (regroup_end front check (drop 1 r4))
        ∙ take_append (front ++ (check ∷ 0xff ∷ [])) (drop 1 r4) (v_length + 4 + 4)
            (omega (arith, length-append front (check ∷ 0xff ∷ []))))
