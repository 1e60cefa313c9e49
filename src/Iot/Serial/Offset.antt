-- ===== src/Iot/Serial/Offset.antt =====
-- A frame behind other bytes: `uartParsingReceiveValue` hands its check sum test the length up to
-- the frame's end in what was received, not the length of the frame.
use i_dcu_io_t.Common.{
  ℕ, zero, suc, [], ◌∷◌, ◌+◌, ◌-◌, ◌%◌, ◌≤◌, ◌≡◌, refl, ◌∙◌, ap, arith, List, ◌++◌, Run, ok, ◌>>=◌,
  length, take, drop, get_or, memcpy-ok, if◌then◌else◌, ◌==◌, length-append, length-take,
  length-drop,
}
use i_dcu_io_t.Iot.Serial.{Parser, accept}
use i_dcu_io_t.Iot.Serial.Sum.{sum}
use i_dcu_io_t.Iot.Serial.Frames.{deliver_lem}

pub get_or-drop : (xs : List ℕ) (n j k : ℕ) → k ≡ n + j → get_or (drop n xs) j 0 ≡ get_or xs k 0
get_or-drop xs zero j k e = let same : j ≡ k = omega arith in ap (λ m. get_or xs m 0) same
get_or-drop [] (suc n) j k e = refl
get_or-drop (x ∷ xs) (suc n) j zero e = absurd (omega arith)
get_or-drop (x ∷ xs) (suc n) j (suc k) e = get_or-drop xs n j k (omega arith)

pub get_or_behind :
    (xs ys : List ℕ) (j k : ℕ) → k ≡ length xs + j → get_or (xs ++ ys) k 0 ≡ get_or ys j 0
get_or_behind [] ys j k e = let same : k ≡ j = omega arith in ap (λ m. get_or ys m 0) same
get_or_behind (x ∷ xs) ys j zero e = absurd (omega arith)
get_or_behind (x ∷ xs) ys j (suc k) e = get_or_behind xs ys j k (omega arith)

module _ {S : Type 0} (on_frame : List ℕ → ℕ → S → Run S) where
  -- A frame of `n + 3` bytes at an offset of at least 2: the byte compared with the sum is the one
  -- that `setBuffer` held before the frame was copied, at the index of the check sum in what was
  -- received, and the sum runs over the frame and the old bytes behind it.
  pub accept_offset :
      (cvalue : List ℕ) (i n : ℕ) (p : Parser S)
      → 2 ≤ i
      → i + (n + 3) ≤ length cvalue
      → i + (n + 3) ≤ length p.set_buffer
      → let set_buffer = take (n + 3) (drop i cvalue) ++ drop (n + 3) p.set_buffer in
        accept on_frame cvalue i n p ≡ (
          (if sum (take (i + n) (drop 1 set_buffer)) % 256 == get_or p.set_buffer (i + (n + 1)) 0
            then on_frame set_buffer (i + (n + 2) + 1) p.device
            else ok p.device)
          >>= λ d. ok (
            i + (n + 2),
            record { set_buffer = set_buffer; remain_size = i + (n + 2) + 1; device = d },
          ))
  unfolding accept
  accept_offset cvalue i n p behind here room =
      let set_buffer = take (n + 3) (drop i cvalue) ++ drop (n + 3) p.set_buffer in
      let taken : length (take (n + 3) (drop i cvalue)) ≡ n + 3 =
        length-take (n + 3) (drop i cvalue) (omega (arith, length-drop i cvalue)) in
      let held : length set_buffer ≡ length p.set_buffer = omega (
        arith,
        length-append (take (n + 3) (drop i cvalue)) (drop (n + 3) p.set_buffer),
        length-drop (n + 3) p.set_buffer,
      ) in
      let start : 0 + (n + 3) ≡ n + 3 = omega arith in
      let rounds : i + (n + 2) + 1 - 3 ≡ i + n = omega arith in
      let old : get_or set_buffer (i + (n + 2) + 1 - 2) 0 ≡ get_or p.set_buffer (i + (n + 1)) 0 =
        get_or_behind (take (n + 3) (drop i cvalue)) (drop (n + 3) p.set_buffer) (i - 2)
          (i + (n + 2) + 1 - 2) (omega arith)
        ∙ get_or-drop p.set_buffer (n + 3) (i - 2) (i + (n + 1)) (omega arith) in
      rw (
        memcpy-ok p.set_buffer 0 cvalue i (n + 3) (omega arith) here,
        start,
        deliver_lem on_frame set_buffer (i + (n + 2) + 1) p.device (omega arith) (omega arith),
        rounds,
        old,
      )
