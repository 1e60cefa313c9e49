-- ===== src/Uart/Endless.antt =====
-- src/UartManager.c: a frame behind at least nine other bytes that passes its test is found again
-- and again.
use i_dcu_io_t.Common.{
  ℕ, zero, suc, ◌+◌, ◌-◌, ◌*◌, ◌%◌, ◌≤◌, ◌<◌, ◌≡◌, inl, inr, refl, sym, ap, ◌∙◌, arith, true, List,
  [], ◌∷◌, ◌++◌, append_assoc, ltb, ok, no_fuel, Returns, Returns-bind, read, read-Returns,
  read-eq-get_or, read_append, memcpy, memcpy-ok, get_or, take, drop, length, length-append,
  drop_append, take_append, scan, scan_none, scan_step, le→leb, ne→==, eq→==, Bool-cases, ltb→lt,
  ltb→le, bit_or,
}
use i_dcu_io_t.Iot.Serial.{Parser, uart_get_check_sum}
use i_dcu_io_t.Iot.Serial.Sum.{sum, uart_get_check_sum-eq-sum}
use i_dcu_io_t.Iot.Serial.Offset.{get_or_behind}
use i_dcu_io_t.Iot.Serial.Partial.{NoStart, read-NoStart}
use i_dcu_io_t.Uart.{counts, accept, at_start, round, parsing_receive_value}

pub read_behind : (xs ys : List ℕ) (k i : ℕ) → i ≡ length xs + k → read (xs ++ ys) i ≡ read ys k
read_behind [] ys k i e = let same : i ≡ k = omega arith in ap (λ m. read ys m) same
read_behind (x ∷ xs) ys k zero e = absurd (omega arith)
read_behind (x ∷ xs) ys k (suc i) e = read_behind xs ys k i (omega arith)

counts-Returns :
    (ports : ℕ) (buffer : List ℕ) (offset : ℕ)
    → offset + 6 * ports ≤ length buffer
    → Returns (counts ports buffer offset) (λ xs. length xs ≡ ports)
unfolding counts
counts-Returns zero buffer offset h = ([], refl, refl)
counts-Returns (suc ports) buffer offset h =
    Returns-bind _ _ _ _ (read-Returns buffer offset (omega arith)) λ b0 _.
      Returns-bind _ _ _ _ (read-Returns buffer (offset + 1) (omega arith)) λ b1 _.
        Returns-bind _ _ _ _ (read-Returns buffer (offset + 2) (omega arith)) λ b2 _.
          Returns-bind _ _ _ _ (read-Returns buffer (offset + 3) (omega arith)) λ b3 _.
            Returns-bind _ _ _ _ (counts-Returns ports buffer (offset + 6) (omega arith))
              λ xs h. (bit_or (bit_or (bit_or b0 b1) b2) b3 ∷ xs, refl, ap suc h)

-- A frame with this body.
abbrev pub whole : List ℕ → List ℕ
whole body = 0xfe ∷ length body ∷ (body ++ (0xff ∷ []))

module _ (noise body rest tail : List ℕ) (len : ℕ) (behind : 9 ≤ length noise)
    (quiet : NoStart noise) (fits : length noise + (length body + 3) ≤ len)
    (room : length noise + (length body + 3) ≤ length (whole body ++ tail))
    (long : 52 ≤ length (whole body ++ tail))
    (passes : sum (take (length noise + length body) (drop 1 (whole body ++ tail))) % 256
      ≡ get_or tail (length noise - 2) 0) where
  abbrev cvalue : List ℕ
  cvalue = noise ++ (whole body ++ rest)

  found :
      (p : Parser (List (List ℕ)))
      → drop (length body + 3) p.set_buffer ≡ tail
      → length body + 3 ≤ length p.set_buffer
      → (q : Parser (List (List ℕ))) × (round cvalue len (length noise) p ≡ ok (8, q))
        × (q.set_buffer ≡ whole body ++ tail)
  unfolding round at_start accept
  found p same enough =
      let i = length noise in
      let n = length body in
      let sb = whole body ++ tail in
      let size : length (whole body) ≡ n + 3 = omega (arith, length-append body (0xff ∷ [])) in
      let end = i + (n + 2) + 1 in
      let first : read cvalue i ≡ ok 0xfe =
        read_behind noise (whole body ++ rest) 0 i (omega arith) in
      let second : read cvalue (i + 1) ≡ ok n =
        read_behind noise (whole body ++ rest) 1 (i + 1) refl in
      let third : read cvalue (i + (n + 2)) ≡ ok 0xff =
        read_behind noise (whole body ++ rest) (n + 2) (i + (n + 2)) refl
        ∙ ap (λ xs. read xs (n + 2)) (layout rest)
        ∙ read_append (0xfe ∷ n ∷ body) 0xff rest (n + 2) (omega arith) in
      let start : 0 + (n + 3) ≡ n + 3 = omega arith in
      let copied : memcpy p.set_buffer 0 cvalue i (n + 3) ≡ ok sb =
        memcpy-ok p.set_buffer 0 cvalue i (n + 3) (omega arith)
          (omega (arith, length-append noise (whole body ++ rest), length-append (whole body) rest))
        ∙ rw (
          start,
          same,
          drop_append noise (whole body ++ rest) i refl,
          take_append (whole body) rest (n + 3) (sym size),
        ) in
      let rounds : end - 3 ≡ i + n = omega arith in
      let within : end ≤ length sb = omega arith in
      let summed : uart_get_check_sum sb end ≡ ok (get_or tail (i - 2) 0) =
        uart_get_check_sum-eq-sum sb end (omega arith) within ∙ rw rounds (ap (λ s. ok s) passes) in
      let old : read sb (end - 2) ≡ ok (get_or tail (i - 2) 0) =
        read-eq-get_or sb (end - 2) 0 (omega arith)
        ∙ ap (λ b. ok b) (get_or_behind (whole body) tail (i - 2) (end - 2) (omega arith)) in
      let equal = eq→== (get_or tail (i - 2) 0) (get_or tail (i - 2) 0) refl in
      let (node, counted, _) = counts-Returns 8 sb 4 (omega arith) in
      (
        record { set_buffer = sb; remain_size = end; device = p.device ++ (node ∷ []) },
        rw (
          first,
          second,
          le→leb (i + (n + 3)) len fits,
          third,
          copied,
          summed,
          old,
          equal,
          counted,
        ),
        refl,
      )
    where
      layout : (rest : List ℕ) → whole body ++ rest ≡ (0xfe ∷ length body ∷ body) ++ (0xff ∷ rest)
      layout rest = simp append_assoc

  idle :
      (i : ℕ) (p : Parser (List (List ℕ)))
      → ltb i (length noise) ≡ true
      → round cvalue len i p ≡ ok (i, p)
  unfolding round
  idle i p before =
      let (c, e, ne) =
        read-NoStart noise (whole body ++ rest) i (ltb→lt i (length noise) before) quiet in
      rw (e, ne→== c 0xfe ne)

  -- From any index up to the frame's, the loop does not end.
  again :
      (rounds i : ℕ) (p : Parser (List (List ℕ)))
      → i ≤ length noise
      → drop (length body + 3) p.set_buffer ≡ tail
      → length body + 3 ≤ length p.set_buffer
      → scan len (round cvalue len) rounds i p ≡ no_fuel
  again zero i p le same enough = scan_none len (round cvalue len) i p
  again (suc rounds) i p le same enough = elim (Bool-cases (ltb i (length noise))) [
    | inl before ↦
        let within : i < len = omega (arith, ltb→lt i (length noise) before) in
        scan_step len (round cvalue len) rounds i p i p within (idle i p before)
        ∙ again rounds (i + 1) p (omega (arith, ltb→lt i (length noise) before)) same enough
    | inr here ↦
        let at : i ≡ length noise = omega (arith, ltb→le i (length noise) here) in
        let (q, e, held) = found p same enough in
        let size : length body + 3 ≡ length (whole body) =
          omega (arith, length-append body (0xff ∷ [])) in
        rw at (
          scan_step len (round cvalue len) rounds (length noise) p 8 q (omega arith) e
          ∙ again rounds 9 q behind
              (ap (drop (length body + 3)) held
                ∙ drop_append (whole body) tail (length body + 3) size)
              (omega (arith, ap length held)))
  ]

  -- At least nine bytes without FE, and then a frame that was received whole and whose check sum
  -- test passes on what `setBuffer` holds behind it: the parser does not end, whatever the number
  -- of rounds.
  pub parsing_endless :
      (stack remainder : List ℕ) (remain_size : ℕ) (d : List (List ℕ))
      → drop (length body + 3) stack ≡ tail
      → length body + 3 ≤ length stack
      → (rounds : ℕ)
      → parsing_receive_value rounds
          (noise ++ (whole body ++ rest))
          len
          remainder
          remain_size
          stack
          d
        ≡ no_fuel
  unfolding parsing_receive_value
  parsing_endless stack remainder remain_size d same enough rounds = rw (
      again rounds 0 (record { set_buffer = stack; remain_size = remain_size; device = d })
        (omega arith) same enough)
