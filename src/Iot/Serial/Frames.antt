-- ===== src/Iot/Serial/Frames.antt =====
-- A frame that arrives in one or in two reads, and what the parser makes of it.
use i_dcu_io_t.Common.{
  ℕ, suc, ◌+◌, ◌-◌, ◌%◌, ◌≤◌, ◌≡◌, refl, ◌∙◌, arith, List, [], ◌∷◌, ◌++◌, append_assoc, Run, ok,
  Returns, Returns-bind, length, get_or, read, take, drop, memcpy-ok, memcpy-Returns,
  read-eq-get_or, ◌==◌, if◌then◌else◌, le→leb, scan, scan_step, scan_stop, read_append, take_append,
  get_or_append, length-append,
}
use i_dcu_io_t.Iot.Serial.{
  Parser, deliver, accept, at_start, round, finish, uart_parsing_receive_value,
}
use i_dcu_io_t.Iot.Serial.Sum.{sum, uart_get_check_sum-eq-sum}

-- A frame with this payload and this check sum byte.
abbrev pub frame : List ℕ → ℕ → List ℕ
frame payload check = 0xfe ∷ suc (length payload) ∷ (payload ++ (check ∷ 0xff ∷ []))

-- The check sum that the device expects.
abbrev pub check_of : List ℕ → ℕ
check_of payload = (suc (length payload) + sum payload) % 256

pub length-frame :
    (payload : List ℕ) (check : ℕ) → length (frame payload check) ≡ length payload + 4
length-frame payload check = omega (arith, length-append payload (check ∷ 0xff ∷ []))

pub sum-frame :
    (payload rest : List ℕ) (check : ℕ)
    → sum (take (length payload + 4 - 3) (drop 1 (frame payload check ++ rest)))
      ≡ suc (length payload) + sum payload
sum-frame payload rest check =
    let e : length payload + 4 - 3 ≡ suc (length payload) = omega arith in
    rw (e, append_assoc, take_append payload ((check ∷ 0xff ∷ []) ++ rest) (length payload) refl)

pub check_frame :
    (payload rest : List ℕ) (check : ℕ)
    → get_or (frame payload check ++ rest) (length payload + 4 - 2) 0 ≡ check
check_frame payload rest check =
    let e : length payload + 4 - 2 ≡ suc (suc (length payload)) = omega arith in
    rw (e, append_assoc) (get_or_append payload check (0xff ∷ rest) (length payload) 0 refl)

module _ {S : Type 0} (on_frame : List ℕ → ℕ → S → Run S) where
  pub round_frame :
      (cvalue : List ℕ) (len i n : ℕ) (p : Parser S)
      → read cvalue i ≡ ok 0xfe
      → read cvalue (i + 1) ≡ ok n
      → i + (n + 3) ≤ len
      → read cvalue (i + (n + 2)) ≡ ok 0xff
      → round on_frame cvalue len i p ≡ accept on_frame cvalue i n p
  unfolding round at_start
  round_frame cvalue len i n p first second fits last =
      rw (first, second, le→leb (i + (n + 3)) len fits, last)

  pub deliver_lem :
      (sb : List ℕ) (len : ℕ) (d : S)
      → 3 ≤ len
      → len ≤ length sb
      → deliver on_frame sb len d ≡ (
          if sum (take (len - 3) (drop 1 sb)) % 256 == get_or sb (len - 2) 0
          then on_frame sb len d
          else ok d)
  unfolding deliver
  deliver_lem sb len d low high =
      rw (uart_get_check_sum-eq-sum sb len low high, read-eq-get_or sb (len - 2) 0 (omega arith))

  -- A frame at the front of `setBuffer`.
  pub deliver-frame :
      (payload rest : List ℕ) (check : ℕ) (d : S)
      → deliver on_frame (frame payload check ++ rest) (length payload + 4) d ≡ (
          if check_of payload == check
          then on_frame (frame payload check ++ rest) (length payload + 4) d
          else ok d)
  deliver-frame payload rest check d =
      deliver_lem (frame payload check ++ rest) (length payload + 4) d (omega arith)
        (omega (arith, length-append (frame payload check) rest, length-frame payload check))
      ∙ rw (sum-frame payload rest check, check_frame payload rest check)

  accept-frame :
      (payload rest : List ℕ) (check len : ℕ) (p : Parser S) (d : S)
      → len ≡ length payload + 4
      → len ≤ length p.set_buffer
      → deliver on_frame (frame payload check ++ drop len p.set_buffer) len p.device ≡ ok d
      → accept on_frame (frame payload check ++ rest) 0 (suc (length payload)) p
        ≡ ok (
          0 + (suc (length payload) + 2),
          record {
            set_buffer = frame payload check ++ drop len p.set_buffer;
            remain_size = 0 + (suc (length payload) + 2) + 1;
            device = d;
          },
        )
  unfolding accept
  accept-frame payload rest check len p d e room h =
      let size : suc (length payload) + 3 ≡ len = omega arith in
      let end : 0 + (suc (length payload) + 2) + 1 ≡ len = omega arith in
      let start : 0 + len ≡ len = omega arith in
      let held : length (frame payload check ++ rest) ≡ length payload + 4 + length rest =
        omega (arith, length-append (frame payload check) rest, length-frame payload check) in
      rw (
        size,
        end,
        memcpy-ok p.set_buffer 0 (frame payload check ++ rest) 0 len (omega arith) (omega arith),
        start,
        take_append (frame payload check) rest len (omega (arith, length-frame payload check)),
        h,
      )

  -- The parser on a frame at the front of the buffer, with nothing received behind it.
  pub parse_frame :
      (payload rest remainder stack : List ℕ) (check len : ℕ) (d d' : S)
      → len ≡ length payload + 4
      → len ≤ length stack
      → deliver on_frame (frame payload check ++ drop len stack) len d ≡ ok d'
      → Returns
          (uart_parsing_receive_value on_frame
            (frame payload check ++ rest)
            len
            remainder
            0
            stack
            d)
          (λ r. (r.size ≡ 0) × (r.device ≡ d') × (length r.remainder ≡ length remainder))
  unfolding uart_parsing_receive_value finish
  parse_frame payload rest remainder stack check len d d' e room h =
      let held : length (frame payload check ++ rest) ≡ length payload + 4 + length rest =
        omega (arith, length-append (frame payload check) rest, length-frame payload check) in
      let none_left : len - (0 + (suc (length payload) + 2) + 1) ≡ 0 = omega arith in
      rw (scanned, le→leb (0 + (suc (length payload) + 2) + 1) len (omega arith), none_left)
        (Returns-bind _ _ _ _
          (memcpy-Returns remainder 0 (frame payload check ++ rest)
            (0 + (suc (length payload) + 2) + 1) 0 (omega arith) (omega arith))
          λ r copied. (_, refl, (refl, refl, copied.1)))
    where
      begin : Parser S
      begin = record { set_buffer = stack; remain_size = 0; device = d }

      last_byte : read (frame payload check ++ rest) (0 + (suc (length payload) + 2)) ≡ ok 0xff
      last_byte =
          let i : 0 + (suc (length payload) + 2) ≡ suc (suc (suc (length payload))) = omega arith in
          rw (i, append_assoc, ← append_assoc payload (check ∷ []) (0xff ∷ rest))
            (read_append (payload ++ (check ∷ [])) 0xff rest (suc (length payload))
              (omega (arith, length-append payload (check ∷ []))))

      scanned :
          scan len (round on_frame (frame payload check ++ rest) len) (len + 1) 0 begin
          ≡ ok (record {
            set_buffer = frame payload check ++ drop len stack;
            remain_size = 0 + (suc (length payload) + 2) + 1;
            device = d';
          })
      scanned =
          let more : len + 1 ≡ suc (suc (len - 1)) = omega arith in
          rw more (
            scan_step len (round on_frame (frame payload check ++ rest) len) (suc (len - 1)) 0 begin
              _ _ (omega arith)
              (round_frame (frame payload check ++ rest) len 0 (suc (length payload)) begin refl
                  refl (omega arith) last_byte
                ∙ accept-frame payload rest check len begin d' e room h)
            ∙ scan_stop len (round on_frame (frame payload check ++ rest) len) (len - 1) _ _
                (omega arith))
