-- ===== src/Comm/Frames.antt =====
-- A frame that reaches src/CommManager.c, and the message for the queue of the tags.
use i_dcu_io_t.Common.{
  ℕ, suc, ◌+◌, ◌%◌, ◌≤◌, ◌≡◌, refl, ap, ◌∙◌, arith, List, [], ◌∷◌, ◌++◌, ok, Returns, Returns-bind,
  read, get_or, memcpy, memcpy-Returns, memcpy-ok, overlay_append, take, drop, take_append, length,
  length-append, lt→leb, lt→ltb, eq→==, scan, scan_step, scan_stop,
}
use i_dcu_io_t.Iot.Serial.{Parser, Link, accept, deliver}
use i_dcu_io_t.Iot.Serial.Sum.{sum}
use i_dcu_io_t.Iot.Serial.Rest.{finish-Returns, keep_rest-Returns}
use i_dcu_io_t.Iot.Serial.Frames.{deliver_lem}
use i_dcu_io_t.Driver.{buffer_size}
use i_dcu_io_t.Comm.{Sent, tag, select_tag, at_start, round, parsing_receive_value, take_in, turn}
use i_dcu_io_t.Comm.Positions.{
  positions, message_of, gather_front, get_or_front, read_front, take_front, below, select_tag_lem,
}

-- The loop holds nothing back, and its arrays have their sizes.
pub record IsClear (l : Link (List Sent)) : Type 0 where
  pub buffer : length l.receive_buffer ≡ buffer_size
  pub rest : length l.remainder ≡ buffer_size
  pub none : l.receive_size ≡ 0

module _ (xs : List ℕ) (size : length xs ≡ 84) (ends : read (0xfe ∷ xs) 84 ≡ ok 0xff)
    (right : sum (take 82 xs) % 256 ≡ get_or (0xfe ∷ xs) 83 0) where
  abbrev whole : List ℕ
  whole = 0xfe ∷ xs

  accepted :
      (rest : List ℕ) (p : Parser (List Sent))
      → 85 ≤ length p.set_buffer
      → round (whole ++ rest) 85 0 p
        ≡ ok (
          84,
          record {
            set_buffer = whole ++ drop 85 p.set_buffer;
            remain_size = 85;
            device = p.device ++ (tag (message_of whole) ∷ []);
          },
        )
  unfolding round at_start accept
  accepted rest p room =
      let sb = whole ++ drop 85 p.set_buffer in
      let held : length sb ≡ 85 + length (drop 85 p.set_buffer) =
        omega (arith, length-append xs (drop 85 p.set_buffer)) in
      let last : read (whole ++ rest) 84 ≡ ok 0xff =
        read_front whole rest 84 (omega arith) ∙ ends in
      let summed : sum (take 82 (drop 1 sb)) % 256 ≡ get_or whole 83 0 =
        ap (λ ys. sum ys % 256) (take_front xs (drop 85 p.set_buffer) 82 (omega arith)) ∙ right in
      let tested : get_or sb 83 0 ≡ get_or whole 83 0 =
        get_or_front whole (drop 85 p.set_buffer) 83 (omega arith) in
      let same : message_of sb ≡ message_of whole =
        ap (λ ks. ks ++ (sum ks % 256 ∷ []))
          (gather_front whole (drop 85 p.set_buffer) positions
            (ap (λ n. below (suc n) positions) size)) in
      let copied : memcpy p.set_buffer 0 (whole ++ rest) 0 85 ≡ ok sb =
        memcpy-ok p.set_buffer 0 (whole ++ rest) 0 85 (omega arith)
          (omega (arith, length-append xs rest))
        ∙ ap (λ ys. ok (ys ++ drop 85 p.set_buffer)) (take_append whole rest 85 (omega arith)) in
      let delivered : deliver select_tag sb 85 p.device
          ≡ ok (p.device ++ (tag (message_of whole) ∷ [])) =
        deliver_lem select_tag sb 85 p.device (omega arith) (omega arith)
        ∙ rw (
          summed,
          tested,
          eq→== (get_or whole 83 0) (get_or whole 83 0) refl,
          select_tag_lem sb 85 p.device (omega arith),
          same,
        ) in
      rw (last, copied, delivered)

  parsed :
      (rest remainder stack : List ℕ) (sent : List Sent)
      → 85 ≤ length stack
      → Returns (parsing_receive_value (whole ++ rest) 85 remainder 0 stack sent) (λ r.
        (r.size ≡ 0)
        × (r.device ≡ sent ++ (tag (message_of whole) ∷ []))
        × (length r.remainder ≡ length remainder))
  unfolding parsing_receive_value
  parsed rest remainder stack sent room =
      let begin : Parser (List Sent) = record {
        set_buffer = stack;
        remain_size = 0;
        device = sent;
      } in
      let after : Parser (List Sent) = record {
        set_buffer = whole ++ drop 85 stack;
        remain_size = 85;
        device = sent ++ (tag (message_of whole) ∷ []);
      } in
      let scanned : scan 85 (round (whole ++ rest) 85) 86 0 begin ≡ ok after =
        scan_step 85 (round (whole ++ rest) 85) 85 0 begin 84 after (omega arith)
          (accepted rest begin room)
        ∙ scan_stop 85 (round (whole ++ rest) 85) 84 85 after (omega arith) in
      rw scanned (
        finish-Returns (whole ++ rest) 85 remainder after (omega arith)
          (omega (arith, length-append xs rest)) (omega arith))

  -- A frame of 85 bytes with a right check sum, in one read to a loop that holds nothing back: one
  -- message goes to the queue of the tags, of the bytes at the positions of the node, the group, the
  -- number, the inputs and the counters, with their sum behind them, and nothing is held back.
  pub turn_tag :
      (stack : List ℕ) (l : Link (List Sent))
      → length stack ≡ buffer_size
      → IsClear l
      → Returns
          (turn whole stack l)
          (λ l'. IsClear l' × (l'.device ≡ l.device ++ (tag (message_of whole) ∷ [])))
  unfolding turn take_in
  turn_tag stack l ws clear =
      let rest = drop (0 + length whole) l.receive_buffer in
      let total : l.receive_size + length whole ≡ 85 = omega (arith, clear.none) in
      rw
        (
          lt→ltb 0 (length whole) (omega arith),
          lt→leb buffer_size l.receive_size (omega (arith, clear.none)),
        )
        (Returns-bind _ _ _ _
          (memcpy-Returns l.receive_buffer l.receive_size whole 0 (length whole)
            (omega (arith, clear.none, clear.buffer)) (omega arith))
          λ received k.
            let stands : received ≡ whole ++ rest =
              k.0
              ∙ rw clear.none
                  (overlay_append l.receive_buffer [] whole 0 (length whole) refl refl) in
            let done : Returns
                (parsing_receive_value received (l.receive_size + length whole) l.remainder 0 stack
                  l.device)
                (λ r.
                  (r.size ≡ 0)
                  × (r.device ≡ l.device ++ (tag (message_of whole) ∷ []))
                  × (length r.remainder ≡ length l.remainder)) =
              rw (stands, total) (parsed rest l.remainder stack l.device (omega arith)) in
            Returns-bind _ _ _ _ done λ r q.
              let (l', e, (b, t, n, _, dev)) =
                keep_rest-Returns buffer_size received r (omega arith) (k.1 ∙ clear.buffer)
                  (q.2 ∙ clear.rest) (omega (arith, q.0)) in
              (l', e, (record { buffer = b; rest = t; none = n ∙ q.0 }, dev ∙ q.1)))
