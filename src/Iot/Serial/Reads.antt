-- ===== src/Iot/Serial/Reads.antt =====
-- Reads of the serial line: a frame that ends in this read, and one that does not.
use i_dcu_io_t.Common.{
  ℕ, ◌+◌, ◌≤◌, ◌<◌, ◌≡◌, refl, sym, ◌∙◌, ap, arith, List, [], ◌++◌, append_assoc, Run, ok, Returns,
  Returns-bind, length, take, drop, replicate, overlay, memcpy-Returns, ◌==◌, if◌then◌else◌, lt→leb,
  lt→ltb, overlay_append, take-overlay, length-append, length-take,
}
use i_dcu_io_t.Iot.Serial.{
  buffer_size, Parsed, Link, clear_head, keep_rest, take_in, turn, uart_parsing_receive_value,
}
use i_dcu_io_t.Iot.Serial.Frames.{frame, check_of, length-frame, parse_frame, deliver-frame}

-- The arrays of the loop have the size that they are declared with.
pub record HasRoom {S : Type 0} (l : Link S) : Type 0 where
  pub buffer : length l.receive_buffer ≡ buffer_size
  pub rest : length l.remainder ≡ buffer_size

-- The first bytes of the receive buffer are these, and no more are held.
pub record Holds {S : Type 0} (l : Link S) (bytes : List ℕ) : Type 0 where
  pub held : l.receive_size ≡ length bytes
  pub front : take (length bytes) l.receive_buffer ≡ bytes

module _ {S : Type 0} where
  -- The loop after the parser: what the parser left is held, the device is the parser's.
  pub keep_rest-Holds :
      (received : List ℕ) (p : Parsed S)
      → length received ≡ buffer_size
      → length p.remainder ≡ buffer_size
      → p.size ≤ buffer_size
      → Returns
          (keep_rest received p)
          (λ l. HasRoom l × Holds l (take p.size p.remainder) × (l.device ≡ p.device))
  unfolding keep_rest clear_head
  keep_rest-Holds received p wb wr small =
      let full : length (take p.size p.remainder) ≡ p.size =
        length-take p.size p.remainder (omega arith) in
      Returns-bind _ _ _ _
        (memcpy-Returns received 0 (replicate 4 0) 0 4 (omega arith) (omega arith))
        λ cleared hc.
          Returns-bind _ _ _ _
            (memcpy-Returns cleared 0 p.remainder 0 p.size (omega arith) (omega arith))
            λ moved hm.
              Returns-bind _ _ _ _
                (memcpy-Returns p.remainder 0 (replicate 4 0) 0 4 (omega arith) (omega arith))
                λ rest hr. (
                  _,
                  refl,
                  (
                    record { buffer = hm.1 ∙ hc.1 ∙ wb; rest = hr.1 ∙ wr },
                    record {
                      held = sym full;
                      front =
                          rw (full, hm.0) (take-overlay cleared p.remainder 0 p.size (omega arith));
                    },
                    refl,
                  ),
                )

module _ {S : Type 0} (on_frame : List ℕ → ℕ → S → Run S) where
  pub turn_lem :
      (bytes stack : List ℕ) (l : Link S)
      → 0 < length bytes
      → l.receive_size < buffer_size
      → turn on_frame bytes stack l ≡ take_in on_frame bytes stack l
  unfolding turn
  turn_lem bytes stack l some free =
      rw (lt→ltb 0 (length bytes) some, lt→leb buffer_size l.receive_size free)

  -- The bytes received stand behind those held.
  pub received_lem :
      (early bytes : List ℕ) (l : Link S)
      → Holds l early
      → overlay l.receive_buffer l.receive_size bytes 0 (length bytes)
        ≡ (early ++ bytes) ++ drop (length early + length bytes) l.receive_buffer
  received_lem early bytes l h = rw h.held (
      overlay_append l.receive_buffer early bytes (length early) (length bytes) h.front refl
      ∙ sym (append_assoc early bytes (drop (length early + length bytes) l.receive_buffer)))

  -- A read that ends a frame whose first bytes are held, or all of it: the frame is tested, the
  -- handler runs on it exactly where the check sum is right, and nothing is held afterwards.
  pub turn-frame :
      (payload early late stack : List ℕ) (check : ℕ) (l : Link S) (d : S)
      → early ++ late ≡ frame payload check
      → 0 < length late
      → length payload < 255
      → HasRoom l
      → Holds l early
      → length stack ≡ buffer_size
      → (if check_of payload == check
          then on_frame
              (frame payload check ++ drop (length payload + 4) stack)
              (length payload + 4)
              l.device
          else ok l.device)
        ≡ ok d
      → Returns (turn on_frame late stack l) (λ l'. (l'.device ≡ d) × HasRoom l' × Holds l' [])
  unfolding take_in
  turn-frame payload early late stack check l d split some short room holds ws handled =
      let sizes : length early + length late ≡ length payload + 4 =
        omega (arith, length-append early late, ap length split, length-frame payload check) in
      let total : l.receive_size + length late ≡ length payload + 4 = omega arith in
      let rest = drop (length early + length late) l.receive_buffer in
      rw (turn_lem late stack l some (omega arith)) (
        Returns-bind _ _ _ _
          (memcpy-Returns l.receive_buffer l.receive_size late 0 (length late) (omega arith)
            (omega arith))
          λ received h.
            let whole : received ≡ frame payload check ++ rest =
              h.0 ∙ received_lem early late l holds ∙ ap (λ xs. xs ++ rest) split in
            let parsed : Returns
                (uart_parsing_receive_value on_frame received (l.receive_size + length late)
                  l.remainder 0 stack l.device)
                (λ r. (r.size ≡ 0) × (r.device ≡ d) × (length r.remainder ≡ length l.remainder)) =
              rw (whole, total)
                (parse_frame on_frame payload rest l.remainder stack check (length payload + 4)
                  l.device d refl (omega arith)
                  (deliver-frame on_frame payload (drop (length payload + 4) stack) check l.device
                    ∙ handled)) in
            Returns-bind _ _ _ _ parsed λ r k.
              let (l', e, (room', holds', same)) =
                keep_rest-Holds received r (h.1 ∙ room.buffer) (k.2 ∙ room.rest)
                  (omega (arith, k.0)) in
              (l', e, (same ∙ k.1, room', rw k.0 at holds')))
