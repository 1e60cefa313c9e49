-- ===== src/Driver/Replies.antt =====
-- A whole reply in one read.
use i_dcu_io_t.Common.{
  ℕ, suc, ◌+◌, ◌-◌, ◌≤◌, ◌≡◌, refl, ◌∙◌, arith, false, List, [], ◌∷◌, ◌++◌, ok, Returns,
  Returns-bind, length, drop, replicate, memcpy-ok, memcpy-Returns, eq→==, le→leb, lt→leb, scan,
  scan_step, scan_stop, take_append, length-append, overlay_append,
}
use i_dcu_io_t.Driver.{
  buffer_size, Tag, select_tag, Parser, reply, round, finish, parsing_receive_value, Link,
  clear_head, take_in, turn,
}

-- A reply of this type with these bytes.
abbrev pub reply_bytes : ℕ → List ℕ → List ℕ
reply_bytes type bytes = 1 ∷ 2 ∷ 0 ∷ 0 ∷ 0 ∷ (length bytes + 3) ∷ 1 ∷ type ∷ length bytes ∷ bytes

-- The loop holds nothing back, and its arrays have their sizes.
pub record IsClear (l : Link) : Type 0 where
  pub buffer : length l.receive_buffer ≡ buffer_size
  pub rest : length l.remainder ≡ buffer_size
  pub none : l.receive_size ≡ 0
  pub size : l.parsing_size ≡ 0

module _ (type t : ℕ) (bytes : List ℕ) where
  round_reply :
      (rest : List ℕ) (len : ℕ) (p : Parser) (s : Tag)
      → length bytes ≤ length p.byte_buffer
      → select_tag (bytes ++ drop (length bytes) p.byte_buffer) type t p.tag ≡ ok s
      → round (reply_bytes type bytes ++ rest) len t 0 p
        ≡ ok (
          0 + (length bytes + 3) + 6,
          record p {
            byte_buffer = bytes ++ drop (length bytes) p.byte_buffer;
            remain_size = 0 + (length bytes + 3) + 6;
            tag = s;
          },
        )
  unfolding round reply
  round_reply rest len p s room h =
      let same : length bytes + 3 - 3 ≡ length bytes = omega arith in
      let start : 0 + length bytes ≡ length bytes = omega arith in
      rw (
        eq→== (length bytes + 3) (length bytes + 3) refl,
        same,
        memcpy-ok p.byte_buffer 0 (reply_bytes type bytes ++ rest) (0 + 9) (length bytes)
            (omega arith) (omega (arith, length-append bytes rest)),
        start,
        take_append bytes rest (length bytes) refl,
        h,
      )

  parse_reply :
      (rest remainder stack : List ℕ) (s s' : Tag)
      → length bytes ≤ length stack
      → select_tag (bytes ++ drop (length bytes) stack) type t s ≡ ok s'
      → Returns
          (parsing_receive_value
            (reply_bytes type bytes ++ rest)
            (length bytes + 9)
            t
            remainder
            0
            stack
            s)
          (λ r. (r.size ≡ 0) × (r.tag ≡ s') × (length r.remainder ≡ length remainder))
  unfolding parsing_receive_value finish
  parse_reply rest remainder stack s s' room h =
      let len : ℕ = length bytes + 9 in
      let more : len + 1 ≡ suc (suc (len - 1)) = omega arith in
      let end : 0 + (length bytes + 3) + 6 ≡ len = omega arith in
      let none_left : len - len ≡ 0 = omega arith in
      let held : length (bytes ++ rest) ≡ length bytes + length rest = length-append bytes rest in
      let begin : Parser = record {
        byte_buffer = stack;
        remain_size = 0;
        stopped = false;
        tag = s;
      } in
      let body = round (reply_bytes type bytes ++ rest) len t in
      let scanned : scan len body (len + 1) 0 begin
          ≡ ok (record begin {
            byte_buffer = bytes ++ drop (length bytes) stack;
            remain_size = len;
            tag = s';
          }) =
        rw more (
          scan_step len body (suc (len - 1)) 0 begin _ _ (omega arith)
            (round_reply rest len begin s' room h)
          ∙ scan_stop len body (len - 1) _ _ (omega arith)
          ∙ rw end) in
      rw (scanned, le→leb len len (omega arith), none_left)
        (Returns-bind _ _ _ _
          (memcpy-Returns remainder 0 (reply_bytes type bytes ++ rest) len 0 (omega arith)
            (omega arith))
          λ r k. (_, refl, (refl, refl, k.1)))

  -- A whole reply that one read brings to a loop that holds nothing back: its tag is selected
  -- once, on its bytes with what the stack held behind them, and nothing is held back.
  pub turn_reply :
      (stack : List ℕ) (l : Link) (s : Tag)
      → length bytes ≤ length stack
      → length bytes ≤ 64
      → IsClear l
      → select_tag (bytes ++ drop (length bytes) stack) type t l.tag ≡ ok s
      → Returns (turn (reply_bytes type bytes) t stack l) (λ l'. IsClear l' × (l'.tag ≡ s))
  unfolding turn take_in clear_head
  turn_reply stack l s room small clear h =
      let whole = reply_bytes type bytes in
      let rest = drop (0 + length whole) l.receive_buffer in
      let total : l.receive_size + length whole ≡ length bytes + 9 = omega (arith, clear.none) in
      rw (lt→leb buffer_size (length whole) (omega arith)) (
        Returns-bind _ _ _ _
          (memcpy-Returns l.receive_buffer l.receive_size whole 0 (length whole)
            (omega (arith, clear.none, clear.buffer)) (omega arith))
          λ received k.
            let stands : received ≡ whole ++ rest =
              k.0
              ∙ rw clear.none
                  (overlay_append l.receive_buffer [] whole 0 (length whole) refl refl) in
            let parsed : Returns
                (parsing_receive_value received (l.receive_size + length whole) t l.remainder
                  l.parsing_size stack l.tag)
                (λ r. (r.size ≡ 0) × (r.tag ≡ s) × (length r.remainder ≡ length l.remainder)) =
              rw (stands, total, clear.size) (parse_reply rest l.remainder stack l.tag s room h) in
            Returns-bind _ _ _ _ parsed λ r q.
              Returns-bind _ _ _ _
                (memcpy-Returns received 0 (replicate 4 0) 0 4 (omega (arith, k.1, clear.buffer))
                  (omega arith))
                λ cleared a.
                  Returns-bind _ _ _ _
                    (memcpy-Returns cleared 0 r.remainder 0 r.size
                      (omega (arith, q.0, a.1, k.1, clear.buffer)) (omega (arith, q.0)))
                    λ moved b.
                      Returns-bind _ _ _ _
                        (memcpy-Returns r.remainder 0 (replicate 4 0) 0 4
                          (omega (arith, q.2, clear.rest)) (omega arith))
                        λ rest' c. (
                          _,
                          refl,
                          (
                            record {
                              buffer = b.1 ∙ a.1 ∙ k.1 ∙ clear.buffer;
                              rest = c.1 ∙ q.2 ∙ clear.rest;
                              none = q.0;
                              size = q.0;
                            },
                            q.1,
                          ),
                        ))
