-- ===== src/Iot/Serial/Rest.antt =====
-- The end of both parsers of src/IoTManager.c: what is kept back, and the size below 0.
use i_dcu_io_t.Common.{
  ℕ, ◌-◌, ◌≤◌, ◌<◌, ◌≡◌, refl, arith, List, fault, Returns, Returns-bind, length, memcpy-Returns,
  le→leb, lt→leb, take, drop, overlay, take-overlay, replicate, ◌∙◌, ap,
}
use i_dcu_io_t.Iot.Serial.{Parser, Parsed, finish, clear_head, keep_rest}

module _ {S : Type 0} where
  pub finish-Returns :
      (cvalue : List ℕ) (len : ℕ) (remainder : List ℕ) (p : Parser S)
      → p.remain_size ≤ len
      → len ≤ length cvalue
      → len - p.remain_size ≤ length remainder
      → Returns (finish cvalue len remainder p) (λ r.
        (r.size ≡ len - p.remain_size)
        × (r.device ≡ p.device)
        × (length r.remainder ≡ length remainder))
  unfolding finish
  finish-Returns cvalue len remainder p back fits room = rw (le→leb p.remain_size len back) (
      Returns-bind _ _ _ _
        (memcpy-Returns remainder 0 cvalue p.remain_size (len - p.remain_size) (omega arith)
          (omega arith))
        λ r h. (_, refl, (refl, refl, h.1)))

  pub finish_past :
      (cvalue : List ℕ) (len : ℕ) (remainder : List ℕ) (p : Parser S)
      → len < p.remain_size
      → finish cvalue len remainder p ≡ fault
  unfolding finish
  finish_past cvalue len remainder p past = rw (lt→leb p.remain_size len past)

  -- What is kept back stands at the front of `remainder`.
  pub finish_kept :
      (cvalue : List ℕ) (len : ℕ) (remainder : List ℕ) (p : Parser S)
      → p.remain_size ≤ len
      → len ≤ length cvalue
      → len - p.remain_size ≤ length remainder
      → Returns (finish cvalue len remainder p) (λ r.
        (r.size ≡ len - p.remain_size)
        × (r.device ≡ p.device)
        × (length r.remainder ≡ length remainder)
        × (take (len - p.remain_size) r.remainder
            ≡ take (len - p.remain_size) (drop p.remain_size cvalue)))
  unfolding finish
  finish_kept cvalue len remainder p back fits room =
      let n = len - p.remain_size in
      rw (le→leb p.remain_size len back) (
        Returns-bind _ _ _ _
          (memcpy-Returns remainder 0 cvalue p.remain_size n (omega arith) (omega arith))
          λ r h. (
            _,
            refl,
            (
              refl,
              refl,
              h.1,
              ap (take n) h.0 ∙ take-overlay remainder cvalue p.remain_size n (omega arith),
            ),
          ))

  -- The loop after the parser, with arrays of any size: what is kept back is at the front.
  pub keep_rest-Returns :
      (room : ℕ) (received : List ℕ) (p : Parsed S)
      → 4 ≤ room
      → length received ≡ room
      → length p.remainder ≡ room
      → p.size ≤ room
      → Returns (keep_rest received p) (λ l.
        (length l.receive_buffer ≡ room)
        × (length l.remainder ≡ room)
        × (l.receive_size ≡ p.size)
        × (take p.size l.receive_buffer ≡ take p.size p.remainder)
        × (l.device ≡ p.device))
  unfolding keep_rest clear_head
  keep_rest-Returns room received p four wb wr small =
      Returns-bind _ _ _ _
        (memcpy-Returns received 0 (replicate 4 0) 0 4 (omega arith) (omega arith))
        λ cleared hc.
          Returns-bind _ _ _ _
            (memcpy-Returns cleared 0 p.remainder 0 p.size (omega arith) (omega arith))
            λ moved hm.
              Returns-bind _ _ _ _
                (memcpy-Returns p.remainder 0 (replicate 4 0) 0 4 (omega arith) (omega arith))
                λ rest hr. (
                  _,
                  refl,
                  (
                    hm.1 ∙ hc.1 ∙ wb,
                    hr.1 ∙ wr,
                    refl,
                    ap (take p.size) hm.0 ∙ take-overlay cleared p.remainder 0 p.size (omega arith),
                    refl,
                  ),
                )

  -- Where nothing is held back, all but the first four bytes stay where they are.
  pub keep_rest_none :
      (received : List ℕ) (p : Parsed S)
      → 4 ≤ length received
      → 4 ≤ length p.remainder
      → p.size ≡ 0
      → Returns (keep_rest received p) (λ l. drop 4 l.receive_buffer ≡ drop 4 received)
  unfolding keep_rest clear_head
  keep_rest_none received p four room none =
      Returns-bind _ _ _ _
        (memcpy-Returns received 0 (replicate 4 0) 0 4 (omega arith) (omega arith))
        λ cleared hc.
          Returns-bind _ _ _ _
            (memcpy-Returns cleared 0 p.remainder 0 p.size (omega arith) (omega arith))
            λ moved hm.
              Returns-bind _ _ _ _
                (memcpy-Returns p.remainder 0 (replicate 4 0) 0 4 (omega arith) (omega arith))
                λ rest hr. (
                  _,
                  refl,
                  ap (drop 4) (hm.0 ∙ ap (overlay cleared 0 p.remainder 0) none) ∙ ap (drop 4) hc.0,
                )
