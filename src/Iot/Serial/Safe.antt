-- ===== src/Iot/Serial/Safe.antt =====
-- No access of the serial parser or of its loop leaves an array, given what the handler needs.
use i_dcu_io_t.Common.{
  ℕ, ◌+◌, ◌-◌, ◌≤◌, ◌<◌, ◌≡◌, refl, ◌∙◌, arith, List, false, Run, ok, Returns, Returns-bind,
  Returns-if, read-Returns, memcpy-Returns, length, replicate, read-eq-get_or, ltb, leb,
  if◌then◌else◌, leb→le, leb→lt, scan, scan-inv,
}
use i_dcu_io_t.Iot.Serial.{
  buffer_size, Parser, Parsed, Link, deliver, accept, at_start, round, finish, clear_head,
  keep_rest, take_in, turn, uart_parsing_receive_value,
}
use i_dcu_io_t.Iot.Serial.Sum.{uart_get_check_sum-eq-sum}

-- The handler returns on every array of the size of `setBuffer`, and keeps `Good`.
abbrev pub Handles : {S : Type 0} → (List ℕ → ℕ → S → Run S) → (S → Type 0) → Type 0
Handles {S} on_frame Good =
    (set_buffer : List ℕ) (len : ℕ) (d : S)
    → length set_buffer ≡ buffer_size
    → len ≤ buffer_size
    → Good d
    → Returns (on_frame set_buffer len d) Good

module _ {S : Type 0} {on_frame : List ℕ → ℕ → S → Run S} {Good : S → Type 0}
    (handles : Handles on_frame Good) where
  record IsSafe (len : ℕ) (p : Parser S) : Type 0 where
    whole : length p.set_buffer ≡ buffer_size
    behind : p.remain_size ≤ len
    good : Good p.device

  deliver-Returns :
      (set_buffer : List ℕ) (len : ℕ) (d : S)
      → length set_buffer ≡ buffer_size
      → 3 ≤ len
      → len ≤ buffer_size
      → Good d
      → Returns (deliver on_frame set_buffer len d) Good
  unfolding deliver
  deliver-Returns sb len d whole low high good =
      rw
        (
          uart_get_check_sum-eq-sum sb len low (omega arith),
          read-eq-get_or sb (len - 2) 0 (omega arith),
        )
        (Returns-if Good _ _ _ (λ _. handles sb len d whole high good) (λ _. (d, refl, good)))

  accept-Returns :
      (cvalue : List ℕ) (len i n : ℕ) (p : Parser S)
      → len ≤ length cvalue
      → len ≤ buffer_size
      → i + (n + 3) ≤ len
      → IsSafe len p
      → Returns (accept on_frame cvalue i n p) (λ r. (i ≤ r.0) × IsSafe len r.1)
  unfolding accept
  accept-Returns cvalue len i n p fits small inside safe =
      Returns-bind _ _ _ _
        (memcpy-Returns p.set_buffer 0 cvalue i (n + 3) (omega arith) (omega arith))
        λ sb h.
          Returns-bind _ _ _ _
            (deliver-Returns sb (i + (n + 2) + 1) p.device (h.1 ∙ safe.whole) (omega arith)
              (omega arith) safe.good)
            λ d good. (
              (i + (n + 2), record { set_buffer = sb; remain_size = i + (n + 2) + 1; device = d }),
              refl,
              (omega arith, record { whole = h.1 ∙ safe.whole; behind = omega arith; good = good }),
            )

  at_start-Returns :
      (cvalue : List ℕ) (len i : ℕ) (p : Parser S)
      → len < length cvalue
      → len ≤ buffer_size
      → i < len
      → IsSafe len p
      → Returns (at_start on_frame cvalue len i p) (λ r. (i ≤ r.0) × IsSafe len r.1)
  unfolding at_start
  at_start-Returns cvalue len i p fits small more safe =
      Returns-bind _ _ _ _ (read-Returns cvalue (i + 1) (omega arith)) λ n _.
        Returns-if _ _ _ _
          (λ room.
            let inside : i + (n + 3) ≤ len = leb→le _ _ room in
            Returns-bind _ _ _ _ (read-Returns cvalue (i + (n + 2)) (omega arith)) λ e _.
              Returns-if _ _ _ _
                (λ _. accept-Returns cvalue len i n p (omega arith) small inside safe)
                (λ _. ((i, p), refl, (omega arith, safe))))
          (λ _. ((i, p), refl, (omega arith, safe)))

  round-Returns :
      (cvalue : List ℕ) (len i : ℕ) (p : Parser S)
      → len < length cvalue
      → len ≤ buffer_size
      → i < len
      → IsSafe len p
      → Returns (round on_frame cvalue len i p) (λ r. (i ≤ r.0) × IsSafe len r.1)
  unfolding round
  round-Returns cvalue len i p fits small more safe =
      Returns-bind _ _ _ _ (read-Returns cvalue i (omega arith)) λ c _.
        Returns-if _ _ _ _ (λ _. at_start-Returns cvalue len i p fits small more safe)
          (λ _. ((i, p), refl, (omega arith, safe)))

  -- The parser returns; what is left unread is at most what came in.
  pub uart_parsing_receive_value-Returns :
      (cvalue : List ℕ) (len : ℕ) (remainder stack : List ℕ) (d : S)
      → length cvalue ≡ buffer_size
      → length remainder ≡ buffer_size
      → length stack ≡ buffer_size
      → len < buffer_size
      → Good d
      → Returns
          (uart_parsing_receive_value on_frame cvalue len remainder 0 stack d)
          (λ r. (length r.remainder ≡ buffer_size) × (r.size ≤ len) × Good r.device)
  unfolding uart_parsing_receive_value finish
  uart_parsing_receive_value-Returns cvalue len remainder stack d wc wr ws small good =
      Returns-bind (IsSafe len) _ _ _ looped λ p safe.
        Returns-if _ _ _ _
          (λ _.
            Returns-bind _ _ _ _
              (memcpy-Returns remainder 0 cvalue p.remain_size (len - p.remain_size) (omega arith)
                (omega (arith, safe.behind)))
              λ r h. (_, refl, (h.1 ∙ wr, omega arith, safe.good)))
          (λ (back : leb p.remain_size len ≡ false).
            absurd (omega (arith, leb→lt p.remain_size len back, safe.behind)))
    where
      begin : Parser S
      begin = record { set_buffer = stack; remain_size = 0; device = d }

      looped : Returns (scan len (round on_frame cvalue len) (len + 1) 0 begin) (IsSafe len)
      looped =
          let (j, p, e, past, safe) =
            scan-inv len (round on_frame cvalue len) (λ _ p. IsSafe len p)
              (λ i p safe more.
                let (r, e, (le, safe')) =
                  round-Returns cvalue len i p (omega arith) (omega arith) more safe in
                (r.0, r.1, e, le, safe'))
              (len + 1) 0 begin (omega arith)
              (record { whole = ws; behind = omega arith; good = good }) in
          (p, e, safe)

  -- The arrays have their sizes, and the device is good.
  pub record IsValid (l : Link S) : Type 0 where
    pub buffer : length l.receive_buffer ≡ buffer_size
    pub rest : length l.remainder ≡ buffer_size
    pub device : Good l.device

  keep_rest-Returns :
      (received : List ℕ) (p : Parsed S)
      → length received ≡ buffer_size
      → length p.remainder ≡ buffer_size
      → p.size < buffer_size
      → Good p.device
      → Returns (keep_rest received p) (λ l. IsValid l × (l.receive_size ≡ p.size))
  unfolding keep_rest clear_head
  keep_rest-Returns received p wb wr small good =
      Returns-bind _ _ _ _
        (memcpy-Returns received 0 (replicate 4 0) 0 4 (omega arith) (omega arith))
        λ cleared hc.
          Returns-bind _ _ _ _
            (memcpy-Returns cleared 0 p.remainder 0 p.size (omega arith) (omega arith))
            λ moved hm.
              Returns-bind _ _ _ _
                (memcpy-Returns p.remainder 0 (replicate 4 0) 0 4 (omega arith) (omega arith))
                λ rest hr. (
                  _,
                  refl,
                  (record { buffer = hm.1 ∙ hc.1 ∙ wb; rest = hr.1 ∙ wr; device = good }, refl),
                )

  -- A read that leaves a cell free is taken in with every access inside its array; the sizes
  -- of the arrays and what the handler needs of the device are kept, and the bytes held back
  -- are at most those held before and those read.
  pub turn-IsValid :
      (bytes stack : List ℕ) (l : Link S)
      → IsValid l
      → length stack ≡ buffer_size
      → l.receive_size + length bytes < buffer_size
      → Returns
          (turn on_frame bytes stack l)
          (λ l'. IsValid l' × (l'.receive_size ≤ l.receive_size + length bytes))
  unfolding turn take_in
  turn-IsValid bytes stack l v ws room =
      Returns-if _ (ltb 0 (length bytes))
        (if leb buffer_size l.receive_size then ok l else take_in on_frame bytes stack l) (ok l)
        (λ _.
          Returns-if _ (leb buffer_size l.receive_size) (ok l) (take_in on_frame bytes stack l)
            (λ _. (l, refl, (v, omega arith)))
            (λ _.
              Returns-bind _ _ _ _
                (memcpy-Returns l.receive_buffer l.receive_size bytes 0 (length bytes)
                  (omega (arith, v.buffer)) (omega arith))
                λ received h.
                  Returns-bind _ _ _ _
                    (uart_parsing_receive_value-Returns received (l.receive_size + length bytes)
                      l.remainder stack l.device (h.1 ∙ v.buffer) v.rest ws room v.device)
                    λ p k.
                      let (l', e, (v', same)) =
                        keep_rest-Returns received p (h.1 ∙ v.buffer) k.0 (omega (arith, k.1))
                          k.2 in
                      (l', e, (v', omega (arith, k.1)))))
        (λ _. (l, refl, (v, omega arith)))
