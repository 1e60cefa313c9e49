-- ===== src/Iot/Serial/Partial.antt =====
-- A read that holds only the first bytes of a frame, and the same frame in two reads.
use i_dcu_io_t.Common.{
  ℕ, zero, suc, ◌+◌, ◌-◌, ◌≤◌, ◌<◌, ◌≡◌, ◌≢◌, refl, sym, ◌∙◌, ap, arith, List, [], ◌∷◌, ◌++◌, Run,
  ok, ◌>>=◌, Returns, Returns-bind, length, read, take, drop, overlay, memcpy-Returns, ◌==◌,
  if◌then◌else◌, le→leb, lt→leb, ne→==, scan_idle, take-overlay, take_append, length-append,
  length-drop,
}
use mathlib.Core.Path.{subst}
use i_dcu_io_t.Iot.Serial.{
  buffer_size, Parser, Link, at_start, round, finish, take_in, turn, uart_parsing_receive_value,
}
use i_dcu_io_t.Iot.Serial.Frames.{frame, check_of, length-frame}
use i_dcu_io_t.Iot.Serial.Reads.{
  HasRoom, Holds, keep_rest-Holds, turn_lem, received_lem, turn-frame,
}

-- No byte is the start byte FE.
abbrev pub NoStart : List ℕ → Type 0
NoStart [] = Unit
NoStart (x ∷ xs) = (x ≢ 0xfe) × NoStart xs

pub read-NoStart :
    (xs rest : List ℕ) (j : ℕ)
    → j < length xs
    → NoStart xs
    → Returns (read (xs ++ rest) j) (λ c. c ≢ 0xfe)
read-NoStart [] rest j h q = absurd (omega arith)
read-NoStart (x ∷ xs) rest zero h q = (x, refl, q.0)
read-NoStart (x ∷ xs) rest (suc j) h q = read-NoStart xs rest j (omega arith) q.1

-- The length byte, if it is there, asks for more than there is.
abbrev AsksMore : List ℕ → Type 0
AsksMore [] = Unit
AsksMore (n ∷ xs) = length xs + 2 < n + 3

module _ {S : Type 0} (on_frame : List ℕ → ℕ → S → Run S) where
  start_idle :
      (tail rest : List ℕ) (p : Parser S)
      → 0 < length rest
      → AsksMore tail
      → round on_frame ((0xfe ∷ tail) ++ rest) (suc (length tail)) 0 p ≡ ok (0, p)
  unfolding round at_start
  start_idle [] [] p some asks = absurd (omega arith)
  start_idle [] (n ∷ rest) p some asks = rw (lt→leb (0 + (n + 3)) 1 (omega arith))
  start_idle (n ∷ xs) rest p some asks =
      rw (lt→leb (0 + (n + 3)) (suc (suc (length xs))) (omega arith))

  round_idle :
      (tail rest : List ℕ) (p : Parser S)
      → 0 < length rest
      → AsksMore tail
      → NoStart tail
      → (i : ℕ) → i < suc (length tail)
      → round on_frame ((0xfe ∷ tail) ++ rest) (suc (length tail)) i p ≡ ok (i, p)
  unfolding round
  round_idle tail rest p some asks quiet zero h = start_idle tail rest p some asks
  round_idle tail rest p some asks quiet (suc j) h =
      let (c, e, ne) = read-NoStart tail rest j (omega arith) quiet in rw (e, ne→== c 0xfe ne)

  -- The parser on the first bytes of a frame leaves them all.
  parse_early :
      (tail rest remainder stack : List ℕ) (d : S)
      → 0 < length rest
      → AsksMore tail
      → NoStart tail
      → suc (length tail) ≤ length remainder
      → Returns
          (uart_parsing_receive_value on_frame
            ((0xfe ∷ tail) ++ rest)
            (suc (length tail))
            remainder
            0
            stack
            d)
          (λ r.
            (r.device ≡ d)
            × (length r.remainder ≡ length remainder)
            × (take r.size r.remainder ≡ 0xfe ∷ tail)
            × (r.size ≡ suc (length tail)))
  unfolding uart_parsing_receive_value finish
  parse_early tail rest remainder stack d some asks quiet room =
      rw
        (
          scan_idle (suc (length tail)) (round on_frame ((0xfe ∷ tail) ++ rest) (suc (length tail)))
              (record { set_buffer = stack; remain_size = 0; device = d })
              (round_idle tail rest _ some asks quiet) (suc (length tail) + 1) 0 (omega arith),
          le→leb 0 (suc (length tail)) (omega arith),
        )
        (Returns-bind _ _ _ _
          (memcpy-Returns remainder 0 ((0xfe ∷ tail) ++ rest) 0 (suc (length tail) - 0)
            (omega arith) (omega (arith, length-append (0xfe ∷ tail) rest)))
          λ r h. (_, refl, (refl, h.1, front r h.0, omega arith)))
    where
      front :
          (r : List ℕ)
          → r ≡ overlay remainder 0 ((0xfe ∷ tail) ++ rest) 0 (suc (length tail) - 0)
          → take (suc (length tail) - 0) r ≡ 0xfe ∷ tail
      front r e = rw e (
          take-overlay remainder ((0xfe ∷ tail) ++ rest) 0 (suc (length tail) - 0)
            (omega (arith, length-append (0xfe ∷ tail) rest))
          ∙ take_append (0xfe ∷ tail) rest (suc (length tail) - 0) (omega arith))

  early_AsksMore :
      (payload tail late : List ℕ) (check : ℕ)
      → (0xfe ∷ tail) ++ late ≡ frame payload check
      → 0 < length late
      → AsksMore tail
  early_AsksMore payload [] late check split some = tt
  early_AsksMore payload (n ∷ xs) late check split some =
      let same : n ≡ suc (length payload) = cc in
      omega (arith, length-append (0xfe ∷ n ∷ xs) late, ap length split, length-frame payload check)

  -- A read that ends inside a frame: every byte is held, and the device is left alone.
  pub turn_early :
      (payload early late stack : List ℕ) (check : ℕ) (l : Link S)
      → early ++ late ≡ frame payload check
      → 0 < length early
      → 0 < length late
      → NoStart (drop 1 early)
      → length payload < 255
      → HasRoom l
      → Holds l []
      → Returns
          (turn on_frame early stack l)
          (λ l'. (l'.device ≡ l.device) × HasRoom l' × Holds l' early)
  unfolding take_in
  turn_early payload [] late stack check l split some more quiet short room holds =
      absurd (omega arith)
  turn_early payload (c ∷ tail) late stack check l split some more quiet short room holds =
      let first : c ≡ 0xfe = cc in
      let split' : (0xfe ∷ tail) ++ late ≡ frame payload check = rw first at split in
      let sizes : suc (length tail) + length late ≡ length payload + 4 =
        omega
          (arith, length-append (0xfe ∷ tail) late, ap length split', length-frame payload check) in
      let total : l.receive_size + suc (length tail) ≡ suc (length tail) =
        omega (arith, holds.held) in
      let rest = drop (0 + suc (length tail)) l.receive_buffer in
      rw (turn_lem on_frame (c ∷ tail) stack l some (omega (arith, holds.held))) (
        Returns-bind _ _ _ _
          (memcpy-Returns l.receive_buffer l.receive_size (c ∷ tail) 0 (suc (length tail))
            (omega (arith, room.buffer)) (omega arith))
          λ received h.
            let whole : received ≡ (0xfe ∷ tail) ++ rest =
              h.0 ∙ received_lem on_frame [] (c ∷ tail) l holds ∙ rw first in
            let parsed : Returns
                (uart_parsing_receive_value on_frame received (l.receive_size + suc (length tail))
                  l.remainder 0 stack l.device)
                (λ r.
                  (r.device ≡ l.device)
                  × (length r.remainder ≡ length l.remainder)
                  × (take r.size r.remainder ≡ 0xfe ∷ tail)
                  × (r.size ≡ suc (length tail))) =
              rw (whole, total)
                (parse_early tail rest l.remainder stack l.device
                  (omega (arith, length-drop (0 + suc (length tail)) l.receive_buffer, room.buffer))
                  (early_AsksMore payload tail late check split' more) quiet
                  (omega (arith, room.rest))) in
            Returns-bind _ _ _ _ parsed λ r k.
              let (l', e, (room', holds', same)) =
                keep_rest-Holds received r (h.1 ∙ room.buffer) (k.1 ∙ room.rest)
                  (omega (arith, k.3)) in
              (
                l',
                e,
                (
                  same ∙ k.0,
                  room',
                  subst (λ xs. Holds l' xs) (k.2 ∙ ap (λ x. x ∷ tail) (sym first)) holds',
                ),
              ))

  -- A frame cut in two at any place gives, over two reads, what it gives in one: it is tested
  -- once, and nothing is held afterwards.
  pub turn-turn :
      (payload early late stack stack' : List ℕ) (check : ℕ) (l : Link S) (d : S)
      → early ++ late ≡ frame payload check
      → 0 < length early
      → 0 < length late
      → NoStart (drop 1 early)
      → length payload < 255
      → HasRoom l
      → Holds l []
      → length stack' ≡ buffer_size
      → (if check_of payload == check
          then on_frame
              (frame payload check ++ drop (length payload + 4) stack')
              (length payload + 4)
              l.device
          else ok l.device)
        ≡ ok d
      → Returns
          (turn on_frame early stack l >>= turn on_frame late stack')
          (λ l'. (l'.device ≡ d) × HasRoom l' × Holds l' [])
  turn-turn payload early late stack stack' check l d split some more quiet short room holds ws
        handled =
      Returns-bind _ _ _ _
        (turn_early payload early late stack check l split some more quiet short room holds)
        λ l' k.
          turn-frame on_frame payload early late stack' check l' d split more short k.1 k.2 ws
            (rw k.0 handled)
