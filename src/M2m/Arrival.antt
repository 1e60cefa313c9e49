-- ===== src/M2m/Arrival.antt =====
-- src/M2MManager.c: a whole packet that one read brings.
use i_dcu_io_t.Common.{
  ℕ, suc, ◌+◌, ◌-◌, ◌≤◌, ◌<◌, ◌≡◌, refl, sym, ◌∙◌, ap, arith, List, [], ◌∷◌, ◌++◌, append_assoc,
  Run, ok, Returns, Returns-bind, length, drop, memcpy, memcpy-ok, memcpy-Returns, read,
  read_append, lt→leb, le→leb, scan, scan_step, scan_stop, take_append, length-append,
  overlay_append,
}
use i_dcu_io_t.Iot.Serial.{Parser}
use i_dcu_io_t.Iot.Serial.Rest.{finish-Returns, keep_rest-Returns}
use i_dcu_io_t.Iot.Server.{Conn}
use i_dcu_io_t.Driver.{buffer_size}
use i_dcu_io_t.M2m.{packet, at_start, round, parsing_receive_value, take_in, turn}

-- A packet with this body.
abbrev pub packet_bytes : List ℕ → List ℕ
packet_bytes body = 0xfe ∷ length body ∷ (body ++ (0xff ∷ []))

-- The loop holds nothing back, and its arrays have their sizes.
pub record IsClear {S : Type 0} (c : Conn S) : Type 0 where
  pub buffer : length c.link.receive_buffer ≡ buffer_size
  pub rest : length c.link.remainder ≡ buffer_size
  pub none : c.link.receive_size ≡ 0
  pub size : c.parsing_size ≡ 0

module _ {S : Type 0} (on_packet : List ℕ → ℕ → S → Run S) (body : List ℕ) where
  round_packet :
      (rest : List ℕ) (p : Parser S) (d : S)
      → length body + 3 ≤ length p.set_buffer
      → on_packet
          (packet_bytes body ++ drop (length body + 3) p.set_buffer)
          (length body + 3)
          p.device
        ≡ ok d
      → round on_packet (packet_bytes body ++ rest) (length body + 3) 0 p
        ≡ ok (
          0 + (length body + 2),
          record {
            set_buffer = packet_bytes body ++ drop (length body + 3) p.set_buffer;
            remain_size = 0 + (length body + 2) + 1;
            device = d;
          },
        )
  unfolding round at_start packet
  round_packet rest p d room h =
      let n = length body in
      let whole = packet_bytes body in
      let size : length whole ≡ n + 3 = omega (arith, length-append body (0xff ∷ [])) in
      let ends : read (whole ++ rest) (0 + (n + 2)) ≡ ok 0xff =
        ap (λ xs. read xs (0 + (n + 2))) (layout rest)
        ∙ read_append (0xfe ∷ n ∷ body) 0xff rest (0 + (n + 2)) (omega arith) in
      let start : 0 + (n + 3) ≡ n + 3 = omega arith in
      let len : 0 + (n + 2) + 1 ≡ n + 3 = omega arith in
      let copied : memcpy p.set_buffer 0 (whole ++ rest) 0 (n + 3)
          ≡ ok (whole ++ drop (n + 3) p.set_buffer) =
        memcpy-ok p.set_buffer 0 (whole ++ rest) 0 (n + 3) (omega arith)
          (omega (arith, length-append whole rest))
        ∙ rw (start, take_append whole rest (n + 3) (sym size)) in
      rw (le→leb (0 + n) (n + 3) (omega arith), ends, copied, len, h)
    where
      layout :
          (rest : List ℕ) → packet_bytes body ++ rest ≡ (0xfe ∷ length body ∷ body) ++ (0xff ∷ rest)
      layout rest = simp append_assoc

  parse_packet :
      (rest remainder stack : List ℕ) (d d' : S)
      → length body + 3 ≤ length stack
      → on_packet (packet_bytes body ++ drop (length body + 3) stack) (length body + 3) d ≡ ok d'
      → Returns
          (parsing_receive_value on_packet
            (packet_bytes body ++ rest)
            (length body + 3)
            remainder
            0
            stack
            d)
          (λ r. (r.size ≡ 0) × (r.device ≡ d') × (length r.remainder ≡ length remainder))
  unfolding parsing_receive_value
  parse_packet rest remainder stack d d' room h =
      let len : ℕ = length body + 3 in
      let more : len + 1 ≡ suc (suc (len - 1)) = omega arith in
      let held : length (packet_bytes body ++ rest) ≡ len + length rest =
        omega (arith, length-append (packet_bytes body) rest, length-append body (0xff ∷ [])) in
      let begin : Parser S = record { set_buffer = stack; remain_size = 0; device = d } in
      let loop = round on_packet (packet_bytes body ++ rest) len in
      let after : Parser S = record {
        set_buffer = packet_bytes body ++ drop len stack;
        remain_size = 0 + (length body + 2) + 1;
        device = d';
      } in
      let scanned : scan len loop (len + 1) 0 begin ≡ ok after = rw more (
        scan_step len loop (suc (len - 1)) 0 begin _ _ (omega arith)
          (round_packet rest begin d' room h)
        ∙ scan_stop len loop (len - 1) _ _ (omega arith)) in
      rw scanned (
        let (r, e, (size, dev, same)) =
          finish-Returns (packet_bytes body ++ rest) len remainder after (omega arith) (omega arith)
            (omega arith) in
        (r, e, (omega (arith, size), dev, same)))

  -- A whole packet that one read brings to a loop that holds nothing back: its handler runs once,
  -- on the packet with what the stack held behind it, and nothing is held back.
  pub turn_packet :
      (stack : List ℕ) (conn : Conn S) (d : S)
      → length body < 256
      → length stack ≡ buffer_size
      → IsClear conn
      → on_packet
          (packet_bytes body ++ drop (length body + 3) stack)
          (length body + 3)
          conn.link.device
        ≡ ok d
      → Returns
          (turn on_packet (packet_bytes body) stack conn)
          (λ conn'. IsClear conn' × (conn'.link.device ≡ d))
  unfolding turn take_in
  turn_packet stack conn d small ws clear h =
      let whole = packet_bytes body in
      let size : length whole ≡ length body + 3 = omega (arith, length-append body (0xff ∷ [])) in
      let rest = drop (0 + length whole) conn.link.receive_buffer in
      let total : conn.link.receive_size + length whole ≡ length body + 3 =
        omega (arith, clear.none) in
      rw (lt→leb buffer_size (length whole) (omega arith)) (
        Returns-bind _ _ _ _
          (memcpy-Returns conn.link.receive_buffer conn.link.receive_size whole 0 (length whole)
            (omega (arith, clear.none, clear.buffer)) (omega arith))
          λ received k.
            let stands : received ≡ whole ++ rest =
              k.0
              ∙ rw clear.none
                  (overlay_append conn.link.receive_buffer [] whole 0 (length whole) refl refl) in
            let parsed : Returns
                (parsing_receive_value on_packet received (conn.link.receive_size + length whole)
                  conn.link.remainder conn.parsing_size stack conn.link.device)
                (λ r.
                  (r.size ≡ 0)
                  × (r.device ≡ d)
                  × (length r.remainder ≡ length conn.link.remainder)) =
              rw (stands, total, clear.size)
                (parse_packet rest conn.link.remainder stack conn.link.device d (omega arith) h) in
            Returns-bind _ _ _ _ parsed λ r q.
              let (l, e, (b, t, n, _, dev)) =
                keep_rest-Returns buffer_size received r (omega arith) (k.1 ∙ clear.buffer)
                  (q.2 ∙ clear.rest) (omega (arith, q.0)) in
              (
                record { link = l; parsing_size = r.size },
                rw e,
                (record { buffer = b; rest = t; none = n ∙ q.0; size = q.0 }, dev ∙ q.1),
              ))
