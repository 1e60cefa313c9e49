-- ===== src/Iot/Server/Requests.antt =====
-- A whole request in one read.
use i_dcu_io_t.Common.{
  ℕ, suc, ◌+◌, ◌-◌, ◌≤◌, ◌<◌, ◌≡◌, refl, ◌∙◌, ap, arith, List, [], ◌∷◌, ◌++◌, Run, ok, Returns,
  Returns-bind, length, take, drop, memcpy, memcpy-ok, memcpy-Returns, lt→leb, scan, scan_step,
  scan_stop, take_append, length-append,
}
use i_dcu_io_t.Iot.Serial.{buffer_size, Parser}
use i_dcu_io_t.Iot.Serial.Rest.{finish-Returns}
use i_dcu_io_t.Iot.Serial.Reads.{HasRoom, Holds, keep_rest-Holds, received_lem}
use i_dcu_io_t.Iot.Server.{Conn, request, round, parsing_receive_value, take_in, turn}

-- A request with this body; the three bytes are not looked at.
abbrev pub request_bytes : ℕ → ℕ → ℕ → List ℕ → List ℕ
request_bytes a b c body = 1 ∷ 2 ∷ a ∷ b ∷ c ∷ length body ∷ body

-- A connection that holds nothing back.
pub record IsClear {S : Type 0} (c : Conn S) : Type 0 where
  pub room : HasRoom c.link
  pub none : Holds c.link []
  pub size : c.parsing_size ≡ 0

module _ {S : Type 0} (on_command : List ℕ → ℕ → S → Run S) where
  pub turn_lem :
      (bytes stack : List ℕ) (c : Conn S)
      → length bytes < buffer_size
      → turn on_command bytes stack c ≡ take_in on_command bytes stack c
  unfolding turn
  turn_lem bytes stack c h = rw (lt→leb buffer_size (length bytes) h)

  -- The round at the front of a buffer that begins with this head: the command is run on the
  -- `n + 6` bytes that stand there, received or not.
  pub round_request :
      (a b c n : ℕ) (rest : List ℕ) (p : Parser S) (d : S)
      → n ≤ length rest
      → n + 6 ≤ length p.set_buffer
      → on_command
          ((1 ∷ 2 ∷ a ∷ b ∷ c ∷ n ∷ take n rest) ++ drop (n + 6) p.set_buffer)
          (n + 6)
          p.device
        ≡ ok d
      → round on_command (1 ∷ 2 ∷ a ∷ b ∷ c ∷ n ∷ rest) 0 p
        ≡ ok (
          0 + (n + 5),
          record {
            set_buffer = (1 ∷ 2 ∷ a ∷ b ∷ c ∷ n ∷ take n rest) ++ drop (n + 6) p.set_buffer;
            remain_size = 0 + (n + 5) + 1;
            device = d;
          },
        )
  unfolding round request
  round_request a b c n rest p d fits room h =
      let start : 0 + (n + 6) ≡ n + 6 = omega arith in
      let taken : take (n + 6) (1 ∷ 2 ∷ a ∷ b ∷ c ∷ n ∷ rest)
          ≡ 1 ∷ 2 ∷ a ∷ b ∷ c ∷ n ∷ take n rest =
        ap (λ k. take k (1 ∷ 2 ∷ a ∷ b ∷ c ∷ n ∷ rest)) six in
      let copied : memcpy p.set_buffer 0 (1 ∷ 2 ∷ a ∷ b ∷ c ∷ n ∷ rest) 0 (n + 6)
          ≡ ok ((1 ∷ 2 ∷ a ∷ b ∷ c ∷ n ∷ take n rest) ++ drop (n + 6) p.set_buffer) =
        memcpy-ok p.set_buffer 0 (1 ∷ 2 ∷ a ∷ b ∷ c ∷ n ∷ rest) 0 (n + 6) (omega arith)
          (omega arith)
        ∙ rw start (ap (λ xs. ok (xs ++ drop (n + 6) p.set_buffer)) taken) in
      rw (copied, h)
    where
      six : n + 6 ≡ suc (suc (suc (suc (suc (suc n)))))
      six = omega arith

  -- The parser on a head whose bytes end at or behind the bytes received: one round.
  pub scan_request :
      (a b c n len : ℕ) (rest : List ℕ) (p : Parser S) (d : S)
      → n ≤ length rest
      → n + 6 ≤ length p.set_buffer
      → 0 < len
      → len ≤ n + 6
      → on_command
          ((1 ∷ 2 ∷ a ∷ b ∷ c ∷ n ∷ take n rest) ++ drop (n + 6) p.set_buffer)
          (n + 6)
          p.device
        ≡ ok d
      → scan len (round on_command (1 ∷ 2 ∷ a ∷ b ∷ c ∷ n ∷ rest)) (len + 1) 0 p
        ≡ ok (record {
          set_buffer = (1 ∷ 2 ∷ a ∷ b ∷ c ∷ n ∷ take n rest) ++ drop (n + 6) p.set_buffer;
          remain_size = 0 + (n + 5) + 1;
          device = d;
        })
  scan_request a b c n len rest p d fits room some short h =
      let more : len + 1 ≡ suc (suc (len - 1)) = omega arith in
      rw more (
        scan_step len (round on_command (1 ∷ 2 ∷ a ∷ b ∷ c ∷ n ∷ rest)) (suc (len - 1)) 0 p _ _ some
          (round_request a b c n rest p d fits room h)
        ∙ scan_stop len (round on_command (1 ∷ 2 ∷ a ∷ b ∷ c ∷ n ∷ rest)) (len - 1) _ _
            (omega arith))

  -- A whole request that one read brings to a connection that holds nothing back: the command is
  -- run once, on the request with what the stack held behind it, and nothing is held back.
  pub turn_request :
      (a b c : ℕ) (body stack : List ℕ) (conn : Conn S) (d : S)
      → length body < 256
      → length stack ≡ buffer_size
      → IsClear conn
      → on_command
          (request_bytes a b c body ++ drop (length body + 6) stack)
          (length body + 6)
          conn.link.device
        ≡ ok d
      → Returns
          (turn on_command (request_bytes a b c body) stack conn)
          (λ conn'. IsClear conn' × (conn'.link.device ≡ d))
  unfolding take_in parsing_receive_value
  turn_request a b c body stack conn d small ws clear h =
      let rest = drop (0 + length bytes) conn.link.receive_buffer in
      let total : conn.link.receive_size + length bytes ≡ length body + 6 =
        omega (arith, clear.none.held) in
      rw (turn_lem bytes stack conn (omega arith)) (
        Returns-bind _ _ _ _
          (memcpy-Returns conn.link.receive_buffer conn.link.receive_size bytes 0 (length bytes)
            (omega (arith, clear.none.held, clear.room.buffer)) (omega arith))
          λ received k.
            let whole : received ≡ 1 ∷ 2 ∷ a ∷ b ∷ c ∷ length body ∷ (body ++ rest) =
              k.0 ∙ received_lem on_command [] bytes conn.link clear.none in
            let parsed : Returns
                (parsing_receive_value on_command received (conn.link.receive_size + length bytes)
                  conn.link.remainder conn.parsing_size stack conn.link.device)
                (λ r.
                  (r.size ≡ 0)
                  × (r.device ≡ d)
                  × (length r.remainder ≡ length conn.link.remainder)) =
              rw (whole, total, clear.size) (parse rest) in
            Returns-bind _ _ _ _ parsed λ r q.
              let (l, e, (room, holds, same)) =
                keep_rest-Holds received r (k.1 ∙ clear.room.buffer) (q.2 ∙ clear.room.rest)
                  (omega (arith, q.0)) in
              (
                record { link = l; parsing_size = r.size },
                rw e,
                (record { room = room; none = rw q.0 at holds; size = q.0 }, same ∙ q.1),
              ))
    where
      bytes : List ℕ
      bytes = request_bytes a b c body

      parse :
          (rest : List ℕ)
          → Returns
              (parsing_receive_value on_command
                (1 ∷ 2 ∷ a ∷ b ∷ c ∷ length body ∷ (body ++ rest))
                (length body + 6)
                conn.link.remainder
                0
                stack
                conn.link.device)
              (λ r.
                (r.size ≡ 0) × (r.device ≡ d) × (length r.remainder ≡ length conn.link.remainder))
      parse rest =
          let taken : take (length body) (body ++ rest) ≡ body =
            take_append body rest (length body) refl in
          let held : length (body ++ rest) ≡ length body + length rest = length-append body rest in
          rw
            (scan_request a b c (length body) (length body + 6) (body ++ rest)
              (record { set_buffer = stack; remain_size = 0; device = conn.link.device }) d
              (omega arith) (omega arith) (omega arith) (omega arith) (rw taken h))
            (let (r, e, (size, dev, same)) =
                finish-Returns (1 ∷ 2 ∷ a ∷ b ∷ c ∷ length body ∷ (body ++ rest)) (length body + 6)
                  conn.link.remainder _ (omega arith) (omega arith)
                  (omega (arith, clear.room.rest)) in
              (r, e, (omega (arith, size), dev, same)))
