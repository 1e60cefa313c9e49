-- ===== src/Plcs/Arrival.antt =====
-- src/driver/PLCS_12.c: a read that brings whole lines.
use i_dcu_io_t.Common.{
  ℕ, zero, suc, ◌+◌, ◌≤◌, ◌<◌, ◌≡◌, refl, sym, ◌∙◌, ap, arith, List, [], ◌∷◌, ◌++◌, append_assoc,
  ◌==◌, Run, ok, Returns, Returns-bind, bind-eq-ok, ok-injective, length, drop, memcpy-Returns,
  lt→leb, scan, scan_step, scan_stop, length-append, overlay_append, Lacks, Lacks-append, replicate,
}
use i_dcu_io_t.Iot.Serial.{Parser, Parsed}
use i_dcu_io_t.Iot.Serial.Rest.{finish-Returns}
use i_dcu_io_t.Iot.Server.{Conn}
use i_dcu_io_t.Plcs.{buffer_size, round, parsing_receive_value, clear_head, keep, parse, turn}
use i_dcu_io_t.Plcs.Lines.{line, set_buffer_of, all_lines, Bodies, meaning, round-line}

-- The loop holds nothing back, and its arrays have their sizes.
pub record IsClear {S : Type 0} (c : Conn S) : Type 0 where
  pub buffer : length c.link.receive_buffer ≡ buffer_size
  pub rest : length c.link.remainder ≡ buffer_size
  pub none : c.link.receive_size ≡ 0
  pub size : c.parsing_size ≡ 0

module _ {S : Type 0} (header : List ℕ) (on_line : List ℕ → S → Run S)
    (no_cr : Lacks (λ c. c == 0x0d) header) where
  length-line : (body : List ℕ) → length (line header body) ≡ length (header ++ body) + 1
  length-line body = omega (
    arith,
    length-append header (body ++ (0x0d ∷ [])),
    length-append header body,
    length-append body (0x0d ∷ []),
  )

  scan_lines :
      (bodies : List (List ℕ)) (pre post : List ℕ) (len fuel i : ℕ) (p : Parser S) (d : S)
      → i ≡ length pre
      → len ≡ i + length (all_lines header bodies)
      → len ≤ buffer_size
      → length bodies < fuel
      → Bodies bodies
      → p.remain_size ≡ i
      → meaning header on_line bodies p.device ≡ ok d
      → Returns
          (scan len (round header on_line (pre ++ (all_lines header bodies ++ post)) len) fuel i p)
          (λ p'. (p'.remain_size ≡ len) × (p'.device ≡ d))
  scan_lines bodies pre post len zero i p d place size fits more l back e = absurd (omega arith)
  scan_lines [] pre post len (suc fuel) i p d place size fits more l back e =
      let loop = round header on_line (pre ++ post) len in
      (p, scan_stop len loop fuel i p (omega arith), (omega arith, ok-injective e))
  scan_lines (body ∷ bodies) pre post len (suc fuel) i p d place size fits more l back e =
      let w = header ++ body in
      let (d1, e1, e2) =
        bind-eq-ok (on_line (set_buffer_of w) p.device) (meaning header on_line bodies) e in
      let rest = all_lines header bodies ++ post in
      let whole : pre ++ (all_lines header (body ∷ bodies) ++ post)
          ≡ pre ++ (line header body ++ rest) =
        ap (λ xs. pre ++ xs) (append_assoc (line header body) (all_lines header bodies) post) in
      let taken : length (line header body) ≡ length w + 1 = length-line body in
      let total : len ≡ i + (length (line header body) + length (all_lines header bodies)) =
        omega (arith, length-append (line header body) (all_lines header bodies)) in
      let next : i + length w + 1 ≡ length (pre ++ line header body) =
        omega (arith, length-append pre (line header body)) in
      let after : Parser S = record {
        set_buffer = set_buffer_of w;
        remain_size = i + length w + 1;
        device = d1;
      } in
      let (p', r, q) =
        scan_lines bodies (pre ++ line header body) post len fuel (i + length w + 1) after d next
          (omega arith) fits (omega arith) l.1 refl e2 in
      (
        p',
        rw whole (
            scan_step len (round header on_line (pre ++ (line header body ++ rest)) len) fuel i p
              (i + length w) after (omega arith)
              (round-line header on_line body pre rest len i p d1 place (omega arith) (omega arith)
                (Lacks-append _ header body no_cr l.0) e1)
            ∙ rw (sym (append_assoc pre (line header body) rest)) r),
        q,
      )

keep-Returns :
    {S : Type 0} (header : List ℕ) (on_line : List ℕ → S → Run S) (received : List ℕ) (p : Parsed S)
    → length received ≡ buffer_size
    → length p.remainder ≡ buffer_size
    → p.size ≤ buffer_size
    → Returns (keep header on_line received p) (λ c.
      (length c.link.receive_buffer ≡ buffer_size)
      × (length c.link.remainder ≡ buffer_size)
      × (c.link.receive_size ≡ p.size)
      × (c.parsing_size ≡ p.size)
      × (c.link.device ≡ p.device))
unfolding keep clear_head
keep-Returns header on_line received p wb wr small =
    Returns-bind _ _ _ _
      (memcpy-Returns received 0 (replicate 40 0) 0 40 (omega arith) (omega arith))
      λ cleared hc.
        Returns-bind _ _ _ _
          (memcpy-Returns cleared 0 p.remainder 0 p.size (omega arith) (omega arith))
          λ moved hm.
            Returns-bind _ _ _ _
              (memcpy-Returns p.remainder 0 (replicate 40 0) 0 40 (omega arith) (omega arith))
              λ rest hr. (_, refl, (hm.1 ∙ hc.1 ∙ wb, hr.1 ∙ wr, refl, refl, refl))

module _ {S : Type 0} (header : List ℕ) (on_line : List ℕ → S → Run S)
    (no_cr : Lacks (λ c. c == 0x0d) header) where
  parse_lines :
      (bodies : List (List ℕ)) (post remainder stack : List ℕ) (d d' : S)
      → length (all_lines header bodies) < buffer_size
      → Bodies bodies
      → length bodies ≤ length (all_lines header bodies)
      → meaning header on_line bodies d ≡ ok d'
      → Returns
          (parsing_receive_value header on_line
            (all_lines header bodies ++ post)
            (length (all_lines header bodies))
            remainder
            0
            stack
            d)
          (λ r. (r.size ≡ 0) × (r.device ≡ d') × (length r.remainder ≡ length remainder))
  unfolding parsing_receive_value
  parse_lines bodies post remainder stack d d' small l few e =
      let whole = all_lines header bodies in
      let begin : Parser S = record { set_buffer = stack; remain_size = 0; device = d } in
      Returns-bind _ _ _ _
        (scan_lines header on_line no_cr bodies [] post (length whole) (length whole + 1) 0 begin d'
          refl (omega arith) (omega arith) (omega arith) l refl e)
        λ p' h.
          let (r, e', (size, dev, same)) =
            finish-Returns (whole ++ post) (length whole) remainder p' (omega (arith, h.0))
              (omega (arith, length-append whole post)) (omega (arith, h.0)) in
          (r, e', (omega (arith, size, h.0), dev ∙ h.1, same))

  length-bodies : (bodies : List (List ℕ)) → length bodies ≤ length (all_lines header bodies)
  length-bodies [] = omega arith
  length-bodies (body ∷ bodies) = omega (
    arith,
    length-bodies bodies,
    length-append (line header body) (all_lines header bodies),
    length-append header (body ++ (0x0d ∷ [])),
    length-append body (0x0d ∷ []),
  )

  -- Any number of lines with the header and no CR within, below 10240 bytes in all, that one read
  -- brings to a loop that holds nothing back, and that the handler takes: the handler runs once on
  -- each, in their order, and nothing is held back.
  pub turn_lines :
      (bodies : List (List ℕ)) (stack : List ℕ) (c : Conn S) (d : S)
      → length (all_lines header bodies) < buffer_size
      → Bodies bodies
      → IsClear c
      → meaning header on_line bodies c.link.device ≡ ok d
      → Returns
          (turn header on_line (all_lines header bodies) stack c)
          (λ c'. IsClear c' × (c'.link.device ≡ d))
  unfolding turn parse
  turn_lines bodies stack c d small l clear e =
      let whole = all_lines header bodies in
      let rest = drop (0 + length whole) c.link.receive_buffer in
      let total : c.link.receive_size + length whole ≡ length whole = omega (arith, clear.none) in
      rw (lt→leb buffer_size (length whole) small) (
        Returns-bind _ _ _ _
          (memcpy-Returns c.link.receive_buffer c.link.receive_size whole 0 (length whole)
            (omega (arith, clear.none, clear.buffer)) (omega arith))
          λ received k.
            let stands : received ≡ whole ++ rest =
              k.0
              ∙ rw clear.none
                  (overlay_append c.link.receive_buffer [] whole 0 (length whole) refl refl) in
            rw (total, lt→leb buffer_size (length whole) small, clear.size)
              (let parsed : Returns
                    (parsing_receive_value header on_line received (length whole) c.link.remainder 0
                      stack c.link.device)
                    (λ r.
                      (r.size ≡ 0)
                      × (r.device ≡ d)
                      × (length r.remainder ≡ length c.link.remainder)) =
                  rw stands (
                    parse_lines bodies rest c.link.remainder stack c.link.device d small l
                      (length-bodies bodies) e) in
                Returns-bind _ _ _ _ parsed λ r q.
                  let (c', e', (b, t, n, m, dev)) =
                    keep-Returns header on_line received r (k.1 ∙ clear.buffer) (q.2 ∙ clear.rest)
                      (omega (arith, q.0)) in
                  (
                    c',
                    e',
                    (record { buffer = b; rest = t; none = n ∙ q.0; size = m ∙ q.0 }, dev ∙ q.1),
                  )))
