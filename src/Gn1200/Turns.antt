-- ===== src/Gn1200/Turns.antt =====
-- src/driver/GN1200.c: what one read brings.
use i_dcu_io_t.Common.{
  ℕ, ◌+◌, ◌≤◌, ◌<◌, ◌≡◌, refl, sym, ◌∙◌, ap, arith, List, [], ◌∷◌, ◌++◌, Run, Returns, Returns-bind,
  length, length-append, drop, memcpy-Returns, overlay_append, lt→leb, scan, scan_step, scan_stop,
  ok-injective,
}
use i_dcu_io_t.Iot.Serial.{Parser}
use i_dcu_io_t.Iot.Serial.Rest.{finish-Returns, keep_rest-Returns, keep_rest_none}
use i_dcu_io_t.Iot.Server.{Conn}
use i_dcu_io_t.Driver.{buffer_size}
use i_dcu_io_t.M2m.Arrival.{IsClear}
use i_dcu_io_t.Gn1200.{round, parsing_receive_value, take_in, turn}
use i_dcu_io_t.Gn1200.Replies.{
  Registers, reply_bytes, IsReply, celsius, length-reply_bytes, round_reply,
}

-- The loop over what was received is done with all of it, and shows these temperatures.
abbrev pub Done : List ℕ → ℕ → Parser (List ℕ) → List ℕ → Type 0
Done received len begin shown =
    Returns (scan len (round received len) (len + 1) 0 begin)
      (λ p. (p.remain_size ≡ len) × (p.device ≡ shown))

pub shown_only :
    {m : Run (Conn (List ℕ))} {shown : List ℕ} {Q : Conn (List ℕ) → Type 0}
    → Returns m (λ c. IsClear c × (c.link.device ≡ shown) × Q c)
    → Returns m (λ c. IsClear c × (c.link.device ≡ shown))
shown_only (c, e, q) = (c, e, (q.0, q.1))

-- A read that the parser is done with leaves a loop that holds nothing back.
pub turn-Done :
    (bytes stack shown : List ℕ) (c : Conn (List ℕ))
    → length bytes < buffer_size
    → IsClear c
    → ((rest : List ℕ)
        → Done
            (bytes ++ rest)
            (length bytes)
            (record { set_buffer = stack; remain_size = 0; device = c.link.device })
            shown)
    → Returns (turn bytes stack c) (λ c'.
      IsClear c'
      × (c'.link.device ≡ shown)
      × (drop 4 c'.link.receive_buffer
          ≡ drop 4 (bytes ++ drop (length bytes) c.link.receive_buffer)))
unfolding turn take_in parsing_receive_value
turn-Done bytes stack shown c small free done =
    let n = length bytes in
    let rest = drop n c.link.receive_buffer in
    let from : 0 + n ≡ n = omega arith in
    let total : c.link.receive_size + n ≡ n = omega (arith, free.none) in
    rw (lt→leb buffer_size n small) (
      Returns-bind _ _ _ _
        (memcpy-Returns c.link.receive_buffer c.link.receive_size bytes 0 n
          (omega (arith, free.none, free.buffer)) (omega arith))
        λ received k.
          let stands : received ≡ bytes ++ rest =
            k.0
            ∙ rw free.none (
                overlay_append c.link.receive_buffer [] bytes 0 n refl refl
                ∙ ap (λ m. bytes ++ drop m c.link.receive_buffer) from) in
          let parsed : Returns
              (parsing_receive_value received (c.link.receive_size + n) c.link.remainder
                c.parsing_size stack c.link.device)
              (λ r.
                (r.size ≡ 0)
                × (r.device ≡ shown)
                × (length r.remainder ≡ length c.link.remainder)) =
            rw (stands, total, free.size)
              (Returns-bind _ _ _ _ (done rest) λ p q.
                let (r, e, (size, dev, same)) =
                  finish-Returns (bytes ++ rest) n c.link.remainder p (omega (arith, q.0))
                    (omega (arith, length-append bytes rest)) (omega (arith, q.0)) in
                (r, e, (omega (arith, size, q.0), dev ∙ q.1, same))) in
          Returns-bind _ _ _ _ parsed λ r q.
            let (l, e, (b, t, m, _, dev)) =
              keep_rest-Returns buffer_size received r (omega arith) (k.1 ∙ free.buffer)
                (q.2 ∙ free.rest) (omega (arith, q.0)) in
            let (l', e', stale) =
              keep_rest_none received r (omega (arith, k.1, free.buffer))
                (omega (arith, q.2, free.rest)) q.0 in
            (
              record { link = l; parsing_size = r.size },
              rw e,
              (
                record { buffer = b; rest = t; none = m ∙ q.0; size = q.0 },
                dev ∙ q.1,
                ap (λ z. drop 4 z.receive_buffer) (ok-injective (sym e ∙ e'))
                    ∙ stale
                    ∙ ap (drop 4) stands,
              ),
            ))

-- The same for a reply, with what the buffer holds behind its first four bytes.
pub turn-reply_bytes :
    (r : Registers) (stack : List ℕ) (c : Conn (List ℕ))
    → IsReply r
    → 2 ≤ length stack
    → IsClear c
    → Returns (turn (reply_bytes r) stack c) (λ c'.
      IsClear c'
      × (c'.link.device ≡ c.link.device ++ (celsius r ∷ []))
      × (drop 4 c'.link.receive_buffer
          ≡ drop 4 (reply_bytes r ++ drop (length (reply_bytes r)) c.link.receive_buffer)))
turn-reply_bytes r stack c h room free =
    let n = length-reply_bytes r h in
    turn-Done (reply_bytes r) stack (c.link.device ++ (celsius r ∷ [])) c (omega (arith, n)) free
      λ rest.
        let begin : Parser (List ℕ) = record {
          set_buffer = stack;
          remain_size = 0;
          device = c.link.device;
        } in
        let loop = round (reply_bytes r ++ rest) 13 in
        rw n (
          _,
          scan_step 13 loop 13 0 begin _ _ (omega arith) (round_reply r rest 13 begin h room)
              ∙ scan_stop 13 loop 12 14 _ (omega arith),
          (refl, refl),
        )
