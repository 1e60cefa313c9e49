-- ===== src/Iot/Event/Arrival.antt =====
-- A report from the board, from the read of its frame to the counters held and the row written.
use i_dcu_io_t.Common.{
  ok, ℕ, suc, ◌+◌, ◌≡◌, ◌≢◌, refl, sym, ◌∙◌, ap, arith, List, [], ◌∷◌, ◌++◌, Returns, length, drop,
  if◌then◌else◌, ne→==, eq→==, append_assoc, length-append,
}
use mathlib.Core.Path.{subst}
use i_dcu_io_t.Iot.Serial.{buffer_size, Link, turn}
use i_dcu_io_t.Iot.Serial.Frames.{frame, check_of}
use i_dcu_io_t.Iot.Serial.Reads.{HasRoom, Holds, turn-frame}
use i_dcu_io_t.Iot.Event.{create_sync, Device, changed, receive_event}
use i_dcu_io_t.Iot.Event.Blocks.{
  Port, values, count_block, level_block, Words, Shows, Shows-append, length-count_block,
  length-level_block,
}
use i_dcu_io_t.Iot.Event.Reports.{Ends, written, report-Returns}

-- The payload of a report: its kind, a byte that is not read, the counters, the inputs.
abbrev pub report_payload : ℕ → ℕ → List Port → List Port → List ℕ
report_payload kind size cs ls = kind ∷ size ∷ (count_block cs ++ level_block ls)

module _ (kind size : ℕ) (cs ls : List Port) (eight_c : length cs ≡ 8)
    (eight_l : length ls ≡ 8) where
  abbrev head : List ℕ
  head = 0xfe ∷ suc (suc (suc (length (count_block cs ++ level_block ls)))) ∷ kind ∷ size ∷ []

  layout :
      (check : ℕ) (rest : List ℕ)
      → frame (report_payload kind size cs ls) check ++ rest
        ≡ head ++ (count_block cs ++ (level_block ls ++ ((check ∷ 0xff ∷ []) ++ rest)))
  layout check rest = simp append_assoc

  counts_shown :
      (check : ℕ) (rest : List ℕ)
      → Shows (frame (report_payload kind size cs ls) check ++ rest) 4 (count_block cs)
  counts_shown check rest =
      subst (λ b. Shows b 4 (count_block cs)) (sym (layout check rest))
        (Shows-append head (count_block cs) _ 4 refl)

  levels_shown :
      (check : ℕ) (rest : List ℕ)
      → Shows (frame (report_payload kind size cs ls) check ++ rest) 52 (level_block ls)
  levels_shown check rest =
      subst (λ b. Shows b 52 (level_block ls))
        (append_assoc head (count_block cs) (level_block ls ++ ((check ∷ 0xff ∷ []) ++ rest))
          ∙ sym (layout check rest))
        (Shows-append (head ++ count_block cs) (level_block ls) ((check ∷ 0xff ∷ []) ++ rest) 52
          (omega (arith, length-append head (count_block cs), length-count_block cs)))

  module _ (exec : ℕ → ℕ) (patience : ℕ) (ends : Ends exec patience) where
    event :
        (check len : ℕ) (rest : List ℕ) (d : Device)
        → kind ≢ 1
        → Words cs
        → Returns
            (receive_event exec patience
              (frame (report_payload kind size cs ls) check ++ rest)
              len
              d)
            (λ d'.
              (d'.node ≡ values cs)
              × (d'.past ≡ values cs)
              × (d'.io ≡ values ls)
              × (d'.effects
                  ≡ (if changed d.past (values cs) then written exec d (values cs) else d.effects)))
    unfolding receive_event
    event check len rest d ne w = rw (ne→== kind 1 ne) (
        report-Returns exec patience ends cs ls _ d eight_c eight_l w (counts_shown check rest)
          (levels_shown check rest))

    -- A report with a right check sum that one read brings: the counters and inputs held are
    -- those of the report, a row is written exactly where some counter differs from the one held
    -- and the transaction begins, and nothing stays in the buffer.
    pub turn_report :
        (stack : List ℕ) (l : Link Device)
        → kind ≢ 1
        → Words cs
        → HasRoom l
        → Holds l []
        → length stack ≡ buffer_size
        → let payload = report_payload kind size cs ls in
          Returns
            (turn (receive_event exec patience) (frame payload (check_of payload)) stack l)
            (λ l'.
              (l'.device.past ≡ values cs)
              × (l'.device.io ≡ values ls)
              × (l'.device.effects ≡ (
                  if changed l.device.past (values cs)
                  then written exec l.device (values cs)
                  else l.device.effects))
              × HasRoom l'
              × Holds l' [])
    turn_report stack l ne w room holds ws =
        let payload = report_payload kind size cs ls in
        let (d, e, (n, p, i, f)) =
          event (check_of payload) (length payload + 4) (drop (length payload + 4) stack) l.device
            ne w in
        let (l', r, (dev, room', holds')) =
          turn-frame (receive_event exec patience) payload [] (frame payload (check_of payload))
            stack (check_of payload) l d refl (omega arith)
            (omega (
              arith,
              length-append (count_block cs) (level_block ls),
              length-count_block cs,
              length-level_block ls,
            ))
            room holds ws (rw (eq→== (check_of payload) (check_of payload) refl) e) in
        (
          l',
          r,
          (
            ap (λ (x : Device). x.past) dev ∙ p,
            ap (λ (x : Device). x.io) dev ∙ i,
            ap (λ (x : Device). x.effects) dev ∙ f,
            room',
            holds',
          ),
        )

-- The handler on a request of the counters, the frame of kind 1.
pub receive_event_sync :
    (exec : ℕ → ℕ) (patience a b c type len : ℕ) (rest : List ℕ) (d : Device)
    → receive_event exec patience (a ∷ b ∷ 1 ∷ c ∷ type ∷ rest) len d ≡ ok (create_sync type d)
unfolding receive_event
receive_event_sync exec patience a b c type len rest d = refl
