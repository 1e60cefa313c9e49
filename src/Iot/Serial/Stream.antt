-- ===== src/Iot/Serial/Stream.antt =====
-- The serial line of src/IoTManager.c as a stream: frames, each cut by the reads or not.
use i_dcu_io_t.Common.{
  ℕ, ◌+◌, ◌<◌, ◌≡◌, refl, sym, arith, List, [], ◌∷◌, ◌++◌, ◌==◌, if◌then◌else◌, Run, ok, ◌>>=◌,
  Returns, Returns-bind, Returns-if, length, drop, length-append, length-drop,
}
use i_dcu_io_t.Iot.Serial.{buffer_size, Link, turn}
use i_dcu_io_t.Iot.Serial.Safe.{Handles}
use i_dcu_io_t.Iot.Serial.Frames.{frame, check_of, length-frame}
use i_dcu_io_t.Iot.Serial.Reads.{HasRoom, Holds, turn-frame}
use i_dcu_io_t.Iot.Serial.Partial.{NoStart, turn-turn}

-- A frame and the two reads that bring it, the first of which may have brought nothing, with what
-- `setBuffer` holds at each.
pub record Sending : Type 0 where
  pub payload : List ℕ
  pub check : ℕ
  pub early : List ℕ
  pub late : List ℕ
  pub stack : List ℕ
  pub stack' : List ℕ
  pub split : early ++ late ≡ frame payload check
  pub some : 0 < length late
  pub quiet : NoStart (drop 1 early)
  pub short : length payload < 255
  pub whole : length stack' ≡ buffer_size

module _ {S : Type 0} (on_frame : List ℕ → ℕ → S → Run S) where
  -- The turns of the loop for these frames.
  abbrev pub run : List Sending → Link S → Run (Link S)
  run [] l = ok l
  run (m ∷ ms) l = (turn on_frame m.early m.stack l >>= turn on_frame m.late m.stack') >>= run ms

  -- What one frame does to the device: the handler is called when the check sum is right.
  abbrev pub answer : List ℕ → ℕ → List ℕ → S → Run S
  answer payload check stack d =
      if check_of payload == check
      then on_frame (frame payload check ++ drop (length payload + 4) stack) (length payload + 4) d
      else ok d

  -- What the frames mean: the calls of the handler, in their order.
  abbrev pub meaning : List Sending → S → Run S
  meaning [] d = ok d
  meaning (m ∷ ms) d = answer m.payload m.check m.stack' d >>= meaning ms

  -- A read of nothing.
  turn_nothing : (stack : List ℕ) (l : Link S) → turn on_frame [] stack l ≡ ok l
  unfolding turn
  turn_nothing stack l = refl

  -- One frame, in one read or in two, by whether the first read brought something.
  turn_parts :
      (payload early late stack stack' : List ℕ) (check : ℕ) (l : Link S) (d : S)
      → early ++ late ≡ frame payload check
      → 0 < length late
      → NoStart (drop 1 early)
      → length payload < 255
      → HasRoom l
      → Holds l []
      → length stack' ≡ buffer_size
      → answer payload check stack' l.device ≡ ok d
      → Returns
          (turn on_frame early stack l >>= turn on_frame late stack')
          (λ l'. (l'.device ≡ d) × HasRoom l' × Holds l' [])
  turn_parts payload [] late stack stack' check l d split some quiet short room holds ws handled =
      rw (turn_nothing stack l) (
        turn-frame on_frame payload [] late stack' check l d split some short room holds ws handled)
  turn_parts payload (x ∷ xs) late stack stack' check l d split some quiet short room holds ws
        handled =
      turn-turn on_frame payload (x ∷ xs) late stack stack' check l d split (omega arith) some quiet
        short room holds ws handled

  answer-Returns :
      (Good : S → Type 0) (payload : List ℕ) (check : ℕ) (stack : List ℕ) (d : S)
      → Handles on_frame Good
      → length payload < 255
      → length stack ≡ buffer_size
      → Good d
      → Returns (answer payload check stack d) Good
  answer-Returns Good payload check stack d handles short ws good =
      Returns-if Good (check_of payload == check) _ _
        (λ same.
          handles (frame payload check ++ drop (length payload + 4) stack) (length payload + 4) d
            (omega (
              arith,
              length-append (frame payload check) (drop (length payload + 4) stack),
              length-frame payload check,
              length-drop (length payload + 4) stack,
            ))
            (omega arith) good)
        (λ wrong. (d, refl, good))

  -- For any sequence of frames, each in one read or cut in two where no FE stands behind the first
  -- byte of the first part, on a loop that holds nothing back, and a handler that returns and keeps
  -- an invariant that the device has: the loop returns, the device is what the calls of the handler
  -- on the frames with a right check sum make of it, one for each and in their order, and nothing
  -- is held back.
  pub run-eq-meaning :
      (Good : S → Type 0) (ms : List Sending) (l : Link S)
      → Handles on_frame Good
      → HasRoom l
      → Holds l []
      → Good l.device
      → Returns
          (run ms l)
          (λ l'. (meaning ms l.device ≡ ok l'.device) × Good l'.device × HasRoom l' × Holds l' [])
  run-eq-meaning Good [] l handles room holds good = (l, refl, (refl, good, room, holds))
  run-eq-meaning Good (m ∷ ms) l handles room holds good =
      let (d, e, kept) =
        answer-Returns Good m.payload m.check m.stack' l.device handles m.short m.whole good in
      Returns-bind _ _ _ _
        (turn_parts m.payload m.early m.late m.stack m.stack' m.check l d m.split m.some m.quiet
          m.short room holds m.whole e)
        λ l' k.
          let (l'', e', (sense, good', room', holds')) =
            run-eq-meaning Good ms l' handles k.1 k.2 (rw k.0 kept) in
          (l'', e', (rw e (rw (sym k.0) sense), good', room', holds'))
