-- ===== src/Iot/Event/Sync.antt =====
-- The frame of `thread_syncCount`: its end byte stands on the last byte of the counters.
use i_dcu_io_t.Common.{ℕ, ◌%◌, ◌^◌, ◌≡◌, refl, arith, [], ◌∷◌, ◌++◌, byte0, byte1, byte2}
use i_dcu_io_t.Iot.Event.{sync_frame, word_memory}

-- For any eight counters: the frame holds the length byte 35, the four bytes of the first seven
-- counters and the three lower bytes of the eighth, and then its end byte.
pub sync_frame_lem :
    (a b c d e f g v : ℕ)
    → sync_frame (a ∷ b ∷ c ∷ d ∷ e ∷ f ∷ g ∷ v ∷ [])
      ≡ 0xfe
        ∷ 35
        ∷ 0x32
        ∷ 32
        ∷ (word_memory (a ∷ b ∷ c ∷ d ∷ e ∷ f ∷ g ∷ [])
            ++ (byte0 v ∷ byte1 v ∷ byte2 v ∷ 0xff ∷ []))
unfolding sync_frame
sync_frame_lem a b c d e f g v = refl

-- For any seven counters and any two values of the eighth: the frames are the same where
-- the values agree below 2 ^ 24, so the highest byte of the eighth counter is not sent.
pub sync_frame-same :
    (a b c d e f g v w : ℕ)
    → v % 2 ^ 24 ≡ w % 2 ^ 24
    → sync_frame (a ∷ b ∷ c ∷ d ∷ e ∷ f ∷ g ∷ v ∷ [])
      ≡ sync_frame (a ∷ b ∷ c ∷ d ∷ e ∷ f ∷ g ∷ w ∷ [])
sync_frame-same a b c d e f g v w h =
    let low : byte0 v ≡ byte0 w = omega arith in
    let middle : byte1 v ≡ byte1 w = omega arith in
    let high : byte2 v ≡ byte2 w = omega arith in
    rw (sync_frame_lem a b c d e f g v, sync_frame_lem a b c d e f g w, low, middle, high)
