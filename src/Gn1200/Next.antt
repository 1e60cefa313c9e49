-- ===== src/Gn1200/Next.antt =====
-- src/driver/GN1200.c: bytes that follow a reply in the same read.
use i_dcu_io_t.Common.{ℕ, ◌+◌, ◌≤◌, ◌≡◌, List, ◌==◌, length, Lacks}
use i_dcu_io_t.Iot.Serial.{Parser}

-- No reply begins here.
abbrev Quiet : List ℕ → Type 0
Quiet = Lacks (λ b. b == 0x01)

module _ (pre quiet rest shown : List ℕ) (len : ℕ) (l : Quiet quiet)
    (n : len ≡ length pre + length quiet) where
  -- Behind the reply, and at the end.
  record Behind (i : ℕ) (p : Parser (List ℕ)) : Type 0 where
    from : length pre ≤ i
    same : p.device ≡ shown
    done : len ≤ i → p.remain_size ≡ len
