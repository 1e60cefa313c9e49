-- ===== src/Gn1200/Tests.antt =====
-- src/driver/GN1200.c: its theorems on concrete replies.
use i_dcu_io_t.Common.{
  ℕ, ◌^◌, ◌<◌, ◌≡◌, ◌≢◌, refl, arith, List, [], ◌∷◌, ◌++◌, ok, length, replicate,
}
use i_dcu_io_t.Iot.Server.{Conn}
use i_dcu_io_t.Gn1200.{send_buf, shift, shifts, crc_from, crc16, temperature}
use i_dcu_io_t.Gn1200.Replies.{Registers, message, IsReply}
use i_dcu_io_t.Gn1200.Damage.{DifferOnce, crc16-DifferOnce}

-- The last two bytes of the request are its check sum.
request_checks : crc16 send_buf 0 6 ≡ ok 0x0944
unfolding crc16 crc_from shifts shift send_buf
request_checks = refl

warm : temperature 0x00 0xfb ≡ 251
unfolding temperature
warm = refl

abbrev nothing : List ℕ
nothing = replicate 1024 0

abbrev free : Conn (List ℕ)
free = record {
  link = record { receive_buffer = nothing; receive_size = 0; remainder = nothing; device = [] };
  parsing_size = 0;
}

-- 25.1 degrees.
abbrev meter : Registers
meter = record { first = 0x02; second = 0x10; high = 0x00; low = 0xfb; others = 0 ∷ 0 ∷ 0 ∷ 5 ∷ [] }

meter-IsReply : IsReply meter
meter-IsReply = record { four = refl; bytes = omega arith }

-- One bit of the temperature is another.
abbrev noisy : Registers
noisy = record meter { low = 0xfa }

noisy-IsReply : IsReply noisy
noisy-IsReply = record { four = refl; bytes = omega arith }

meter-DifferOnce : DifferOnce (message meter) (message noisy)
meter-DifferOnce = record {
  ahead = 1 ∷ 3 ∷ 8 ∷ 2 ∷ 16 ∷ 0 ∷ [];
  x = 0xfb;
  y = 0xfa;
  behind = 0 ∷ 0 ∷ 0 ∷ 5 ∷ [];
  left = refl;
  right = refl;
  other = λ e. absurd (omega (arith, e));
}

crc16-DifferOnce_example :
    (a : ℕ) × (b : ℕ) × (crc16 (message meter ++ []) 0 (length (message meter)) ≡ ok a)
    × (crc16 (message noisy ++ []) 0 (length (message noisy)) ≡ ok b)
    × (a < 2 ^ 16)
    × (b < 2 ^ 16)
    × (a ≢ b)
crc16-DifferOnce_example =
    crc16-DifferOnce (message meter) (message noisy) [] [] meter-DifferOnce meter-IsReply.bytes
      noisy-IsReply.bytes
