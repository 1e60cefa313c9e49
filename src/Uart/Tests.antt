-- ===== src/Uart/Tests.antt =====
-- src/UartManager.c: its theorems on concrete frames.
use i_dcu_io_t.Common.{
  ℕ, ◌≡◌, refl, arith, List, [], ◌∷◌, ◌++◌, no_fuel, length, length-replicate, replicate,
}
use i_dcu_io_t.Iot.Serial.Partial.{NoStart}
use i_dcu_io_t.Iot.Tests.{zeros, length-zeros}
use i_dcu_io_t.Uart.{parsing_receive_value}
use i_dcu_io_t.Uart.Endless.{whole, parsing_endless}

-- What `setBuffer` holds behind a frame of five bytes.
abbrev behind : List ℕ
behind = replicate 2043 0

length-behind : length behind ≡ 2043
length-behind = length-replicate {A = ℕ} 2043 0

abbrev noise : List ℕ
noise = replicate 9 0

noise-NoStart : NoStart noise
noise-NoStart = (
  omega arith,
  (
    omega arith,
    (
      omega arith,
      (omega arith, (omega arith, (omega arith, (omega arith, (omega arith, (omega arith, tt)))))),
    ),
  ),
)

parsing_endless_example :
    parsing_receive_value 1000 (noise ++ (whole (100 ∷ 155 ∷ []) ++ [])) 14 zeros 0 zeros []
    ≡ no_fuel
parsing_endless_example =
    parsing_endless noise (100 ∷ 155 ∷ []) [] behind 14 (omega arith) noise-NoStart (omega arith)
      (omega (arith, length-behind)) (omega (arith, length-behind)) refl zeros zeros 0 [] refl
      (omega (arith, length-zeros)) 1000

abbrev payload : List ℕ
payload = 2 ∷ 9 ∷ 0 ∷ 0 ∷ 1 ∷ 2 ∷ 0 ∷ 0 ∷ []
