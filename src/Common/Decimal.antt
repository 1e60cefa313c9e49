-- ===== src/Common/Decimal.antt =====
-- `printf( "%ld" )` of a 32-bit long and `atoi`, on texts as lists of character codes.
use Prim.Native.Nat.{ℕ, zero, suc, ◌+◌, ◌-◌, ◌*◌, ◌/◌, ◌%◌, ◌^◌, ◌≤◌, ◌<◌}
use mathlib.Core.Path.{◌≡◌, refl, ◌∙◌, ap}
use mathlib.Core.Bool.{Bool, ◌&&◌, ◌||◌}
use mathlib.Core.Logic.{inl, inr}
use mathlib.Core.List.{List, [], ◌∷◌}
use native.Mathlib.Omega.{arith}
use native.Mathlib.Nat.{pow-suc}
use i_dcu_io_t.Common.Tests.{
  ltb, leb, ◌==◌, if◌then◌else◌, Bool-cases, ltb→lt, ltb→le, le→leb, lt→leb, ne→==,
}

-- The digits of `n` in front of `rest`; `places` bounds their number.
unfoldable pub digits_onto : ℕ → ℕ → List ℕ → List ℕ
digits_onto zero n rest = rest
digits_onto (suc places) n rest =
    let more = digits_onto places (n / 10) ((48 + n % 10) ∷ rest) in
    if ltb n 10 then (48 + n % 10) ∷ rest else more

-- A long is its 32-bit pattern; from 2 ^ 31 on it stands for a negative number.
unfoldable pub print_long : ℕ → List ℕ
print_long v = if ltb v (2 ^ 31) then digits_onto 10 v [] else b'-' ∷ digits_onto 10 (2 ^ 32 - v) []

abbrev pub is_digit : ℕ → Bool
is_digit c = leb b'0' c && leb c b'9'

pub digits_value : ℕ → List ℕ → ℕ
digits_value acc [] = acc
digits_value acc (c ∷ cs) = if is_digit c then digits_value (acc * 10 + (c - 48)) cs else acc

-- The sign, then the digits; the result is the 32-bit pattern.
pub signed_value : List ℕ → ℕ
signed_value [] = 0
signed_value (c ∷ cs) =
    if c == b'-'
    then (2 ^ 32 - digits_value 0 cs % 2 ^ 32) % 2 ^ 32
    else if c == b'+'
    then digits_value 0 cs % 2 ^ 32
    else digits_value 0 (c ∷ cs) % 2 ^ 32

-- `isspace`.
abbrev pub is_space : ℕ → Bool
is_space c = c == b' ' || (leb 9 c && leb c 13)

pub atoi : List ℕ → ℕ
atoi [] = 0
atoi (c ∷ cs) = if is_space c then atoi cs else signed_value (c ∷ cs)

digit_step :
    (acc d : ℕ) (rest : List ℕ)
    → d < 10
    → digits_value acc ((48 + d) ∷ rest) ≡ digits_value (acc * 10 + d) rest
unfolding digits_value
digit_step acc d rest h =
    let back : 48 + d - 48 ≡ d = omega arith in
    rw (le→leb 48 (48 + d) (omega arith), le→leb (48 + d) 57 (omega arith), back)

-- Reading the digits back.
digits_value-digits_onto :
    (places n : ℕ) (rest : List ℕ)
    → n < 10 ^ places
    → digits_value 0 (digits_onto places n rest) ≡ digits_value n rest
unfolding digits_onto
digits_value-digits_onto zero n rest h = ap (λ k. digits_value k rest) (omega arith)
digits_value-digits_onto (suc places) n rest h = elim (Bool-cases (ltb n 10)) [
  | inl small ↦ rw small (
      digit_step 0 (n % 10) rest (omega arith)
      ∙ ap (λ k. digits_value k rest) (omega (arith, ltb→lt n 10 small)))
  | inr large ↦ rw large (
      digits_value-digits_onto places (n / 10) ((48 + n % 10) ∷ rest)
        (omega (arith, pow-suc 10 places))
      ∙ digit_step (n / 10) (n % 10) rest (omega arith)
      ∙ ap (λ k. digits_value k rest) (omega arith))
]

digits_value-nil : (n : ℕ) → digits_value n [] ≡ n
unfolding digits_value
digits_value-nil n = refl

-- The first character is a digit.
abbrev StartsDigit : List ℕ → Type 0
StartsDigit [] = ⊥
StartsDigit (c ∷ cs) = (48 ≤ c) × (c ≤ 57)

digits_onto-StartsDigit :
    (places n : ℕ) (rest : List ℕ) → StartsDigit rest → StartsDigit (digits_onto places n rest)
unfolding digits_onto
digits_onto-StartsDigit zero n rest h = h
digits_onto-StartsDigit (suc places) n rest h = elim (Bool-cases (ltb n 10)) [
  | inl small ↦ rw small (omega arith, omega arith)
  | inr large ↦
      rw large
        (digits_onto-StartsDigit places (n / 10) ((48 + n % 10) ∷ rest) (omega arith, omega arith))
]

digits_onto_starts : (places n : ℕ) (rest : List ℕ) → StartsDigit (digits_onto (suc places) n rest)
unfolding digits_onto
digits_onto_starts places n rest = elim (Bool-cases (ltb n 10)) [
  | inl small ↦ rw small (omega arith, omega arith)
  | inr large ↦
      rw large
        (digits_onto-StartsDigit places (n / 10) ((48 + n % 10) ∷ rest) (omega arith, omega arith))
]

atoi_digits : (text : List ℕ) → StartsDigit text → atoi text ≡ digits_value 0 text % 2 ^ 32
unfolding atoi signed_value
atoi_digits [] h = absurd h
atoi_digits (c ∷ cs) h = rw (
  ne→== c 32 (omega arith),
  lt→leb c 13 (omega arith),
  le→leb 9 c (omega arith),
  ne→== c 45 (omega arith),
  ne→== c 43 (omega arith),
)

-- `atoi` reads back the 32-bit long that `printf` wrote, of either sign.
pub atoi-print_long : (v : ℕ) → v < 2 ^ 32 → atoi (print_long v) ≡ v
unfolding print_long
atoi-print_long v h = elim (Bool-cases (ltb v (2 ^ 31))) [
  | inl pos ↦ rw pos (
      atoi_digits (digits_onto 10 v []) (digits_onto_starts 9 v [])
      ∙ rw (digits_value-digits_onto 10 v [] (omega arith), digits_value-nil v) (omega arith))
  | inr neg ↦ rw neg (
      unfold atoi signed_value in
      rw (digits_value-digits_onto 10 (2 ^ 32 - v) [] (omega arith), digits_value-nil (2 ^ 32 - v))
        (omega (arith, ltb→le v (2 ^ 31) neg)))
]

-- `%02d` of a number below 100.
abbrev pub two : ℕ → List ℕ
two n = (48 + n / 10) ∷ (48 + n % 10) ∷ []

pub atoi-two : (n : ℕ) → n < 100 → atoi (two n) ≡ n
unfolding digits_value
atoi-two n h =
    atoi_digits (two n) (omega arith, omega arith)
    ∙ rw
        (
          digit_step 0 (n / 10) ((48 + n % 10) ∷ []) (omega arith),
          digit_step (0 * 10 + n / 10) (n % 10) [] (omega arith),
        )
        (omega arith)

-- `%03d` of a number below 1000.
abbrev pub three : ℕ → List ℕ
three n = (48 + n / 100) ∷ (48 + n / 10 % 10) ∷ (48 + n % 10) ∷ []

pub atoi-three : (n : ℕ) → n < 1000 → atoi (three n) ≡ n
unfolding digits_value
atoi-three n h =
    atoi_digits (three n) (omega arith, omega arith)
    ∙ rw
        (
          digit_step 0 (n / 100) ((48 + n / 10 % 10) ∷ (48 + n % 10) ∷ []) (omega arith),
          digit_step (0 * 10 + n / 100) (n / 10 % 10) ((48 + n % 10) ∷ []) (omega arith),
          digit_step ((0 * 10 + n / 100) * 10 + n / 10 % 10) (n % 10) [] (omega arith),
        )
        (omega arith)
