-- ===== src/Common/Text.antt =====
-- C strings as lists of bytes without the closing zero: `strtok`, and `trim` of
-- src/lib/stringTrim.c.
use mathlib.Core.Logic.{inl, inr}
use Prim.Native.Nat.{◌%◌, ◌/◌, ◌^◌, ℕ, zero, suc, ◌+◌, ◌-◌, ◌≤◌, ◌<◌}
use mathlib.Core.Path.{◌≡◌, refl}
use mathlib.Core.Bool.{Bool, true, false}
use mathlib.Core.List.{List, [], ◌∷◌, ◌++◌}
use native.Mathlib.Omega.{arith}
use i_dcu_io_t.Common.Outcome.{Run, ok, fault}
use i_dcu_io_t.Common.Arrays.{length}
use i_dcu_io_t.Common.Tests.{◌==◌, leb, ltb, Bool-cases, if◌then◌else◌, lt→leb}
use i_dcu_io_t.Common.Decimal.{is_space, digits_onto, print_long}

-- The string at the start of an array: the bytes before the first zero.
pub c_string : List ℕ → List ℕ
c_string [] = []
c_string (c ∷ cs) = let rest = c ∷ c_string cs in if c == 0 then [] else rest

abbrev grow : ℕ → List (List ℕ) → List (List ℕ)
grow c [] = (c ∷ []) ∷ []
grow c (t ∷ ts) = (c ∷ t) ∷ ts

-- A byte in front of what follows it: it opens a token at the end or before a delimiter.
abbrev join : (ℕ → Bool) → ℕ → List ℕ → List (List ℕ) → List (List ℕ)
join delim c [] ts = (c ∷ []) ∷ ts
join delim c (x ∷ _) ts = if delim x then (c ∷ []) ∷ ts else grow c ts

-- What the calls of `strtok` return in turn: the runs of bytes that are no delimiters.
pub tokens : (ℕ → Bool) → List ℕ → List (List ℕ)
tokens delim [] = []
tokens delim (c ∷ cs) = let ts = tokens delim cs in if delim c then ts else join delim c cs ts

-- `ltrim`: a text of spaces only stays as it is.
pub ltrim_from : List ℕ → List ℕ → List ℕ
ltrim_from s [] = s
ltrim_from s (c ∷ cs) = let rest = ltrim_from s cs in if is_space c then rest else c ∷ cs

abbrev is_empty : List ℕ → Bool
is_empty [] = true
is_empty (c ∷ cs) = false

-- The text without the spaces at its end.
pub stripped : List ℕ → List ℕ
stripped [] = []
stripped (c ∷ cs) =
    let rest = stripped cs in
    if is_space c then (if is_empty rest then [] else c ∷ rest) else c ∷ rest

-- `rtrim`: the copy `t` has 4000 bytes; the loop stops at the first byte of the text, and for the
-- empty text it starts before the array.
pub rtrim : List ℕ → Run (List ℕ)
rtrim [] = fault
rtrim (c ∷ cs) = if leb 4000 (length (c ∷ cs)) then fault else ok (c ∷ stripped cs)

-- `trim`. It returns the address of the local array `t`: its bytes are taken to last until the
-- caller has read them.
pub trim : List ℕ → Run (List ℕ)
trim s = rtrim (ltrim_from s s)

-- No byte of the text is a delimiter.
abbrev pub Lacks : (ℕ → Bool) → List ℕ → Type 0
Lacks delim [] = Unit {0}
Lacks delim (c ∷ cs) = (delim c ≡ false) × Lacks delim cs

abbrev pub Nonempty : List ℕ → Type 0
Nonempty [] = ⊥
Nonempty (c ∷ cs) = Unit {0}

-- Spaces only.
abbrev pub Blank : List ℕ → Type 0
Blank [] = Unit {0}
Blank (c ∷ cs) = (is_space c ≡ true) × Blank cs

-- A token in front of a delimiter, and at the end.
pub tokens_token :
    (delim : ℕ → Bool) (w rest : List ℕ) (d : ℕ)
    → Nonempty w
    → Lacks delim w
    → delim d ≡ true
    → tokens delim (w ++ (d ∷ rest)) ≡ w ∷ tokens delim rest
unfolding tokens
tokens_token delim [] rest d n l h = elim n [ ]
tokens_token delim (c ∷ []) rest d n l h = rw (l.0, h)
tokens_token delim (c ∷ (x ∷ w)) rest d n l h =
    rw (l.0, tokens_token delim (x ∷ w) rest d tt l.1 h, l.1.0)

pub tokens-nil : (delim : ℕ → Bool) → tokens delim [] ≡ []
unfolding tokens
tokens-nil delim = refl

pub tokens_last :
    (delim : ℕ → Bool) (w : List ℕ) → Nonempty w → Lacks delim w → tokens delim w ≡ w ∷ []
unfolding tokens
tokens_last delim [] n l = elim n [ ]
tokens_last delim (c ∷ []) n l = rw (l.0)
tokens_last delim (c ∷ (x ∷ w)) n l = rw (l.0, tokens_last delim (x ∷ w) tt l.1, l.1.0)

pub c_string_end : (w rest : List ℕ) → Lacks (λ c. c == 0) w → c_string (w ++ (0 ∷ rest)) ≡ w
unfolding c_string
c_string_end [] rest l = refl
c_string_end (c ∷ w) rest l = rw (l.0, c_string_end w rest l.1)

pub c_string-whole : (w : List ℕ) → Lacks (λ c. c == 0) w → c_string w ≡ w
unfolding c_string
c_string-whole [] l = refl
c_string-whole (c ∷ w) l = rw (l.0, c_string-whole w l.1)

ltrim_from_word :
    (s before w : List ℕ)
    → Blank before
    → Nonempty w
    → Lacks is_space w
    → (after : List ℕ) → ltrim_from s (before ++ (w ++ after)) ≡ w ++ after
unfolding ltrim_from
ltrim_from_word s [] [] b n l after = elim n [ ]
ltrim_from_word s [] (c ∷ w) b n l after = rw (l.0)
ltrim_from_word s (c ∷ before) w b n l after = rw (b.0, ltrim_from_word s before w b.1 n l after)

stripped-Blank : (after : List ℕ) → Blank after → stripped after ≡ []
unfolding stripped
stripped-Blank [] b = refl
stripped-Blank (c ∷ after) b = rw (b.0, stripped-Blank after b.1)

stripped_word : (w after : List ℕ) → Lacks is_space w → Blank after → stripped (w ++ after) ≡ w
unfolding stripped
stripped_word [] after l b = stripped-Blank after b
stripped_word (c ∷ w) after l b = rw (l.0, stripped_word w after l.1 b)

-- `trim` takes the spaces around a word away.
pub trim_word :
    (before w after : List ℕ)
    → Blank before
    → Nonempty w
    → Lacks is_space w
    → Blank after
    → length (w ++ after) < 4000
    → trim (before ++ (w ++ after)) ≡ ok w
unfolding trim rtrim
trim_word before [] after b n l a small = elim n [ ]
trim_word before (c ∷ w) after b n l a small = rw (
  ltrim_from_word (before ++ ((c ∷ w) ++ after)) before (c ∷ w) b tt l after,
  lt→leb 4000 (length ((c ∷ w) ++ after)) small,
  stripped_word w after l.1 a,
)

pub Lacks-append :
    (delim : ℕ → Bool) (v w : List ℕ) → Lacks delim v → Lacks delim w → Lacks delim (v ++ w)
Lacks-append delim [] w k l = l
Lacks-append delim (c ∷ v) w k l = (k.0, Lacks-append delim v w k.1 l)

digits_onto_lem :
    (q : ℕ → Bool)
    → ((d : ℕ) → d < 10 → q (48 + d) ≡ false)
    → (places n : ℕ) (rest : List ℕ) → Lacks q rest
    → Lacks q (digits_onto places n rest)
      × (length (digits_onto places n rest) ≤ places + length rest)
unfolding digits_onto
digits_onto_lem q h zero n rest l = (l, omega arith)
digits_onto_lem q h (suc places) n rest l =
    let last = h (n % 10) (omega arith) in
    let (lacks, few) = digits_onto_lem q h places (n / 10) ((48 + n % 10) ∷ rest) (last, l) in
    elim (Bool-cases (ltb n 10)) [
      | inl one ↦ rw one ((last, l), omega arith)
      | inr more ↦ rw more (lacks, omega arith)
    ]

digits_onto-Nonempty :
    (places n : ℕ) (rest : List ℕ) → Nonempty rest → Nonempty (digits_onto places n rest)
unfolding digits_onto
digits_onto-Nonempty zero n rest h = h
digits_onto-Nonempty (suc places) n rest h = elim (Bool-cases (ltb n 10)) [
  | inl one ↦ rw one tt
  | inr more ↦ rw more (digits_onto-Nonempty places (n / 10) ((48 + n % 10) ∷ rest) tt)
]

digits-Nonempty : (n : ℕ) → Nonempty (digits_onto 10 n [])
unfolding digits_onto
digits-Nonempty n = elim (Bool-cases (ltb n 10)) [
  | inl one ↦ rw one tt
  | inr more ↦ rw more (digits_onto-Nonempty 9 (n / 10) ((48 + n % 10) ∷ []) tt)
]

-- The text of a number: not empty, digits and perhaps a sign, at most 11 characters.
pub print_long_lem :
    (q : ℕ → Bool)
    → ((d : ℕ) → d < 10 → q (48 + d) ≡ false)
    → q b'-' ≡ false
    → (v : ℕ) → Nonempty (print_long v) × Lacks q (print_long v) × (length (print_long v) ≤ 11)
unfolding print_long
print_long_lem q h sign v = elim (Bool-cases (ltb v (2 ^ 31))) [
  | inl pos ↦
      let (lacks, few) = digits_onto_lem q h 10 v [] tt in
      rw pos (digits-Nonempty v, lacks, omega arith)
  | inr neg ↦
      let (lacks, few) = digits_onto_lem q h 10 (2 ^ 32 - v) [] tt in
      rw neg (tt, (sign, lacks), omega arith)
]
