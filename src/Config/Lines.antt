-- ===== src/Config/Lines.antt =====
-- The lines of a configuration file that the writers make, as the readers take them apart.
use i_dcu_io_t.Common.{
  ℕ, ◌+◌, ◌-◌, ◌≤◌, ◌<◌, ◌≡◌, refl, ◌∙◌, ap, arith, false, List, [], ◌∷◌, ◌++◌, append_assoc, ◌==◌,
  Run, ok, length, length-append, ne→==, print_long, print_long_lem, Lacks, Lacks-append, Nonempty,
  c_string-whole, tokens_token, tokens-nil,
}
use i_dcu_io_t.Config.{fgets_lines, is_delim, words, is_comment, for_lines, read_file, entry_line}

-- A word that a file may hold.
abbrev pub IsWord : List ℕ → Type 0
IsWord w = Nonempty w × Lacks is_delim w × Lacks (λ c. c == 0) w

newline : (c : ℕ) → is_delim c ≡ false → (c == 10) ≡ false
newline c h = ground arith

fgets_line :
    (w line rest : List ℕ) (room : ℕ)
    → Lacks (λ c. c == 10) w
    → length w < room
    → fgets_lines room line (w ++ (10 ∷ rest))
      ≡ (line ++ (w ++ (10 ∷ []))) ∷ fgets_lines 1023 [] rest
unfolding fgets_lines
fgets_line [] [] rest room l h = refl
fgets_line [] (b ∷ line) rest room l h = refl
fgets_line (c ∷ w) [] rest room l h =
    rw (l.0, ne→== room 1 (λ e. omega (arith, e)))
      (fgets_line w (c ∷ []) rest (room - 1) l.1 (omega arith))
fgets_line (c ∷ w) (b ∷ line) rest room l h =
    rw (l.0, ne→== room 1 (λ e. omega (arith, e)))
      (fgets_line w ((b ∷ line) ++ (c ∷ [])) rest (room - 1) l.1 (omega arith)
        ∙ ap (λ xs. xs ∷ fgets_lines 1023 [] rest)
            (append_assoc (b ∷ line) (c ∷ []) (w ++ (10 ∷ []))))

no_newline : (w : List ℕ) → Lacks is_delim w → Lacks (λ c. c == 10) w
no_newline [] l = tt
no_newline (c ∷ w) l = (newline c l.0, no_newline w l.1)

words_entry : (key v : List ℕ) → IsWord key → IsWord v → words (entry_line key v) ≡ key ∷ v ∷ []
unfolding words
words_entry key v k w =
    let zeros =
      Lacks-append (λ c. c == 0) key (32 ∷ (v ++ (10 ∷ []))) k.2
        (refl, Lacks-append (λ c. c == 0) v (10 ∷ []) w.2 (refl, tt)) in
    rw
      (
        c_string-whole (entry_line key v) zeros,
        tokens_token is_delim key (v ++ (10 ∷ [])) 32 k.0 k.1 refl,
        tokens_token is_delim v [] 10 w.0 w.1 refl,
        tokens-nil is_delim,
      )
      refl

module _ {S : Type 0} (step : List ℕ → List (List ℕ) → S → Run S) where
  -- A line that a writer made, in front of other text.
  pub read_entry :
      (key v rest : List ℕ) (s t : S)
      → IsWord key
      → IsWord v
      → is_comment key ≡ false
      → length key + length v < 1022
      → step key (v ∷ []) s ≡ ok t
      → read_file step (entry_line key v ++ rest) s ≡ read_file step rest t
  unfolding read_file for_lines
  read_entry key v rest s t k w plain short e =
      let l =
        Lacks-append (λ c. c == 10) key (32 ∷ v) (no_newline key k.1) (refl, no_newline v w.1) in
      let layout : entry_line key v ++ rest ≡ (key ++ (32 ∷ v)) ++ (10 ∷ rest) =
        simp append_assoc in
      let back : (key ++ (32 ∷ v)) ++ (10 ∷ []) ≡ entry_line key v = simp append_assoc in
      rw
        (
          layout,
          fgets_line (key ++ (32 ∷ v)) [] rest 1023 l (omega (arith, length-append key (32 ∷ v))),
          back,
          words_entry key v k w,
          plain,
          e,
        )
        refl

  pub read_end : (s : S) → read_file step [] s ≡ ok s
  unfolding read_file for_lines fgets_lines
  read_end s = refl

pub print_long-IsWord : (v : ℕ) → IsWord (print_long v) × (length (print_long v) ≤ 11)
print_long-IsWord v =
    let (some, plain, short) = print_long_lem is_delim (λ d h. digit_delim d h) refl v in
    let (_, zeros, _) = print_long_lem (λ c. c == 0) (λ d h. digit_zero d h) refl v in
    ((some, plain, zeros), short)
  where
    digit_delim : (d : ℕ) → d < 10 → is_delim (48 + d) ≡ false
    digit_delim d h = ground arith

    digit_zero : (d : ℕ) → d < 10 → (48 + d == 0) ≡ false
    digit_zero d h = ground arith

-- Two words with a byte between them that is no delimiter.
pub join-IsWord :
    (v w : List ℕ) (c : ℕ)
    → IsWord v
    → IsWord w
    → is_delim c ≡ false
    → (c == 0) ≡ false
    → IsWord (v ++ (c ∷ w))
join-IsWord [] w c k l d z = absurd k.0
join-IsWord (b ∷ v) w c k l d z = (
  tt,
  Lacks-append is_delim (b ∷ v) (c ∷ w) k.1 (d, l.1),
  Lacks-append (λ x. x == 0) (b ∷ v) (c ∷ w) k.2 (z, l.2),
)
