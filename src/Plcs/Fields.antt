-- ===== src/Plcs/Fields.antt =====
-- src/driver/PLCS_12.c: the fields of a line.
use i_dcu_io_t.Common.{
  ℕ, zero, suc, ◌+◌, ◌<◌, ◌≡◌, refl, ◌∙◌, ap, arith, Bool, false, List, [], ◌∷◌, ◌++◌, append-nil,
  ◌==◌, ◌||◌, ok, Returns, length, drop, get_or, length-append, replicate, length-replicate,
  is_space, c_string, c_string_end, tokens, tokens_token, tokens_last, Lacks, Lacks-append,
  Nonempty, Blank, trim, trim_word,
}
use i_dcu_io_t.Plcs.{buffer_size, zeroed, no_rows, store_tokens, fields}
use i_dcu_io_t.Plcs.Lines.{set_buffer_of}
use i_dcu_io_t.Plcs.Rows.{Short, fill_lem}

-- What a word does not have: spaces, the closing zero, and the delimiters of lines and values.
abbrev pub is_mark : ℕ → Bool
is_mark c = is_space c || (c == 0 || (c == b',' || (c == b':' || c == b';')))

-- A field: a word with spaces around it, in all below 32 bytes.
pub record Field : Type 0 where
  pub left : ℕ
  pub word : List ℕ
  pub right : ℕ
  pub full : Nonempty word
  pub plain : Lacks is_mark word
  pub small : left + length word + right < 32

abbrev pub text : Field → List ℕ
text f = replicate f.left 0x20 ++ (f.word ++ replicate f.right 0x20)

abbrev pub field_texts : List Field → List (List ℕ)
field_texts [] = []
field_texts (f ∷ fs) = text f ∷ field_texts fs

abbrev pub words : List Field → List (List ℕ)
words [] = []
words (f ∷ fs) = f.word ∷ words fs

-- The fields of a line, a comma in front of each.
abbrev pub body : List Field → List ℕ
body [] = []
body (f ∷ fs) = b',' ∷ (text f ++ body fs)

pub Lacks-weaken :
    (p q : ℕ → Bool) → ((c : ℕ) → p c ≡ false → q c ≡ false) → (w : List ℕ) → Lacks p w → Lacks q w
Lacks-weaken p q h [] l = tt
Lacks-weaken p q h (c ∷ w) l = (h c l.0, Lacks-weaken p q h w l.1)

Lacks-replicate : (q : ℕ → Bool) (n c : ℕ) → q c ≡ false → Lacks q (replicate n c)
Lacks-replicate q zero c h = tt
Lacks-replicate q (suc n) c h = (h, Lacks-replicate q n c h)

Blank-replicate : (n : ℕ) → Blank (replicate n 0x20)
Blank-replicate zero = tt
Blank-replicate (suc n) = (refl, Blank-replicate n)

pub Lacks-text :
    (q : ℕ → Bool)
    → ((c : ℕ) → is_mark c ≡ false → q c ≡ false)
    → q 0x20 ≡ false
    → (f : Field) → Lacks q (text f)
Lacks-text q h space f =
    Lacks-append q (replicate f.left 0x20) (f.word ++ replicate f.right 0x20)
      (Lacks-replicate q f.left 0x20 space)
      (Lacks-append q f.word (replicate f.right 0x20) (Lacks-weaken is_mark q h f.word f.plain)
        (Lacks-replicate q f.right 0x20 space))

pub Lacks-body :
    (q : ℕ → Bool)
    → ((c : ℕ) → is_mark c ≡ false → q c ≡ false)
    → q 0x20 ≡ false
    → q b',' ≡ false
    → (fs : List Field) → Lacks q (body fs)
Lacks-body q h space comma [] = tt
Lacks-body q h space comma (f ∷ fs) = (
  comma,
  Lacks-append q (text f) (body fs) (Lacks-text q h space f) (Lacks-body q h space comma fs),
)

length-text : (f : Field) → length (text f) ≡ f.left + length f.word + f.right
length-text f = omega (
  arith,
  length-append (replicate f.left 0x20) (f.word ++ replicate f.right 0x20),
  length-append f.word (replicate f.right 0x20),
  length-replicate {A = ℕ} f.left 0x20,
  length-replicate {A = ℕ} f.right 0x20,
)

Nonempty-append : (v w : List ℕ) → Nonempty w → Nonempty (v ++ w)
Nonempty-append [] w n = n
Nonempty-append (c ∷ v) w n = tt

Nonempty-append_left : (v w : List ℕ) → Nonempty v → Nonempty (v ++ w)
Nonempty-append_left [] w n = elim n [ ]
Nonempty-append_left (c ∷ v) w n = tt

Nonempty-text : (f : Field) → Nonempty (text f)
Nonempty-text f =
    Nonempty-append (replicate f.left 0x20) (f.word ++ replicate f.right 0x20)
      (Nonempty-append_left f.word (replicate f.right 0x20) f.full)

pub trim-text : (f : Field) → trim (text f) ≡ ok f.word
trim-text f =
    trim_word (replicate f.left 0x20) f.word (replicate f.right 0x20) (Blank-replicate f.left)
      f.full (Lacks-weaken is_mark is_space (λ c h. ground arith) f.word f.plain)
      (Blank-replicate f.right)
      (omega (
        arith,
        length-append f.word (replicate f.right 0x20),
        length-replicate {A = ℕ} f.right 0x20,
        f.small,
      ))

comma_mark : (c : ℕ) → is_mark c ≡ false → (c == b',') ≡ false
comma_mark c h = ground arith

-- `strtok` finds the text in front of the fields, and each field.
tokens-body :
    (w : List ℕ) (fs : List Field)
    → Nonempty w
    → Lacks (λ c. c == b',') w
    → tokens (λ c. c == b',') (w ++ body fs) ≡ w ∷ field_texts fs
tokens-body w [] n l = rw (append-nil w) (tokens_last (λ c. c == b',') w n l)
tokens-body w (f ∷ fs) n l =
    tokens_token (λ c. c == b',') w (text f ++ body fs) b',' n l refl
    ∙ ap (◌∷◌ w)
        (tokens-body (text f) fs (Nonempty-text f) (Lacks-text (λ c. c == b',') comma_mark refl f))

abbrev pub quote : List ℕ
quote = b'"' ∷ b':' ∷ b'"' ∷ []

-- A line without its CR: the quote, the kind, the fields.
abbrev pub line_text : List ℕ → List Field → List ℕ
line_text kind fs = quote ++ (b',' ∷ (kind ++ body fs))

drop-replicate : (m n : ℕ) → n < m → (rest : List ℕ) × (drop n (replicate m 0) ≡ 0 ∷ rest)
drop-replicate zero n h = absurd (omega arith)
drop-replicate (suc m) zero h = (replicate m 0, refl)
drop-replicate (suc m) (suc n) h = drop-replicate m n (omega arith)

zeroed_tail : (n : ℕ) → n < buffer_size → (rest : List ℕ) × (drop n zeroed ≡ 0 ∷ rest)
unfolding zeroed
zeroed_tail n h = drop-replicate 10240 n h

pub c_string-set_buffer :
    (w : List ℕ) → Lacks (λ c. c == 0) w → length w < buffer_size → c_string (set_buffer_of w) ≡ w
c_string-set_buffer w l small =
    let (rest, e) = zeroed_tail (length w) small in rw e (c_string_end w rest l)

Short-texts : (fs : List Field) → Short 32 (field_texts fs)
Short-texts [] = tt
Short-texts (f ∷ fs) = (omega (arith, length-text f, f.small), Short-texts fs)

length-texts : (fs : List Field) → length (field_texts fs) ≡ length fs
length-texts [] = refl
length-texts (f ∷ fs) = ap suc (length-texts fs)

length-no_rows : length no_rows ≡ 1024
unfolding no_rows
length-no_rows = length-replicate {A = List ℕ} 1024 []

-- The kind of a line: no comma and no zero.
pub record IsKind (kind : List ℕ) : Type 0 where
  pub full : Nonempty kind
  pub no_comma : Lacks (λ c. c == b',') kind
  pub no_zero : Lacks (λ c. c == 0) kind
  pub small : length kind < 32

zero_mark : (c : ℕ) → is_mark c ≡ false → (c == 0) ≡ false
zero_mark c h = ground arith

two_more : (j : ℕ) → 2 + j ≡ suc (suc j)
two_more j = omega arith

-- The rows of a line with below 253 fields: the kind in row 2, the fields from row 3 on.
pub fields_lem :
    (kind : List ℕ) (fs : List Field)
    → IsKind kind
    → length fs < 253
    → length (line_text kind fs) < buffer_size
    → Returns (fields (set_buffer_of (line_text kind fs))) (λ r.
      (r.1 ≡ 3 + length fs)
      × (get_or r.0 2 [] ≡ kind)
      × ((j : ℕ) → j < length fs → get_or r.0 (3 + j) [] ≡ get_or (field_texts fs) j []))
unfolding fields store_tokens
fields_lem kind fs k few small =
    let no_zero : Lacks (λ c. c == 0) (line_text kind fs) = (
      refl,
      (
        refl,
        (
          refl,
          (
            refl,
            Lacks-append (λ c. c == 0) kind (body fs) k.no_zero
                (Lacks-body (λ c. c == 0) zero_mark refl refl fs),
          ),
        ),
      ),
    ) in
    let parts : tokens (λ c. c == b',') (line_text kind fs) ≡ quote ∷ (kind ∷ field_texts fs) =
      tokens_token (λ c. c == b',') quote (kind ++ body fs) b',' tt (refl, (refl, (refl, tt))) refl
      ∙ ap (◌∷◌ quote) (tokens-body kind fs k.full k.no_comma) in
    let (r, e, (n, new, old)) =
      fill_lem 32 no_rows 1 (quote ∷ (kind ∷ field_texts fs))
        (omega (arith, length-no_rows, length-texts fs)) (omega (arith, length-texts fs))
        (omega arith, (k.small, Short-texts fs)) in
    (
      r,
      rw (c_string-set_buffer (line_text kind fs) no_zero small, parts) e,
      (
        omega (arith, n, length-texts fs),
        new 1 (omega arith),
        λ j h.
            ap (λ m. get_or r.0 m []) (omega arith)
            ∙ new (2 + j) (omega (arith, length-texts fs))
            ∙ rw (two_more j) refl,
      ),
    )
