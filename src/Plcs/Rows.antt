-- ===== src/Plcs/Rows.antt =====
-- src/driver/PLCS_12.c: the rows of `parsing` and the text of the values.
use i_dcu_io_t.Common.{
  ℕ, zero, suc, ◌+◌, ◌%◌, ◌≤◌, ◌<◌, ◌≡◌, ◌≢◌, refl, ◌∙◌, ap, arith, Bool, inl, inr, List, [], ◌∷◌,
  ◌++◌, if◌then◌else◌, Bool-cases, lt→ltb, ok, Returns, length, set, get_or, length-set, three,
  trim,
}
use i_dcu_io_t.Plcs.{fill, value_text, value_texts}

get_or-set_self :
    (rows : List (List ℕ)) (i : ℕ) (t : List ℕ) → i < length rows → get_or (set rows i t) i [] ≡ t
get_or-set_self [] i t h = absurd (omega arith)
get_or-set_self (r ∷ rows) zero t h = refl
get_or-set_self (r ∷ rows) (suc i) t h = get_or-set_self rows i t (omega arith)

get_or-set_other :
    (rows : List (List ℕ)) (i j : ℕ) (t : List ℕ)
    → i ≢ j
    → get_or (set rows i t) j [] ≡ get_or rows j []
get_or-set_other [] i j t h = refl
get_or-set_other (r ∷ rows) zero zero t h = absurd (h refl)
get_or-set_other (r ∷ rows) zero (suc j) t h = refl
get_or-set_other (r ∷ rows) (suc i) zero t h = refl
get_or-set_other (r ∷ rows) (suc i) (suc j) t h = get_or-set_other rows i j t (λ e. h (ap suc e))

abbrev pub Short : ℕ → List (List ℕ) → Type 0
Short width [] = Unit {0}
Short width (t ∷ ts) = (length t < width) × Short width ts

fill_step :
    (width : ℕ) (rows : List (List ℕ)) (count : ℕ) (t : List ℕ) (ts : List (List ℕ))
    → length t < width
    → count + 1 < 256
    → fill width rows count (t ∷ ts) ≡ fill width (set rows count t) (count + 1) ts
unfolding fill
fill_step width rows count t ts small few =
    let next : (count + 1) % 256 ≡ count + 1 = omega arith in
    rw (lt→ltb (length t) width small, next)

-- Tokens that fit: they stand in the rows from `count` on, and the rows before stay.
pub fill_lem :
    (width : ℕ) (rows : List (List ℕ)) (count : ℕ) (ts : List (List ℕ))
    → count + length ts ≤ length rows
    → count + length ts < 256
    → Short width ts
    → Returns (fill width rows count ts) (λ r.
      (r.1 ≡ count + length ts)
      × ((k : ℕ) → k < length ts → get_or r.0 (count + k) [] ≡ get_or ts k [])
      × ((k : ℕ) → k < count → get_or r.0 k [] ≡ get_or rows k []))
unfolding fill
fill_lem width rows count [] room few short =
    ((rows, count), refl, (omega arith, λ k h. absurd (omega arith), λ k h. refl))
fill_lem width rows count (t ∷ ts) room few short =
    let (r, e, (n, new, old)) =
      fill_lem width (set rows count t) (count + 1) ts (omega (arith, length-set rows count t))
        (omega arith) short.1 in
    (
      r,
      fill_step width rows count t ts short.0 (omega arith) ∙ e,
      (
        omega (arith, n),
        λ k h. from_new r.0 (old count (omega arith)) new k h,
        λ k h. old k (omega arith) ∙ get_or-set_other rows count k t (omega arith),
      ),
    )
  where
    from_new :
        (rows' : List (List ℕ))
        → get_or rows' count [] ≡ get_or (set rows count t) count []
        → ((k : ℕ) → k < length ts → get_or rows' (count + 1 + k) [] ≡ get_or ts k [])
        → (k : ℕ) → k < length (t ∷ ts)
        → get_or rows' (count + k) [] ≡ get_or (t ∷ ts) k []
    from_new rows' first new zero h =
        ap (λ j. get_or rows' j []) (omega arith)
        ∙ first
        ∙ get_or-set_self rows count t (omega arith)
    from_new rows' first new (suc k) h =
        ap (λ j. get_or rows' j []) (omega arith) ∙ new k (omega arith)

-- The rows that the loop takes.
abbrev pub kept : (ℕ → Bool) → ℕ → ℕ → List ℕ
kept skip zero k = []
kept skip (suc rounds) k = if skip k then kept skip rounds (suc k) else k ∷ kept skip rounds (suc k)

-- `%03d:%s;` of these values.
abbrev pub texts : (ℕ → List ℕ) → List ℕ → List ℕ
texts word [] = []
texts word (k ∷ ks) = (three (91 + k) ++ (b':' ∷ (word k ++ (b';' ∷ [])))) ++ texts word ks

pub value_texts_lem :
    (skip : ℕ → Bool) (rows : List (List ℕ)) (word : ℕ → List ℕ) (rounds k : ℕ)
    → ((j : ℕ) → k ≤ j → j < k + rounds → trim (get_or rows j []) ≡ ok (word j))
    → value_texts skip rows rounds k
      ≡ ok (length (kept skip rounds k), texts word (kept skip rounds k))
unfolding value_texts value_text
value_texts_lem skip rows word zero k h = refl
value_texts_lem skip rows word (suc rounds) k h =
    let rest =
      value_texts_lem skip rows word rounds (suc k) (λ j lo hi. h j (omega arith) (omega arith)) in
    elim (Bool-cases (skip k)) [
      | inl out ↦ rw out rest
      | inr taken ↦
          rw (taken, h k (omega arith) (omega arith), rest)
            (ap (λ n. ok (n, texts word (k ∷ kept skip rounds (suc k)))) (omega arith))
    ]
