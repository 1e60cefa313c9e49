-- ===== src/Plcs/Report.antt =====
-- src/driver/PLCS_12.c: `selectTag_12` on the text of the values.
use i_dcu_io_t.Common.{
  ℕ, suc, ◌+◌, ◌/◌, ◌%◌, ◌≤◌, ◌<◌, ◌≡◌, refl, ◌∙◌, ap, arith, List, [], ◌∷◌, ◌++◌, append_assoc,
  ◌==◌, ne→==, le→leb, leb, if◌then◌else◌, fault, ok, length, get_or, three, atoi-three, tokens,
  tokens-nil, tokens_token, tokens_last, Lacks, Lacks-append, Nonempty, length-replicate,
}
use i_dcu_io_t.Driver.{utc}
use i_dcu_io_t.Plcs.{tag_rows, store_tokens, entry, entries, select_tag}
use i_dcu_io_t.Plcs.Rows.{Short, fill_lem, texts}

-- A text that a value can have: no `:` and no `;`.
abbrev pub IsPlain : List ℕ → Type 0
IsPlain v = Nonempty v × Lacks (λ c. c == b':') v × Lacks (λ c. c == b';') v

-- One value of a message.
abbrev pub reading_of : ℕ → ℕ → List ℕ → List ℕ
reading_of now k v = ((91 + k) % 256) ∷ 0 ∷ (utc now ++ (((length v + 1) % 256) ∷ (v ++ (0 ∷ []))))

length-tag_rows : length tag_rows ≡ 256
unfolding tag_rows
length-tag_rows = length-replicate {A = List ℕ} 256 []

offered :
    (message : List ℕ) (queue : List (List ℕ))
    → length message ≤ 1024
    → (if leb (length message) 1024 then ok (queue ++ (message ∷ [])) else fault)
      ≡ ok (queue ++ (message ∷ []))
offered message queue small = rw (le→leb (length message) 1024 small)

module _ (word : ℕ → List ℕ) where
  abbrev pub readings : ℕ → List ℕ → List ℕ
  readings now [] = []
  readings now (k ∷ ks) = reading_of now k (word k) ++ readings now ks

  -- The rows taken are below 256, and their values are plain and short.
  abbrev pub Fits : ℕ → List ℕ → Type 0
  Fits width [] = Unit {0}
  Fits width (k ∷ ks) =
      ((k < 256) × IsPlain (word k) × (4 + length (word k) < width)) × Fits width ks

  abbrev token : ℕ → List ℕ
  token k = three (91 + k) ++ (b':' ∷ word k)

  abbrev row_texts : List ℕ → List (List ℕ)
  row_texts [] = []
  row_texts (k ∷ ks) = token k ∷ row_texts ks

  three-Lacks : (n d : ℕ) → n < 1000 → 57 < d → Lacks (λ c. c == d) (three n)
  three-Lacks n d small past = (
    ne→== (48 + n / 100) d (λ e. omega arith),
    (ne→== (48 + n / 10 % 10) d (λ e. omega arith), (ne→== (48 + n % 10) d (λ e. omega arith), tt)),
  )

  tokens-texts :
      (width : ℕ) (ks : List ℕ)
      → Fits width ks
      → tokens (λ c. c == b';') (texts word ks) ≡ row_texts ks
  tokens-texts width [] f = tokens-nil (λ c. c == b';')
  tokens-texts width (k ∷ ks) f =
      let v = word k in
      let whole : texts word (k ∷ ks) ≡ token k ++ (b';' ∷ texts word ks) = simp append_assoc in
      rw whole (
        tokens_token (λ c. c == b';') (token k) (texts word ks) b';' tt
          (Lacks-append (λ c. c == b';') (three (91 + k)) (b':' ∷ v)
            (three-Lacks (91 + k) b';' (omega arith) (omega arith)) (refl, f.0.1.2))
          refl
        ∙ ap (◌∷◌ (token k)) (tokens-texts width ks f.1))

  Short-tokens : (width : ℕ) (ks : List ℕ) → Fits width ks → Short width (row_texts ks)
  Short-tokens width [] f = tt
  Short-tokens width (k ∷ ks) f = (omega (arith, f.0.2), Short-tokens width ks f.1)

  length-tokens : (ks : List ℕ) → length (row_texts ks) ≡ length ks
  length-tokens [] = refl
  length-tokens (k ∷ ks) = ap suc (length-tokens ks)

  entry-token :
      (now k : ℕ)
      → k < 256
      → IsPlain (word k)
      → entry now (token k) ≡ ok (reading_of now k (word k))
  unfolding entry
  entry-token now k small plain =
      let v = word k in
      let parts : tokens (λ c. c == b':') (token k) ≡ three (91 + k) ∷ (v ∷ []) =
        tokens_token (λ c. c == b':') (three (91 + k)) v b':' tt
          (three-Lacks (91 + k) b':' (omega arith) (omega arith)) refl
        ∙ ap (◌∷◌ (three (91 + k))) (tokens_last (λ c. c == b':') v plain.0 plain.1) in
      rw (parts, atoi-three (91 + k) (omega arith))

  entries_lem :
      (now width : ℕ) (rows : List (List ℕ)) (ks : List ℕ) (i : ℕ)
      → Fits width ks
      → ((j : ℕ) → j < length ks → get_or rows (i + j) [] ≡ get_or (row_texts ks) j [])
      → entries now rows (length ks) i ≡ ok (readings now ks)
  unfolding entries
  entries_lem now width rows [] i f h = refl
  entries_lem now width rows (k ∷ ks) i f h =
      let first : get_or rows i [] ≡ token k =
        ap (λ j. get_or rows j []) (omega arith) ∙ h 0 (omega arith) in
      rw (
        first,
        entry-token now k f.0.0 f.0.1,
        entries_lem now width rows ks (suc i) f.1
            (λ j less. ap (λ m. get_or rows m []) (omega arith) ∙ h (suc j) (omega arith)),
      )

  -- Plain values that fit the rows, below 256 of them, and a message of at most 1024 bytes: one
  -- message is added to the queue, with the number of values and each of them.
  pub select_tag_lem :
      (now width : ℕ) (k : ℕ) (ks : List ℕ) (queue : List (List ℕ))
      → Fits width (k ∷ ks)
      → length (k ∷ ks) < 256
      → 1 + length (readings now (k ∷ ks)) ≤ 1024
      → select_tag width now (length (k ∷ ks)) (texts word (k ∷ ks)) queue
        ≡ ok (queue ++ ((length (k ∷ ks) ∷ readings now (k ∷ ks)) ∷ []))
  unfolding select_tag store_tokens
  select_tag_lem now width k ks queue f few small =
      let (r, e, (n, new, old)) =
        fill_lem width tag_rows 0 (row_texts (k ∷ ks))
          (omega (arith, length-tokens ks, length-tag_rows)) (omega (arith, length-tokens ks))
          (Short-tokens width (k ∷ ks) f) in
      let filled : store_tokens width tag_rows 0 (row_texts (k ∷ ks)) ≡ ok r = e in
      rw
        (
          tokens-texts width (k ∷ ks) f,
          filled,
          entries_lem now width r.0 (k ∷ ks) 0 f
              (λ j less. new j (omega (arith, length-tokens ks))),
        )
        (offered ((length (k ∷ ks) % 256) ∷ readings now (k ∷ ks)) queue (omega arith)
          ∙ ap (λ n. ok (queue ++ ((n ∷ readings now (k ∷ ks)) ∷ []))) (omega arith))
