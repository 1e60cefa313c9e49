-- ===== src/Plcs/Lines.antt =====
-- src/driver/PLCS_12.c: the lines that one read brings.
use i_dcu_io_t.Common.{
  ℕ, zero, suc, ◌+◌, ◌-◌, ◌≤◌, ◌<◌, ◌≡◌, refl, sym, ◌∙◌, ap, arith, true, some, List, [], ◌∷◌, ◌++◌,
  append_assoc, ◌==◌, Run, ok, ◌>>=◌, length, drop, memcpy, memcpy-ok, read_append, eq→==,
  take_append, drop_append, length-append, Lacks, length-replicate,
}
use i_dcu_io_t.Iot.Serial.{Parser}
use i_dcu_io_t.Plcs.{buffer_size, zeroed, starts, find_cr, take_line, round}

pub length-zeroed : length zeroed ≡ buffer_size
unfolding zeroed
length-zeroed = length-replicate {A = ℕ} 10240 0

starts_lem :
    (header pre rest : List ℕ) (i : ℕ)
    → i ≡ length pre
    → starts header (pre ++ (header ++ rest)) i ≡ ok true
unfolding starts
starts_lem [] pre rest i h = refl
starts_lem (b ∷ header) pre rest i h =
    let next : starts header (pre ++ (b ∷ (header ++ rest))) (suc i) ≡ ok true =
      ap (λ xs. starts header xs (suc i)) (sym (append_assoc pre (b ∷ []) (header ++ rest)))
      ∙ starts_lem header (pre ++ (b ∷ [])) rest (suc i)
          (omega (arith, length-append pre (b ∷ []))) in
    rw (read_append pre b (header ++ rest) i h, eq→== b b refl) next

find_cr_lem :
    (w pre rest : List ℕ) (rounds i : ℕ)
    → i ≡ length pre
    → length w < rounds
    → Lacks (λ c. c == 0x0d) w
    → find_cr rounds (pre ++ (w ++ (0x0d ∷ rest))) i ≡ ok (some (i + length w))
unfolding find_cr
find_cr_lem w pre rest zero i h more l = absurd (omega arith)
find_cr_lem [] pre rest (suc rounds) i h more l =
    rw (read_append pre 0x0d rest i h) (ap (λ k. ok (some k)) (omega arith))
find_cr_lem (c ∷ w) pre rest (suc rounds) i h more l =
    let next : find_cr rounds (pre ++ (c ∷ (w ++ (0x0d ∷ rest)))) (suc i)
        ≡ ok (some (suc i + length w)) =
      ap (λ xs. find_cr rounds xs (suc i)) (sym (append_assoc pre (c ∷ []) (w ++ (0x0d ∷ rest))))
      ∙ find_cr_lem w (pre ++ (c ∷ [])) rest rounds (suc i)
          (omega (arith, length-append pre (c ∷ []))) (omega arith) l.1 in
    rw (read_append pre c (w ++ (0x0d ∷ rest)) i h, l.0)
      (next ∙ ap (λ k. ok (some k)) (omega arith))

copied :
    (dst pre w post : List ℕ) (i n : ℕ)
    → i ≡ length pre
    → n ≡ length w
    → length w ≤ length dst
    → memcpy dst 0 (pre ++ (w ++ post)) i n ≡ ok (w ++ drop (length w) dst)
copied dst pre w post i n hi hn room =
    memcpy-ok dst 0 (pre ++ (w ++ post)) i n (omega arith)
      (omega (arith, length-append pre (w ++ post), length-append w post))
    ∙ rw (drop_append pre (w ++ post) i hi, take_append w post n hn)
        (ap (λ k. ok (w ++ drop k dst)) (omega arith))

-- A line with this text, which starts with the header.
abbrev pub line : List ℕ → List ℕ → List ℕ
line header body = header ++ (body ++ (0x0d ∷ []))

-- `setBuffer` when a line with this text has been copied.
abbrev pub set_buffer_of : List ℕ → List ℕ
set_buffer_of w = w ++ drop (length w) zeroed

abbrev pub all_lines : List ℕ → List (List ℕ) → List ℕ
all_lines header [] = []
all_lines header (body ∷ bodies) = line header body ++ all_lines header bodies

abbrev pub Bodies : List (List ℕ) → Type 0
Bodies [] = Unit {0}
Bodies (body ∷ bodies) = Lacks (λ c. c == 0x0d) body × Bodies bodies

module _ {S : Type 0} (header : List ℕ) (on_line : List ℕ → S → Run S) where
  -- What the lines mean: the calls of the handler, in their order.
  abbrev pub meaning : List (List ℕ) → S → Run S
  meaning [] d = ok d
  meaning (body ∷ bodies) d = on_line (set_buffer_of (header ++ body)) d >>= meaning bodies

  pub round-line :
      (body pre post : List ℕ) (len i : ℕ) (p : Parser S) (d : S)
      → i ≡ length pre
      → i + length (line header body) ≤ len
      → length (header ++ body) ≤ buffer_size
      → Lacks (λ c. c == 0x0d) (header ++ body)
      → on_line (set_buffer_of (header ++ body)) p.device ≡ ok d
      → round header on_line (pre ++ (line header body ++ post)) len i p
        ≡ ok (
          i + length (header ++ body),
          record {
            set_buffer = set_buffer_of (header ++ body);
            remain_size = i + length (header ++ body) + 1;
            device = d;
          },
        )
  unfolding round take_line
  round-line body pre post len i p d h fits small l e =
      let w = header ++ body in
      let whole : pre ++ (line header body ++ post) ≡ pre ++ (w ++ (0x0d ∷ post)) =
        simp append_assoc in
      let size : length (line header body) ≡ length w + 1 = omega (
        arith,
        length-append header (body ++ (0x0d ∷ [])),
        length-append header body,
        length-append body (0x0d ∷ []),
      ) in
      let opens : starts header (pre ++ (w ++ (0x0d ∷ post))) i ≡ ok true =
        ap (λ xs. starts header (pre ++ xs) i) (append_assoc header body (0x0d ∷ post))
        ∙ starts_lem header pre (body ++ (0x0d ∷ post)) i h in
      let n : i + length w - i ≡ length w = omega arith in
      rw (
        whole,
        opens,
        find_cr_lem w pre post (len - i) i h (omega arith) l,
        n,
        copied zeroed pre w (0x0d ∷ post) i (length w) h refl (omega (arith, length-zeroed)),
        e,
      )
