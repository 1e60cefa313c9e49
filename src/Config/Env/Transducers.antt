-- ===== src/Config/Env/Transducers.antt =====
-- src/lib/configRW.c: `ReadTransducer` on a file of numbers.
use i_dcu_io_t.Common.{
  ℕ, suc, ◌+◌, ◌%◌, ◌^◌, ◌≤◌, ◌<◌, ◌≡◌, refl, sym, ◌∙◌, ap, arith, false, List, [], ◌∷◌, ◌++◌,
  append_assoc, ok, All, length, length-append, drop, print_long, atoi-print_long,
}
use i_dcu_io_t.M2m.Replies.Layout.{copy_behind}
use i_dcu_io_t.Config.{is_comment, entry_line, read_file}
use i_dcu_io_t.Config.Lines.{IsWord, read_entry, read_end, print_long-IsWord}
use i_dcu_io_t.Config.Env.{Ids, transducer_entry, read_transducer}

-- A line of the file: a word and a number.
pub record Numbered : Type 0 where
  pub name : List ℕ
  pub id : ℕ

pub record IsNumbered (l : Numbered) : Type 0 where
  pub name : IsWord l.name
  pub plain : is_comment l.name ≡ false
  pub short : length l.name < 1000
  pub id : l.id < 2 ^ 16

abbrev pub file_of : List Numbered → List ℕ
file_of [] = []
file_of (l ∷ lines) = entry_line l.name (print_long l.id) ++ file_of lines

abbrev pub ids_of : List Numbered → List ℕ
ids_of [] = []
ids_of (l ∷ lines) = l.id ∷ ids_of lines

take_id :
    (name : List ℕ) (id : ℕ) (front rest : List ℕ) (x k : ℕ)
    → id < 2 ^ 16
    → k ≡ length front
    → transducer_entry name (print_long id ∷ []) (record { cells = front ++ (x ∷ rest); count = k })
      ≡ ok (record { cells = front ++ (id ∷ rest); count = k + 1 })
unfolding transducer_entry
take_id name id front rest x k small h =
    let same : id % 2 ^ 16 ≡ id = omega arith in
    rw
      (
        atoi-print_long id (omega arith),
        same,
        copy_behind front (id ∷ []) (x ∷ rest) k 1 h (omega arith) (omega arith),
      )
      refl

reads :
    (lines : List Numbered) (front rest : List ℕ) (k : ℕ)
    → All IsNumbered lines
    → length lines ≤ length rest
    → k ≡ length front
    → read_file transducer_entry (file_of lines) (record { cells = front ++ rest; count = k })
      ≡ ok (record {
        cells = front ++ (ids_of lines ++ drop (length lines) rest);
        count = k + length lines;
      })
reads [] front rest k h room e =
    let none : k ≡ k + 0 = omega arith in
    read_end transducer_entry (record { cells = front ++ rest; count = k })
    ∙ ap (λ n. ok (record { cells = front ++ rest; count = n })) none
reads (l ∷ lines) front [] k h room e = absurd (omega arith)
reads (l ∷ lines) front (x ∷ rest) k h room e =
    let short = h.0.short in
    let (number, digits) = print_long-IsWord l.id in
    let taken : Ids = record { cells = front ++ (l.id ∷ rest); count = k + 1 } in
    let end = ids_of lines ++ drop (length lines) rest in
    let sum : k + 1 + length lines ≡ k + suc (length lines) = omega arith in
    read_entry transducer_entry l.name (print_long l.id) (file_of lines) _ taken h.0.name number
      h.0.plain (omega arith) (take_id l.name l.id front rest x k h.0.id e)
    ∙ ap (λ xs. read_file transducer_entry (file_of lines) (record { cells = xs; count = k + 1 }))
        (sym (append_assoc front (l.id ∷ []) rest))
    ∙ reads lines (front ++ (l.id ∷ [])) rest (k + 1) h.1 (omega arith)
        (omega (arith, length-append front (l.id ∷ [])))
    ∙ ap (λ xs. ok (record { cells = xs; count = k + 1 + length lines }))
        (append_assoc front (l.id ∷ []) end)
    ∙ ap (λ n. ok (record { cells = front ++ (l.id ∷ end); count = n })) sum

-- A file of lines of a word of less than 1000 bytes that does not begin with the mark of a comment
-- and a number of 16 bits, and an array that has room for them: the numbers are put into the array in the order of the lines, the cells behind them stay as they
-- were, and their number is returned.
pub read_transducer_lem :
    (lines : List Numbered) (cells : List ℕ)
    → All IsNumbered lines
    → length lines ≤ length cells
    → read_transducer (file_of lines) cells
      ≡ ok (record { cells = ids_of lines ++ drop (length lines) cells; count = length lines })
unfolding read_transducer
read_transducer_lem lines cells h room =
    let none : 0 + length lines ≡ length lines = omega arith in
    reads lines [] cells 0 h room refl
    ∙ ap (λ n. ok (record { cells = ids_of lines ++ drop (length lines) cells; count = n })) none
