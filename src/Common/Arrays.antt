-- ===== src/Common/Arrays.antt =====
-- C arrays as lists with native indices, and `memcpy` between them.
use Prim.Native.Nat.{ℕ, zero, suc, ◌+◌, ◌-◌, ◌≤◌, ◌<◌}
use mathlib.Core.Path.{◌≡◌, refl, ap}
use mathlib.Core.Bool.{◌&&◌}
use mathlib.Core.List.{List, [], ◌∷◌, ◌++◌}
use mathlib.Core.Option.{Option, none, some}
use native.Mathlib.Omega.{arith}
use i_dcu_io_t.Common.Outcome.{Run, ok, fault, Returns}
use i_dcu_io_t.Common.Tests.{leb, if◌then◌else◌, le→leb}

module _ {ℓ} {A : Type ℓ} where
  abbrev pub length : List A → ℕ
  length [] = 0
  length (x ∷ xs) = suc (length xs)

  abbrev pub get_elem? : List A → ℕ → Option A
  get_elem? [] i = none
  get_elem? (x ∷ xs) zero = some x
  get_elem? (x ∷ xs) (suc i) = get_elem? xs i

  abbrev pub get_or : List A → ℕ → A → A
  get_or [] i d = d
  get_or (x ∷ xs) zero d = x
  get_or (x ∷ xs) (suc i) d = get_or xs i d

  abbrev pub set : List A → ℕ → A → List A
  set [] i v = []
  set (x ∷ xs) zero v = v ∷ xs
  set (x ∷ xs) (suc i) v = x ∷ set xs i v

  abbrev pub take : ℕ → List A → List A
  take zero xs = []
  take (suc n) [] = []
  take (suc n) (x ∷ xs) = x ∷ take n xs

  abbrev pub drop : ℕ → List A → List A
  drop zero xs = xs
  drop (suc n) [] = []
  drop (suc n) (x ∷ xs) = drop n xs

  abbrev pub replicate : ℕ → A → List A
  replicate zero a = []
  replicate (suc n) a = a ∷ replicate n a

  -- `a[i]`.
  abbrev pub read : List A → ℕ → Run A
  read [] i = fault
  read (x ∷ xs) zero = ok x
  read (x ∷ xs) (suc i) = read xs i

  -- What `memcpy` leaves in the target: `n` cells of `src` from `so` on, put at `to`.
  abbrev pub overlay : List A → ℕ → List A → ℕ → ℕ → List A
  overlay dst to src so n = take to dst ++ (take n (drop so src) ++ drop (to + n) dst)

  -- `memcpy(dst + to, src + so, n)`.
  pub memcpy : List A → ℕ → List A → ℕ → ℕ → Run (List A)
  memcpy dst to src so n =
      if leb (to + n) (length dst) && leb (so + n) (length src)
      then ok (overlay dst to src so n)
      else fault

  pub length-append : (xs ys : List A) → length (xs ++ ys) ≡ length xs + length ys
  length-append [] ys = omega arith
  length-append (x ∷ xs) ys = omega (arith, length-append xs ys)

  pub length-set : (xs : List A) (i : ℕ) (v : A) → length (set xs i v) ≡ length xs
  length-set [] i v = refl
  length-set (x ∷ xs) zero v = refl
  length-set (x ∷ xs) (suc i) v = ap suc (length-set xs i v)

  pub length-take : (n : ℕ) (xs : List A) → n ≤ length xs → length (take n xs) ≡ n
  length-take zero xs h = refl
  length-take (suc n) [] h = absurd (omega arith)
  length-take (suc n) (x ∷ xs) h = ap suc (length-take n xs (omega arith))

  pub length-drop : (n : ℕ) (xs : List A) → length (drop n xs) ≡ length xs - n
  length-drop zero xs = omega arith
  length-drop (suc n) [] = omega arith
  length-drop (suc n) (x ∷ xs) = omega (arith, length-drop n xs)

  pub length-replicate : (n : ℕ) (a : A) → length (replicate n a) ≡ n
  length-replicate zero a = refl
  length-replicate (suc n) a = ap suc (length-replicate n a)

  pub read-eq-get_or :
      (xs : List A) (i : ℕ) (d : A) → i < length xs → read xs i ≡ ok (get_or xs i d)
  read-eq-get_or [] i d h = absurd (omega arith)
  read-eq-get_or (x ∷ xs) zero d h = refl
  read-eq-get_or (x ∷ xs) (suc i) d h = read-eq-get_or xs i d (omega arith)

  pub read-Returns :
      (xs : List A) (i : ℕ) → i < length xs → Returns (read xs i) (λ a. read xs i ≡ ok a)
  read-Returns [] i h = absurd (omega arith)
  read-Returns (x ∷ xs) zero h = (x, refl, refl)
  read-Returns (x ∷ xs) (suc i) h = read-Returns xs i (omega arith)

  pub get_or-append_left :
      (xs ys : List A) (i : ℕ) (d : A) → i < length xs → get_or (xs ++ ys) i d ≡ get_or xs i d
  get_or-append_left [] ys i d h = absurd (omega arith)
  get_or-append_left (x ∷ xs) ys zero d h = refl
  get_or-append_left (x ∷ xs) ys (suc i) d h = get_or-append_left xs ys i d (omega arith)

  pub read-append_left : (xs ys : List A) (i : ℕ) → i < length xs → read (xs ++ ys) i ≡ read xs i
  read-append_left [] ys i h = absurd (omega arith)
  read-append_left (x ∷ xs) ys zero h = refl
  read-append_left (x ∷ xs) ys (suc i) h = read-append_left xs ys i (omega arith)

  pub get_or-take :
      (n : ℕ) (xs : List A) (i : ℕ) (d : A) → i < n → get_or (take n xs) i d ≡ get_or xs i d
  get_or-take zero xs i d h = absurd (omega arith)
  get_or-take (suc n) [] i d h = refl
  get_or-take (suc n) (x ∷ xs) zero d h = refl
  get_or-take (suc n) (x ∷ xs) (suc i) d h = get_or-take n xs i d (omega arith)

  pub take-append-drop : (n : ℕ) (xs : List A) → take n xs ++ drop n xs ≡ xs
  take-append-drop zero xs = refl
  take-append-drop (suc n) [] = refl
  take-append-drop (suc n) (x ∷ xs) = rw (take-append-drop n xs)

  pub take_append : (xs ys : List A) (n : ℕ) → n ≡ length xs → take n (xs ++ ys) ≡ xs
  take_append [] ys zero h = refl
  take_append [] ys (suc n) h = absurd (omega arith)
  take_append (x ∷ xs) ys zero h = absurd (omega arith)
  take_append (x ∷ xs) ys (suc n) h = ap (◌∷◌ x) (take_append xs ys n (omega arith))

  pub drop_append : (xs ys : List A) (n : ℕ) → n ≡ length xs → drop n (xs ++ ys) ≡ ys
  drop_append [] ys zero h = refl
  drop_append [] ys (suc n) h = absurd (omega arith)
  drop_append (x ∷ xs) ys zero h = absurd (omega arith)
  drop_append (x ∷ xs) ys (suc n) h = drop_append xs ys n (omega arith)

  pub drop_within : (xs ys : List A) (k : ℕ) → k ≤ length xs → drop k (xs ++ ys) ≡ drop k xs ++ ys
  drop_within xs ys zero h = refl
  drop_within [] ys (suc k) h = absurd (omega arith)
  drop_within (x ∷ xs) ys (suc k) h = drop_within xs ys k (omega arith)

  pub memcpy-ok :
      (dst : List A) (to : ℕ) (src : List A) (so n : ℕ)
      → to + n ≤ length dst
      → so + n ≤ length src
      → memcpy dst to src so n ≡ ok (overlay dst to src so n)
  unfolding memcpy
  memcpy-ok dst to src so n h k = rw (le→leb _ _ h, le→leb _ _ k)

  pub length-overlay :
      (dst : List A) (to : ℕ) (src : List A) (so n : ℕ)
      → to + n ≤ length dst
      → so + n ≤ length src
      → length (overlay dst to src so n) ≡ length dst
  length-overlay dst to src so n h k = omega (
    arith,
    length-append (take to dst) (take n (drop so src) ++ drop (to + n) dst),
    length-append (take n (drop so src)) (drop (to + n) dst),
    length-take to dst (omega arith),
    length-take n (drop so src) (omega (arith, length-drop so src)),
    length-drop (to + n) dst,
  )

  pub memcpy-Returns :
      (dst : List A) (to : ℕ) (src : List A) (so n : ℕ)
      → to + n ≤ length dst
      → so + n ≤ length src
      → Returns
          (memcpy dst to src so n)
          (λ r. (r ≡ overlay dst to src so n) × (length r ≡ length dst))
  memcpy-Returns dst to src so n h k = (
    overlay dst to src so n,
    memcpy-ok dst to src so n h k,
    (refl, length-overlay dst to src so n h k),
  )

  pub read_append :
      (xs : List A) (y : A) (zs : List A) (i : ℕ) → i ≡ length xs → read (xs ++ (y ∷ zs)) i ≡ ok y
  read_append [] y zs zero h = refl
  read_append [] y zs (suc i) h = absurd (omega arith)
  read_append (x ∷ xs) y zs zero h = absurd (omega arith)
  read_append (x ∷ xs) y zs (suc i) h = read_append xs y zs i (omega arith)

  pub take-all : (xs : List A) (n : ℕ) → n ≡ length xs → take n xs ≡ xs
  take-all [] zero h = refl
  take-all [] (suc n) h = absurd (omega arith)
  take-all (x ∷ xs) zero h = absurd (omega arith)
  take-all (x ∷ xs) (suc n) h = ap (◌∷◌ x) (take-all xs n (omega arith))

  -- A copy that starts where the first `to` cells end.
  pub overlay_append :
      (dst : List A) (xs src : List A) (to n : ℕ)
      → take to dst ≡ xs
      → n ≡ length src
      → overlay dst to src 0 n ≡ xs ++ (src ++ drop (to + n) dst)
  overlay_append dst xs src to n h k = rw (h, take-all src n k)

  -- A copy to the front of the first `n` cells.
  pub take-overlay :
      (dst src : List A) (so n : ℕ)
      → so + n ≤ length src
      → take n (overlay dst 0 src so n) ≡ take n (drop so src)
  take-overlay dst src so n h =
      take_append (take n (drop so src)) (drop (0 + n) dst) n
        (omega (arith, length-take n (drop so src) (omega (arith, length-drop so src))))

  pub get_or_append :
      (xs : List A) (y : A) (zs : List A) (i : ℕ) (d : A)
      → i ≡ length xs
      → get_or (xs ++ (y ∷ zs)) i d ≡ y
  get_or_append [] y zs zero d h = refl
  get_or_append [] y zs (suc i) d h = absurd (omega arith)
  get_or_append (x ∷ xs) y zs zero d h = absurd (omega arith)
  get_or_append (x ∷ xs) y zs (suc i) d h = get_or_append xs y zs i d (omega arith)

-- Each element has a property.
abbrev pub All {ℓ κ} : {A : Type ℓ} → (A → Type κ) → List A → Type κ
All P [] = Unit
All P (x ∷ xs) = P x × All P xs

pub All-append {ℓ κ} :
    {A : Type ℓ} (P : A → Type κ) (xs ys : List A) → All P xs → All P ys → All P (xs ++ ys)
All-append P [] ys h k = k
All-append P (x ∷ xs) ys h k = (h.0, All-append P xs ys h.1 k)
