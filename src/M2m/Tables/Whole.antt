-- ===== src/M2m/Tables/Whole.antt =====
-- The replies of src/M2MManager.c to a whole table.
use native.Mathlib.Nat.{mul-suc}
use i_dcu_io_t.Common.{
  ℕ, suc, ◌+◌, ◌-◌, ◌*◌, ◌/◌, ◌%◌, ◌^◌, ◌≤◌, ◌≡◌, refl, sym, ap, ◌∙◌, arith, List, [], ◌∷◌, ◌++◌,
  Run, ok, Returns, Returns-bind, length, take, drop, replicate, length-append, length-take,
  length-replicate, length-drop, take_append, append_assoc, le→leb,
}
use i_dcu_io_t.Iot.Serial.Sum.{sum}
use i_dcu_io_t.M2m.Replies.{tlv_size, tlv_head, tlv_reply}
use i_dcu_io_t.M2m.Replies.Layout.{then_ok, copy_behind, tlv_reply_lem}
use i_dcu_io_t.M2m.Tables.{
  status_row, data_row, node_row, node_reply, all_rows, filled_array, status_reply, locked, empty,
  logged, data_reply,
}

-- A reply of this type: FE, head, time, rows, their check sum, FF.
abbrev pub reply_of : ℕ → List ℕ → List ℕ → List ℕ
reply_of type time bytes =
    let body = drop 1 (tlv_head type (length bytes + 6)) ++ (time ++ bytes) in
    0xfe ∷ (body ++ (sum body % 256 ∷ 0xff ∷ []))

-- `tlvSendBuffer` on entry.
abbrev zeros : List ℕ
zeros = replicate tlv_size 0

take_more : (xs ys : List ℕ) (n : ℕ) → take (length xs + n) (xs ++ ys) ≡ xs ++ take n ys
take_more [] ys n = let same : 0 + n ≡ n = omega arith in ap (λ k. take k ys) same
take_more (x ∷ xs) ys n =
    let more : suc (length xs) + n ≡ suc (length xs + n) = omega arith in
    ap (λ k. take k (x ∷ (xs ++ ys))) more ∙ ap (◌∷◌ x) (take_more xs ys n)

-- Every row is one that the loop can turn into its bytes.
abbrev pub Converts : (List (List ℕ) → Run (List ℕ)) → ℕ → List (List (List ℕ)) → Type 0
Converts row width [] = Unit
Converts row width (r ∷ rs) = Returns (row r) (λ b. length b ≡ width) × Converts row width rs

module _ (row : List (List ℕ) → Run (List ℕ)) (width : ℕ) where
  all_rows-Returns :
      (rs : List (List (List ℕ)))
      → Converts row width rs
      → Returns (all_rows row rs) (λ bytes. length bytes ≡ width * length rs)
  unfolding all_rows
  all_rows-Returns [] c = ([], refl, omega arith)
  all_rows-Returns (r ∷ rs) c = Returns-bind _ _ _ _ c.0 λ b hb.
      Returns-bind _ _ _ _ (all_rows-Returns rs c.1) λ bytes h.
        (b ++ bytes, refl, omega (arith, length-append b bytes, mul-suc width (length rs)))

  filled_array_lem :
      (room : ℕ) (rs : List (List (List ℕ))) (bytes : List ℕ)
      → length rs ≤ room
      → all_rows row rs ≡ ok bytes
      → filled_array row width room rs ≡ ok (bytes ++ replicate (width * (room - length rs)) 0)
  unfolding filled_array
  filled_array_lem room rs bytes few e = rw (le→leb (length rs) room few, e)

-- The array of rows is copied with six bytes of what stands behind the rows.
padded_reply :
    (type : ℕ) (time bytes pad : List ℕ) (v_length : ℕ)
    → length time ≡ 6
    → v_length ≡ length bytes + 6
    → 6 ≤ length pad
    → v_length + 12 ≤ tlv_size
    → tlv_reply zeros type time (bytes ++ pad) v_length v_length ≡ ok (reply_of type time bytes)
padded_reply type time bytes pad v_length ht hv hp room =
    let full : length zeros ≡ tlv_size = length-replicate {A = ℕ} tlv_size 0 in
    rw hv (
      tlv_reply_lem zeros type time bytes (take 6 pad) (bytes ++ pad) (length bytes + 6)
        (length bytes + 6) ht refl (omega (arith, length-append bytes pad)) (take_more bytes pad 6)
        (omega (arith, length-take 6 pad hp)) (omega arith) (omega arith))

-- For a call time of six bytes and at most 255 rows that convert: the status is sent as FE, head,
-- time, the 40 bytes of each row, their check sum and FF.
pub status_reply_lem :
    (time : List ℕ) (rs : List (List (List ℕ)))
    → length time ≡ 6
    → length rs ≤ 255
    → Converts status_row 40 rs
    → (bytes : List ℕ) × (all_rows status_row rs ≡ ok bytes)
      × (length bytes ≡ 40 * length rs)
      × (status_reply time rs ≡ ok (reply_of 6 time bytes))
unfolding status_reply
status_reply_lem time rs ht few c =
    let (bytes, e, long) = all_rows-Returns status_row 40 rs c in
    let pad = 40 * (256 - length rs) in
    (
      bytes,
      e,
      long,
      rw (filled_array_lem status_row 40 256 rs bytes (omega arith) e) (
          padded_reply 6 time bytes (replicate pad 0) (40 * length rs + 6) ht (omega arith)
            (omega (arith, length-replicate {A = ℕ} pad 0)) (omega arith)),
    )

-- For a call time of six bytes and at most 1461 rows that convert: the log is sent as FE, head,
-- time, the 14 bytes of each row, their check sum and FF; without rows it is sent as FE, head,
-- time, check sum and FF, and where the table is locked four zeros are sent.
pub data_reply_lem :
    (time : List ℕ) (rs : List (List (List ℕ)))
    → length time ≡ 6
    → length rs ≤ 1461
    → Converts data_row 14 rs
    → ((bytes : List ℕ) × (all_rows data_row rs ≡ ok bytes)
        × (length bytes ≡ 14 * length rs)
        × (data_reply time (logged rs) ≡ ok (reply_of 3 time bytes)))
      × (data_reply time empty ≡ ok (reply_of 3 time []))
      × (data_reply time locked ≡ ok (0 ∷ 0 ∷ 0 ∷ 0 ∷ []))
unfolding data_reply
data_reply_lem time rs ht few c =
    let (bytes, e, long) = all_rows-Returns data_row 14 rs c in
    let pad = 14 * (2048 - length rs) in
    let full : length zeros ≡ tlv_size = length-replicate {A = ℕ} tlv_size 0 in
    (
      (
        bytes,
        e,
        long,
        rw (filled_array_lem data_row 14 2048 rs bytes (omega arith) e) (
            padded_reply 3 time bytes (replicate pad 0) (14 * length rs + 6) ht (omega arith)
              (omega (arith, length-replicate {A = ℕ} pad 0)) (omega arith)),
      ),
      tlv_reply_lem zeros 3 time [] [] [] 0 6 ht refl (omega arith) refl refl (omega arith)
          (omega arith),
      refl,
    )

pub regroup_tail :
    (head bytes rest : List ℕ)
    → (head ++ bytes) ++ (0xff ∷ rest) ≡ (head ++ (bytes ++ (0xff ∷ []))) ++ rest
regroup_tail head bytes rest = simp append_assoc

-- For at most 64 rows that convert: the node list is sent as FE, the total length, type 5, the
-- length of the value, the 8 bytes of each row and FF.
pub node_reply_lem :
    (rs : List (List (List ℕ)))
    → length rs ≤ 64
    → Converts node_row 8 rs
    → (bytes : List ℕ) × (all_rows node_row rs ≡ ok bytes)
      × (length bytes ≡ 8 * length rs)
      × (node_reply rs
          ≡ ok (
              0xfe
              ∷ (8 * length rs + 3) / 2 ^ 8 % 2 ^ 8
              ∷ (8 * length rs + 3) % 2 ^ 8
              ∷ 5
              ∷ 8 * length rs / 2 ^ 8 % 2 ^ 8
              ∷ 8 * length rs % 2 ^ 8
              ∷ (bytes ++ (0xff ∷ []))))
unfolding node_reply
node_reply_lem rs few c =
    let (bytes, e, long) = all_rows-Returns node_row 8 rs c in
    let v = 8 * length rs in
    let total = v + 3 in
    let head : List ℕ =
      0xfe ∷ total / 2 ^ 8 % 2 ^ 8 ∷ total % 2 ^ 8 ∷ 5 ∷ v / 2 ^ 8 % 2 ^ 8 ∷ v % 2 ^ 8 ∷ [] in
    let buffer : List ℕ = replicate 1024 0 in
    let full : length buffer ≡ 1024 = length-replicate {A = ℕ} 1024 0 in
    let pad : List ℕ = replicate (8 * (64 - length rs)) 0 in
    let r1 = drop 6 buffer in
    let l1 : length r1 ≡ 1018 = omega (arith, length-drop 6 buffer) in
    let r2 = drop v r1 in
    let l2 : length r2 ≡ 1018 - v = omega (arith, length-drop v r1) in
    let r3 = drop 1 r2 in
    (
      bytes,
      e,
      long,
      then_ok _ (filled_array_lem node_row 8 64 rs bytes few e)
          ∙ then_ok _ (copy_behind [] head buffer 0 6 refl (omega arith) (omega arith))
          ∙ then_ok _ (
              copy_behind head (bytes ++ pad) r1 6 v refl (omega (arith, length-append bytes pad))
                (omega arith)
              ∙ ap (λ t. ok (head ++ (t ++ r2))) (take_append bytes pad v (sym long))
              ∙ ap ok (append_assoc head bytes r2))
          ∙ then_ok _ (
              copy_behind (head ++ bytes) (0xff ∷ []) r2 (total + 3) 1
                (omega (arith, length-append head bytes)) (omega arith) (omega arith))
          ∙ ap ok (
              ap (take (total + 4)) (regroup_tail head bytes r3)
              ∙ take_append (head ++ (bytes ++ (0xff ∷ []))) r3 (total + 4) (
                  omega (
                    arith,
                    length-append head (bytes ++ (0xff ∷ [])),
                    length-append bytes (0xff ∷ []),
                  ))),
    )
