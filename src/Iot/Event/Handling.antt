-- ===== src/Iot/Event/Handling.antt =====
-- `receiveEvent` returns on every array of the size of `setBuffer`, and `changed` is inequality.
use i_dcu_io_t.Common.{
  ℕ, zero, suc, ◌+◌, ◌*◌, ◌≤◌, ◌≡◌, ◌↔◌, refl, ◌∙◌, ap, arith, false, List, [], ◌∷◌, inl, inr,
  Returns, Returns-bind, Returns-if, read-Returns, length, ◌==◌, Bool-cases, word,
}
use i_dcu_io_t.Iot.Serial.{buffer_size}
use i_dcu_io_t.Iot.Event.{Device, counts, levels, changed, create_sync, report, receive_event}
use i_dcu_io_t.Iot.Event.Reports.{Ends, store-Returns}

-- Eight counters held and eight inputs, as the arrays of the source.
pub record IsWhole (d : Device) : Type 0 where
  pub past : length d.past ≡ 8
  pub io : length d.io ≡ 8

counts-Returns :
    (ports : ℕ) (buffer : List ℕ) (offset : ℕ)
    → offset + 6 * ports ≤ length buffer
    → Returns (counts ports buffer offset) (λ xs. length xs ≡ ports)
unfolding counts
counts-Returns zero buffer offset h = ([], refl, refl)
counts-Returns (suc ports) buffer offset h =
    Returns-bind _ _ _ _ (read-Returns buffer offset (omega arith)) λ b0 _.
      Returns-bind _ _ _ _ (read-Returns buffer (offset + 1) (omega arith)) λ b1 _.
        Returns-bind _ _ _ _ (read-Returns buffer (offset + 2) (omega arith)) λ b2 _.
          Returns-bind _ _ _ _ (read-Returns buffer (offset + 3) (omega arith)) λ b3 _.
            Returns-bind _ _ _ _ (counts-Returns ports buffer (offset + 6) (omega arith))
              λ xs h. (word b0 b1 b2 b3 ∷ xs, refl, ap suc h)

levels-Returns :
    (ports : ℕ) (buffer : List ℕ) (offset : ℕ)
    → offset + 3 * ports ≤ length buffer
    → Returns (levels ports buffer offset) (λ xs. length xs ≡ ports)
unfolding levels
levels-Returns zero buffer offset h = ([], refl, refl)
levels-Returns (suc ports) buffer offset h =
    Returns-bind _ _ _ _ (read-Returns buffer offset (omega arith)) λ b _.
      Returns-bind _ _ _ _ (levels-Returns ports buffer (offset + 3) (omega arith))
        λ xs h. (b ∷ xs, refl, ap suc h)

-- The flag `changed` is set exactly when some counter differs from the one held.
pub changed_iff : (xs ys : List ℕ) → length xs ≡ length ys → (changed xs ys ≡ false) ↔ (xs ≡ ys)
unfolding changed
changed_iff [] [] e = (λ _. refl, λ _. refl)
changed_iff [] (y ∷ ys) e = absurd (omega arith)
changed_iff (x ∷ xs) [] e = absurd (omega arith)
changed_iff (x ∷ xs) (y ∷ ys) e = ground (arith, changed_iff xs ys (omega arith))

module _ (exec : ℕ → ℕ) (patience : ℕ) (ends : Ends exec patience) where
  report-IsWhole :
      (buffer : List ℕ) (d : Device)
      → 76 ≤ length buffer
      → IsWhole d
      → Returns (report exec patience buffer d) IsWhole
  unfolding report
  report-IsWhole buffer d long w =
      Returns-bind _ _ _ _ (counts-Returns 8 buffer 4 (omega arith)) λ cnt hc.
        Returns-bind _ _ _ _ (levels-Returns 8 buffer 52 (omega arith)) λ io hl.
          let seen = record d { node = cnt; io = io } in
          Returns-bind (λ (s : Device). s.io ≡ io) _ _ _
            (Returns-if _ (changed d.past cnt) _ _
              (λ _. let (s, e, f) = store-Returns exec patience ends seen in (s, e, f.1))
              (λ _. (seen, refl, refl)))
            λ s same.
              (record s { past = cnt }, refl, record { past = hc; io = ap length same ∙ hl })

  create_sync-IsWhole : (kind : ℕ) (d : Device) → IsWhole d → IsWhole (create_sync kind d)
  unfolding create_sync
  create_sync-IsWhole kind d w = elim (Bool-cases (kind == 1)) [
    | inl one ↦ rw one (record { past = w.past; io = w.io })
    | inr other ↦ rw other w
  ]

  -- Where the commit of every transaction succeeds within the patience: on a `setBuffer` of its
  -- size and a device whose arrays have theirs, `receiveEvent` reads inside the buffer and ends,
  -- and the arrays keep their sizes.
  pub receive_event-IsWhole :
      (buffer : List ℕ) (len : ℕ) (d : Device)
      → length buffer ≡ buffer_size
      → len ≤ buffer_size
      → IsWhole d
      → Returns (receive_event exec patience buffer len d) IsWhole
  unfolding receive_event
  receive_event-IsWhole buffer len d size fits w =
      Returns-bind _ _ _ _ (read-Returns buffer 2 (omega arith)) λ kind _.
        Returns-if IsWhole (kind == 1) _ _
          (λ _.
            Returns-bind _ _ _ _ (read-Returns buffer 4 (omega arith))
              λ type _. (create_sync type d, refl, create_sync-IsWhole type d w))
          (λ _. report-IsWhole buffer d (omega arith) w)
