-- ===== src/Iot/Event/Reports.antt =====
-- What a report does to the device, to the database and to the counters held.
use i_dcu_io_t.Common.{
  ℕ, zero, suc, ◌+◌, ◌<◌, ◌≡◌, refl, arith, true, List, [], ◌∷◌, ◌++◌, inl, inr, ok, Returns,
  length, if◌then◌else◌, Bool-cases,
}
use i_dcu_io_t.Storage.{transaction, insert_begin, insert_end}
use i_dcu_io_t.Iot.Event.{Effect, update, Device, counts, levels, changed, commit, store, report}
use i_dcu_io_t.Iot.Event.Blocks.{
  Port, values, count_block, level_block, Words, Shows, counts-count_block, levels-level_block,
}

-- Within `patience` tries after any call, one ends the transaction.
abbrev pub Ends : (ℕ → ℕ) → ℕ → Type 0
Ends exec patience =
    (calls : ℕ) → (k : ℕ) × (k < patience) × (transaction insert_end (exec (calls + k)) ≡ true)

-- The row is written exactly where the transaction begins.
abbrev pub written : (ℕ → ℕ) → Device → List ℕ → List Effect
written exec d cnt =
    if transaction insert_begin (exec d.calls) then d.effects ++ (update cnt ∷ []) else d.effects

module _ (exec : ℕ → ℕ) where
  commit-Returns :
      (left calls k : ℕ)
      → k < left
      → transaction insert_end (exec (calls + k)) ≡ true
      → Returns (commit exec left calls) (λ _. Unit {0})
  unfolding commit
  commit-Returns zero calls k h e = absurd (omega arith)
  commit-Returns (suc left) calls zero h e =
      let same : calls + 0 ≡ calls = omega arith in
      let now : transaction insert_end (exec calls) ≡ true = rw same at e in
      (suc calls, rw (commit, now), tt)
  commit-Returns (suc left) calls (suc k) h e =
      elim (Bool-cases (transaction insert_end (exec calls))) [
        | inl done ↦ (suc calls, rw (commit, done), tt)
        | inr again ↦
            let same : calls + suc k ≡ suc calls + k = omega arith in
            let (c, r, u) = commit-Returns left (suc calls) k (omega arith) (rw same at e) in
            (c, rw (commit, again) r, tt)
      ]

module _ (exec : ℕ → ℕ) (patience : ℕ) (ends : Ends exec patience) where
  pub store-Returns :
      (d : Device)
      → Returns
          (store exec patience d)
          (λ d'. (d'.node ≡ d.node) × (d'.io ≡ d.io) × (d'.effects ≡ written exec d d.node))
  unfolding store
  store-Returns d = elim (Bool-cases (transaction insert_begin (exec d.calls))) [
    | inl begun ↦
        let (k, h, e) = ends (suc (suc d.calls)) in
        let (calls, c, _) = commit-Returns exec patience (suc (suc d.calls)) k h e in
        (
          record d { effects = d.effects ++ (update d.node ∷ []); calls = calls },
          rw (begun, c),
          (refl, refl, rw begun),
        )
    | inr failed ↦ (record d { calls = suc d.calls }, rw failed, (refl, refl, rw failed))
  ]

  -- The `default` case on counters and inputs that the buffer shows.
  pub report-Returns :
      (cs ls : List Port) (buffer : List ℕ) (d : Device)
      → length cs ≡ 8
      → length ls ≡ 8
      → Words cs
      → Shows buffer 4 (count_block cs)
      → Shows buffer 52 (level_block ls)
      → Returns (report exec patience buffer d) (λ d'.
        (d'.node ≡ values cs)
        × (d'.past ≡ values cs)
        × (d'.io ≡ values ls)
        × (d'.effects
            ≡ (if changed d.past (values cs) then written exec d (values cs) else d.effects)))
  unfolding report
  report-Returns cs ls buffer d hc hl w shows_c shows_l =
      let read_c : counts 8 buffer 4 ≡ ok (values cs) =
        rw (← hc) (counts-count_block cs buffer 4 w shows_c) in
      let read_l : levels 8 buffer 52 ≡ ok (values ls) =
        rw (← hl) (levels-level_block ls buffer 52 shows_l) in
      let seen = record d { node = values cs; io = values ls } in
      rw (read_c, read_l)
        (elim (Bool-cases (changed d.past (values cs))) [
          | inl differs ↦
              let (d', e, (n, i, f)) = store-Returns seen in
              (record d' { past = values cs }, rw (differs, e), (n, refl, i, rw differs f))
          | inr same ↦ (record seen { past = values cs }, rw same, (refl, refl, refl, rw same))
        ])
