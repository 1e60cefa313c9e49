-- ===== src/Common/Scan.antt =====
-- `for (i = 0; i < len; i++) body`, where the body may move `i` forward or back itself.
use Prim.Native.Nat.{ℕ, zero, suc, ◌+◌, ◌-◌, ◌≤◌, ◌<◌}
use mathlib.Core.Path.{◌≡◌, refl, ◌∙◌}
use mathlib.Core.Bool.{true, false}
use mathlib.Core.Logic.{inl, inr}
use native.Mathlib.Omega.{arith}
use i_dcu_io_t.Common.Outcome.{Run, ok, no_fuel, ◌>>=◌}
use i_dcu_io_t.Common.Tests.{ltb, Bool-cases, ltb→lt, ltb→le, lt→ltb, le→ltb}

module _ {ℓ} {S : Type ℓ} (len : ℕ) (body : ℕ → S → Run (ℕ × S)) where
  -- The loop from index `i` in state `s`, with at most `fuel` rounds.
  pub scan : ℕ → ℕ → S → Run S
  scan zero i s = no_fuel
  scan (suc fuel) i s = elim (ltb i len) [
    | true ↦ body i s >>= λ r. scan fuel (r.0 + 1) r.1
    | false ↦ ok s
  ]

  pub scan_step :
      (fuel i : ℕ) (s : S) (i' : ℕ) (s' : S)
      → i < len
      → body i s ≡ ok (i', s')
      → scan (suc fuel) i s ≡ scan fuel (i' + 1) s'
  unfolding scan
  scan_step fuel i s i' s' h e = rw (scan, lt→ltb i len h, e)

  pub scan_stop : (fuel i : ℕ) (s : S) → len ≤ i → scan (suc fuel) i s ≡ ok s
  unfolding scan
  scan_stop fuel i s h = rw (scan, le→ltb i len h)

  -- A body that never moves `i` back and keeps an invariant of index and state ends the loop,
  -- and the invariant holds at the end.
  pub scan-inv {κ} :
      (P : ℕ → S → Type κ)
      → ((i : ℕ) (s : S)
          → P i s
          → i < len
          → (i' : ℕ) × (s' : S) × (body i s ≡ ok (i', s')) × (i ≤ i') × P (i' + 1) s')
      → (fuel i : ℕ) (s : S) → len - i < fuel
      → P i s
      → (j : ℕ) × (s' : S) × (scan fuel i s ≡ ok s') × (len ≤ j) × P j s'
  scan-inv P keep zero i s f p = absurd (omega arith)
  scan-inv P keep (suc fuel) i s f p = elim (Bool-cases (ltb i len)) [
    | inl more ↦
        let within : i < len = ltb→lt i len more in
        let (i', s', e, le, q) = keep i s p within in
        let (j, t, r, past, out) = scan-inv P keep fuel (i' + 1) s' (omega arith) q in
        (j, t, scan_step fuel i s i' s' within e ∙ r, past, out)
    | inr stop ↦ (i, s, scan_stop fuel i s (ltb→le i len stop), ltb→le i len stop, p)
  ]

  -- A body that does nothing leaves the state alone.
  pub scan_idle :
      (s : S)
      → ((i : ℕ) → i < len → body i s ≡ ok (i, s))
      → (fuel i : ℕ) → len - i < fuel
      → scan fuel i s ≡ ok s
  scan_idle s idle zero i f = absurd (omega arith)
  scan_idle s idle (suc fuel) i f = elim (Bool-cases (ltb i len)) [
    | inl more ↦
        let within : i < len = ltb→lt i len more in
        scan_step fuel i s i s within (idle i within) ∙ scan_idle s idle fuel (i + 1) (omega arith)
    | inr stop ↦ scan_stop fuel i s (ltb→le i len stop)
  ]

  pub scan_none : (i : ℕ) (s : S) → scan 0 i s ≡ no_fuel
  unfolding scan
  scan_none i s = refl

  -- The same from an index on.
  pub scan_idle_from :
      (start : ℕ) (s : S)
      → ((i : ℕ) → start ≤ i → i < len → body i s ≡ ok (i, s))
      → (fuel i : ℕ) → start ≤ i
      → len - i < fuel
      → scan fuel i s ≡ ok s
  scan_idle_from start s idle zero i from f = absurd (omega arith)
  scan_idle_from start s idle (suc fuel) i from f = elim (Bool-cases (ltb i len)) [
    | inl more ↦
        let within : i < len = ltb→lt i len more in
        scan_step fuel i s i s within (idle i from within)
        ∙ scan_idle_from start s idle fuel (i + 1) (omega arith) (omega arith)
    | inr stop ↦ scan_stop fuel i s (ltb→le i len stop)
  ]
