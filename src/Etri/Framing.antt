-- ===== src/Etri/Framing.antt =====
-- The packets to the middleware: the second number is the size of what follows it.
use i_dcu_io_t.Common.{
  ℕ, zero, suc, ◌+◌, ◌*◌, ◌%◌, ◌≤◌, ◌≡◌, refl, arith, List, [], ◌∷◌, ◌++◌, All, le→leb, Returns,
  Returns-bind, length, take, length-append, length-take, atoi, replicate,
}
use i_dcu_io_t.Etri.{
  Info, Row, System, gate_node, pan_node, sensor_node, data_unit, report, transducer, transducers,
}

-- The number in the third and fourth byte, the lower byte first.
abbrev pub size_field : List ℕ → ℕ
size_field (a ∷ (b ∷ (lo ∷ (hi ∷ rest)))) = lo + 256 * hi
size_field _ = 0

abbrev pub IsFramed : List ℕ → Type 0
IsFramed p = length p ≡ size_field p + 4

-- The texts of the gateway have 20 bytes.
pub record IsInfo (i : Info) : Type 0 where
  pub manufacturer : length i.manufacturer ≡ 20
  pub producno : length i.producno ≡ 20

-- The unit of a row fits its field, and is as long as the row says.
abbrev pub IsRow : Row → Type 0
IsRow r = (atoi r.unit_length % 256 ≤ 32) × (atoi r.unit_length % 256 ≤ length r.unit + 1)

pub gate_node-IsFramed : {i : Info} → IsInfo i → IsFramed (gate_node i)
unfolding gate_node
gate_node-IsFramed {i} v = omega (
  arith,
  length-append i.manufacturer (i.producno ++ replicate 12 0),
  length-append i.producno (replicate 12 0),
  v.manufacturer,
  v.producno,
)

pub pan_node-IsFramed : {i : Info} → IsInfo i → IsFramed (pan_node i)
unfolding pan_node
pan_node-IsFramed {i} v = omega (
  arith,
  length-append i.manufacturer (i.producno ++ (0x09 ∷ 0x09 ∷ [])),
  length-append i.producno (0x09 ∷ 0x09 ∷ []),
  v.manufacturer,
  v.producno,
)

pub sensor_node-IsFramed : {i : Info} → IsInfo i → IsFramed (sensor_node i)
unfolding sensor_node
sensor_node-IsFramed {i} v = omega (
  arith,
  length-append i.manufacturer (i.producno ++ replicate 12 0),
  length-append i.producno (replicate 12 0),
  v.manufacturer,
  v.producno,
)

pub report-IsFramed :
    (i : Info) (now : ℕ) (bytes : List ℕ) → length bytes ≤ 1024 → IsFramed (report i now bytes)
unfolding report
report-IsFramed i now bytes small = omega arith

module _ (w : System) (floats : (n : ℕ) → length (w.float_bytes n) ≡ 4) where
  pub transducer-IsFramed :
      {i : Info} (r : Row) → IsInfo i → IsRow r → Returns (transducer w i r) IsFramed
  unfolding transducer data_unit
  transducer-IsFramed {i} r v fit =
      let n = atoi r.unit_length % 256 in
      let unit = take n (r.unit ++ (0 ∷ [])) in
      let t5 = (atoi r.kind % 256) ∷ (atoi r.data_type % 256) ∷ n ∷ unit in
      let t4 = w.float_bytes (atoi r.level) ++ t5 in
      let t3 = w.float_bytes (atoi r.offset) ++ t4 in
      let t2 = w.float_bytes (atoi r.max) ++ t3 in
      let t1 = w.float_bytes (atoi r.min) ++ t2 in
      rw (le→leb n 32 fit.0, le→leb n (length r.unit + 1) fit.1)
        (
          _,
          refl,
          omega (
            arith,
            length-take n (r.unit ++ (0 ∷ [])) (omega (arith, length-append r.unit (0 ∷ []))),
            length-append (w.float_bytes (atoi r.level)) t5,
            length-append (w.float_bytes (atoi r.offset)) t4,
            length-append (w.float_bytes (atoi r.max)) t3,
            length-append (w.float_bytes (atoi r.min)) t2,
            length-append i.producno t1,
            length-append i.manufacturer (i.producno ++ t1),
            floats (atoi r.min),
            floats (atoi r.max),
            floats (atoi r.offset),
            floats (atoi r.level),
            v.manufacturer,
            v.producno,
          ),
        )

  pub transducers-IsFramed :
      {i : Info} (count : ℕ) (rows : List Row)
      → IsInfo i
      → All IsRow rows
      → count ≤ length rows
      → Returns (transducers w i count rows) (All IsFramed)
  unfolding transducers
  transducers-IsFramed zero rows v fit few = ([], refl, tt)
  transducers-IsFramed (suc count) [] v fit few = absurd (omega arith)
  transducers-IsFramed (suc count) (r ∷ rows) v fit few =
      Returns-bind _ _ _ _ (transducer-IsFramed r v fit.0) λ p framed.
        Returns-bind _ _ _ _ (transducers-IsFramed count rows v fit.1 (omega arith))
          λ ps all. (p ∷ ps, refl, (framed, all))
