-- ===== src/Etri/Tests.antt =====
-- src/tagServer.c: its theorems on a concrete link.
use i_dcu_io_t.Common.{
  ℕ, ◌+◌, ◌%◌, ◌≤◌, sym, two, atoi-two, ◌≡◌, refl, arith, true, some, List, [], ◌∷◌, Returns,
  replicate, ltb,
}
use i_dcu_io_t.Plcs
use i_dcu_io_t.Etri.{Info, Row, Table, System, Server, init, serve_all}
use i_dcu_io_t.Etri.Framing.{IsInfo, IsRow}
use i_dcu_io_t.Etri.Session.{IsTable, Framed, init-Returns, serve_all-Framed}

abbrev gateway : Info
gateway = record {
  manufacturer = replicate 20 b'm';
  producno = replicate 20 b'p';
  gatenode = 1;
  pan = 2;
  sensornode = 300;
}

gateway-IsInfo : IsInfo gateway
gateway-IsInfo = record { manufacturer = refl; producno = refl }

abbrev digit : List ℕ
digit = b'1' ∷ []

abbrev row : Row
row = record {
  id = digit;
  min = digit;
  max = digit;
  offset = digit;
  level = digit;
  kind = digit;
  data_type = digit;
  unit_length = two 1;
  unit = digit;
}

abbrev table : Table
table = record { opens = true; count = 1; rows = some (row ∷ []); unset = true }

-- A link on which every third send is lost.
abbrev rough : System
rough = record {
  connects = λ k. true;
  takes = λ k. ltb 0 (k % 3);
  answers = λ k. true;
  table = λ k. table;
  float_bytes = λ n. replicate 4 0;
}

-- A link that takes all.
abbrev smooth : System
smooth = record rough { takes = λ k. true }

abbrev fresh : Server
fresh = record { connected = true; connects = 1; registrations = 1; sends = 0; sent = [] }

row-IsRow : IsRow row
row-IsRow = rw (atoi-two 1 (omega arith)) (omega arith, omega arith)

table-IsTable : IsTable table
table-IsTable = record {
  rows = λ rs e. let same : row ∷ [] ≡ rs = cc in rw (sym same) ((row-IsRow, tt), omega arith);
  few = omega arith;
}

init-Returns_example :
    Returns
      (init rough gateway fresh)
      (λ r. Framed r.1 × (r.1.connected ≡ r.0) × (r.1.registrations ≤ 1 + 3))
init-Returns_example =
    init-Returns rough (λ n. refl) (λ k. table-IsTable) gateway gateway-IsInfo fresh tt

serve_all-Framed_example :
    Returns (serve_all rough gateway ((1, 5, digit) ∷ (1, 6, digit) ∷ []) fresh) Framed
serve_all-Framed_example =
    serve_all-Framed rough (λ n. refl) (λ k. table-IsTable) gateway gateway-IsInfo
      ((1, 5, digit) ∷ (1, 6, digit) ∷ []) fresh (omega arith, (omega arith, tt)) tt
