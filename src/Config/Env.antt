-- ===== src/Config/Env.antt =====
-- src/lib/configRW.c: `ReadTransducer`, `ReadDeviceInfo` and `ReadEnvConfig`.
pub mod Transducers
use i_dcu_io_t.Common.{
  ℕ, suc, ◌+◌, ◌%◌, ◌^◌, Bool, true, false, List, [], ◌∷◌, ◌++◌, if◌then◌else◌, Run, ok, ◌>>=◌,
  memcpy, length, atoi,
}
use i_dcu_io_t.Config.{codes, same, first, read_file}

-- The array `transducerId` and how many of its cells are filled.
pub record Ids : Type 0 where
  pub cells : List ℕ
  pub count : ℕ

-- Any word, and the number behind it.
pub transducer_entry : List ℕ → List (List ℕ) → Ids → Run Ids
transducer_entry key values s = do
  v ← first values
  cells ← memcpy s.cells s.count (atoi v % 2 ^ 16 ∷ []) 0 1
  ok (record { cells = cells; count = s.count + 1 })

-- `ReadTransducer`.
pub read_transducer : List ℕ → List ℕ → Run Ids
read_transducer text cells = read_file transducer_entry text (record { cells = cells; count = 0 })

-- `ReadDeviceInfo`: whether the word is there. The value is put into the parameter itself, so the
-- caller does not see it.
pub device_entry : List ℕ → List ℕ → List (List ℕ) → Bool → Run Bool
device_entry type key values found =
    if same key type then (do v ← first values; ok true) else ok found

pub read_device_info : List ℕ → List ℕ → Run Bool
read_device_info type text = read_file (device_entry type) text false

-- `READENV`.
pub record ReadEnv : Type 0 where
  pub middleware_ip : ℕ
  pub middleware_port : ℕ
  pub manufacturer : List ℕ
  pub producno : List ℕ
  pub registration : ℕ
  pub gatenode : ℕ
  pub pan : ℕ
  pub sensornode : ℕ
  pub timeout : ℕ

-- `sprintf( …, "%s", token )`.
pub sprintf_s : List ℕ → List ℕ → Run (List ℕ)
sprintf_s buffer token = memcpy buffer 0 (token ++ (0 ∷ [])) 0 (length token + 1)

module _ (inet_addr : List ℕ → ℕ) where
  pub env_entry : List ℕ → List (List ℕ) → ReadEnv → Run ReadEnv
  env_entry key values env =
      if same key (codes "middleware_ip")
      then (do v ← first values; ok (record env { middleware_ip = inet_addr v }))
      else if same key (codes "middleware_port")
      then (do v ← first values; ok (record env { middleware_port = atoi v % 2 ^ 16 }))
      else if same key (codes "manufacturer")
      then (do
        v ← first values
        text ← sprintf_s env.manufacturer v
        ok (record env { manufacturer = text }))
      else if same key (codes "producno")
      then (do
        v ← first values
        text ← sprintf_s env.producno v
        ok (record env { producno = text }))
      else if same key (codes "registration")
      then (do v ← first values; ok (record env { registration = atoi v % 2 ^ 8 }))
      else if same key (codes "gatenode")
      then (do v ← first values; ok (record env { gatenode = atoi v % 2 ^ 16 }))
      else if same key (codes "pan")
      then (do v ← first values; ok (record env { pan = atoi v % 2 ^ 16 }))
      else if same key (codes "sensornode")
      then (do v ← first values; ok (record env { sensornode = atoi v % 2 ^ 16 }))
      else if same key (codes "timeout")
      then (do v ← first values; ok (record env { timeout = atoi v }))
      else ok env

  -- `ReadEnvConfig`.
  pub read_env_config : List ℕ → ReadEnv → Run ReadEnv
  read_env_config = read_file env_entry
