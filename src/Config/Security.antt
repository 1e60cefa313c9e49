-- ===== src/Config/Security.antt =====
-- src/SetupManager.c: the files of `struct security_var`, whose 140 bytes are an array: the texts
-- and the keys lie behind one another in it, and `strtok` and `strcpy` may run from one into the
-- next.
pub mod Texts
pub mod Comes
use i_dcu_io_t.Common.{
  ℕ, zero, suc, ◌+◌, ◌-◌, ◌*◌, ◌%◌, ◌^◌, Bool, true, false, ◌||◌, List, [], ◌∷◌, ◌++◌, ◌==◌,
  if◌then◌else◌, Run, ok, fault, ◌>>=◌, read, set, drop, memcpy, length, atoi,
}
use i_dcu_io_t.Config.{codes, entry_line, same, first, read_file}

-- `check_group`.
pub check_group : List ℕ → ℕ
check_group value =
    if same (codes "CCMP") value
    then 1
    else if same (codes "TKIP") value
    then 2
    else if same (codes "WEP104") value
    then 3
    else if same (codes "WEP40") value
    then 4
    else 0

-- `check_auth_alg`.
pub check_auth_alg : List ℕ → ℕ
check_auth_alg value =
    if same (codes "OPEN") value
    then 0
    else if same (codes "SHARED") value
    then 1
    else if same (codes "LEAP") value
    then 2
    else 0

-- `check_key_mgmt`.
pub check_key_mgmt : List ℕ → ℕ
check_key_mgmt value =
    if same (codes "WPA-PSK") value
    then 1
    else if same (codes "WPA-EAP") value
    then 2
    else if same (codes "IEEE8021X") value
    then 3
    else if same (codes "NONE") value
    then 0
    else 0

-- Where the members begin; the keys have 5 and 13 bytes.
abbrev pub key_mgmt : ℕ
key_mgmt = 32

abbrev pub auth_alg : ℕ
auth_alg = 33

abbrev pub group : ℕ
group = 34

abbrev pub key_flag : ℕ
key_flag = 35

abbrev pub wep40 : ℕ
wep40 = 36

abbrev pub wep104 : ℕ
wep104 = 56

abbrev pub psk : ℕ
psk = 108

abbrev pub security_size : ℕ
security_size = 140

-- `strcpy` to a place of the structure.
pub strcpy : List ℕ → ℕ → List ℕ → Run (List ℕ)
strcpy security to text = memcpy security to (text ++ (0 ∷ [])) 0 (length text + 1)

-- Any other word: a key for the group of the structure, if it has one.
pub key_entry : List (List ℕ) → List ℕ → Run (List ℕ)
key_entry [] security = ok security
key_entry (token ∷ _) security = do
  g ← read security group
  k ← read security key_flag
  if g == 3
      then strcpy security (wep104 + 13 * k) token
      else if g == 4
      then strcpy security (wep40 + 5 * k) token
      else ok security

pub security_entry : List ℕ → List (List ℕ) → List ℕ → Run (List ℕ)
security_entry key values security =
    if same key (codes "ssid")
    then (do v ← first values; strcpy security 0 v)
    else if same key (codes "key_mgmt")
    then (do v ← first values; ok (set security key_mgmt (check_key_mgmt v)))
    else if same key (codes "auth_alg")
    then (do v ← first values; ok (set security auth_alg (check_auth_alg v)))
    else if same key (codes "wep_tx_keyidx")
    then (do v ← first values; ok (set security key_flag (atoi v % 2 ^ 8)))
    else if same key (codes "group")
    then (do v ← first values; ok (set security group (check_group v)))
    else key_entry values security

-- `ReadSecurityConfig`.
pub read_security_config : List ℕ → List ℕ → Run (List ℕ)
read_security_config = read_file security_entry

-- The spaces at the front of a text.
pub spaces : List ℕ → ℕ
spaces [] = 0
spaces (c ∷ cs) = let more = suc (spaces cs) in if c == 32 then more else 0

-- The bytes up to a space or the end of the text; there is no end in the structure, `fault`.
pub word_from : List ℕ → Run (List ℕ)
word_from [] = fault
word_from (c ∷ cs) =
    let more = word_from cs >>= λ w. ok (c ∷ w) in if c == 32 || c == 0 then ok [] else more

abbrev is_empty : List ℕ → Bool
is_empty [] = true
is_empty (c ∷ cs) = false

-- `strtok( security + at, " " )`: the word, and the structure with a zero behind it. Where there
-- is none, `fprintf` is given a null pointer.
pub strtok_at : List ℕ → ℕ → Run (List ℕ × List ℕ)
strtok_at security at = do
  let n = spaces (drop at security)
  w ← word_from (drop (at + n) security)
  if is_empty w then fault else ok (w, set security (at + n + length w) 0)

-- The line of `key_mgmt`, with the separator of the file.
pub mgmt_line : ℕ → ℕ → List ℕ
mgmt_line sep mgmt =
    if mgmt == 0 || mgmt == 1
    then codes "key_mgmt" ++ (sep ∷ (codes "NONE" ++ (10 ∷ [])))
    else if mgmt == 2
    then codes "key_mgmt" ++ (sep ∷ (codes "WPA-PSK" ++ (10 ∷ [])))
    else []

-- The lines of the keys, where `put` writes a word and its value: `key` a secret.
pub key_lines :
    (List ℕ → List ℕ → List ℕ) → (List ℕ → List ℕ → List ℕ) → List ℕ → Run (List ℕ × List ℕ)
key_lines put secret security = do
  mgmt ← read security key_mgmt
  g ← read security group
  if mgmt == 1
      then (if g == 3
          then (do
            r ← strtok_at security wep104
            ok (put (codes "group") (codes "WEP104") ++ secret (codes "wep_key0") r.0, r.1))
          else if g == 4
          then (do
            r ← strtok_at security wep40
            ok (put (codes "group") (codes "WEP40") ++ secret (codes "wep_key0") r.0, r.1))
          else ok ([], security))
      else if mgmt == 2
      then (do r ← strtok_at security psk; ok (secret (codes "psk") r.0, r.1))
      else ok ([], security)

-- `WriteSecurityConfig`: the text, and the structure as `strtok` leaves it.
pub write_security_config : List ℕ → Run (List ℕ × List ℕ)
write_security_config security = do
  r ← strtok_at security 0
  mgmt ← read r.1 key_mgmt
  k ← key_lines entry_line entry_line r.1
  ok (
    entry_line (codes "ssid") r.0
        ++ (mgmt_line 32 mgmt ++ (entry_line (codes "auth_alg") (codes "OPEN") ++ k.0)),
    k.1,
  )

-- A line of the file for `wpa_supplicant`, and one with the value in quotes.
pub script_line : List ℕ → List ℕ → List ℕ
script_line key v = key ++ (61 ∷ (v ++ (10 ∷ [])))

pub quoted_line : List ℕ → List ℕ → List ℕ
quoted_line key v = key ++ (61 ∷ 34 ∷ (v ++ (34 ∷ 10 ∷ [])))

-- `WriteSecurityScript`.
pub write_security_script : List ℕ → Run (List ℕ × List ℕ)
write_security_script security = do
  r ← strtok_at security 0
  mgmt ← read r.1 key_mgmt
  k ← key_lines script_line quoted_line r.1
  ok (
    codes "network={"
        ++ (10
            ∷ (quoted_line (codes "ssid") r.0
                ++ (mgmt_line 61 mgmt
                    ++ (script_line (codes "auth_alg") (codes "OPEN") ++ (k.0 ++ codes "}"))))),
    k.1,
  )
