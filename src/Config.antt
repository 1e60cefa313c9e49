-- ===== src/Config.antt =====
-- The configuration files: src/lib/configRW.c and the readers and writers of src/SetupManager.c.
-- A file is its text. A word that is missing where the code uses it is a null pointer, a `fault`.
pub mod Lines
pub mod Network
pub mod Security
pub mod Env
pub mod Tests
use Prim.Native.Char.{code}
use Prim.Native.String.{String}
use i_dcu_io_t.Common.{
  ℕ, suc, ◌+◌, ◌-◌, ◌*◌, ◌%◌, ◌/◌, ◌^◌, Bool, true, false, ◌||◌, ◌&&◌, List, [], ◌∷◌, ◌++◌, ◌==◌,
  if◌then◌else◌, Run, ok, fault, ◌>>=◌, read, set, drop, memcpy, length, byte0, byte1, byte2, byte3,
  print_long, atoi, c_string, tokens,
}

-- The bytes of a text.
abbrev pub codes : String → List ℕ
codes String.[] = []
codes (String.◌∷◌ c s) = code c ∷ codes s

-- `fgets( line, 1024, fp )` until the end of the file: a line ends with its newline, or with 1023
-- bytes; `room` is what is left of these.
pub fgets_lines : ℕ → List ℕ → List ℕ → List (List ℕ)
fgets_lines room [] [] = []
fgets_lines room (b ∷ line) [] = (b ∷ line) ∷ []
fgets_lines room line (c ∷ cs) =
    let full = line ++ (c ∷ []) in
    let ended = full ∷ fgets_lines 1023 [] cs in
    let more = fgets_lines (room - 1) full cs in if c == 10 || room == 1 then ended else more

-- The delimiters of `strtok( line, "\t =\n\r" )`.
abbrev pub is_delim : ℕ → Bool
is_delim c = c == 9 || c == 32 || c == 61 || c == 10 || c == 13

pub words : List ℕ → List (List ℕ)
words line = tokens is_delim (c_string line)

-- `!strcmp( a, b )`.
pub same : List ℕ → List ℕ → Bool
same [] [] = true
same [] (b ∷ y) = false
same (a ∷ x) [] = false
same (a ∷ x) (b ∷ y) = let rest = same x y in if a == b then rest else false

-- `token[0] != '#'`.
abbrev pub is_comment : List ℕ → Bool
is_comment [] = false
is_comment (c ∷ cs) = c == b'#'

-- The second word of a line.
abbrev pub first : List (List ℕ) → Run (List ℕ)
first [] = fault
first (v ∷ _) = ok v

module _ {S : Type 0} (step : List ℕ → List (List ℕ) → S → Run S) where
  abbrev pub on_words : List (List ℕ) → S → Run S
  on_words [] s = ok s
  on_words (key ∷ values) s = if is_comment key then ok s else step key values s

  -- `while( fgets( … ) != NULL )`.
  pub for_lines : List (List ℕ) → S → Run S
  for_lines [] s = ok s
  for_lines (line ∷ lines) s = on_words (words line) s >>= for_lines lines

  pub read_file : List ℕ → S → Run S
  read_file text s = for_lines (fgets_lines 1023 [] text) s

-- A line of a word and a value.
abbrev pub entry_line : List ℕ → List ℕ → List ℕ
entry_line key v = key ++ (32 ∷ (v ++ (10 ∷ [])))

-- `struct lan_var`.
pub record LanVar : Type 0 where
  pub lan_addr : ℕ
  pub lan_netmask : ℕ
  pub lan_gateway : ℕ
  pub lan_dns : ℕ

-- `lanEnable` and `wlanEnable`.
pub record Enabled : Type 0 where
  pub lan : ℕ
  pub wlan : ℕ

pub htonl : ℕ → ℕ
htonl v = byte0 v * 2 ^ 24 + byte1 v * 2 ^ 16 + byte2 v * 2 ^ 8 + byte3 v

-- The bytes of an address in the order of the memory.
pub inet_ntoa : ℕ → List ℕ
inet_ntoa s =
    print_long (byte0 s)
    ++ (46 ∷ (print_long (byte1 s) ++ (46 ∷ (print_long (byte2 s) ++ (46 ∷ print_long (byte3 s))))))

-- `WriteNetworkConfig`.
pub write_network_config : LanVar → List ℕ
write_network_config lan =
    entry_line (codes "address") (inet_ntoa (htonl lan.lan_addr))
    ++ (entry_line (codes "netmask") (inet_ntoa (htonl lan.lan_netmask))
        ++ (entry_line (codes "gateway") (inet_ntoa (htonl lan.lan_gateway))
            ++ entry_line (codes "dns") (inet_ntoa (htonl lan.lan_dns))))

module _ (inet_addr : List ℕ → ℕ) where
  network_entry : List ℕ → List (List ℕ) → LanVar → Run LanVar
  network_entry key values lan =
      if same key (codes "address")
      then (do v ← first values; ok (record lan { lan_addr = inet_addr v }))
      else if same key (codes "netmask")
      then (do v ← first values; ok (record lan { lan_netmask = inet_addr v }))
      else if same key (codes "gateway")
      then (do v ← first values; ok (record lan { lan_gateway = inet_addr v }))
      else if same key (codes "dns")
      then (do v ← first values; ok (record lan { lan_dns = inet_addr v }))
      else ok lan

  -- `ReadNetworkConfig`.
  pub read_network_config : List ℕ → LanVar → Run LanVar
  read_network_config = read_file network_entry

-- `WriteNetworkUseConfig`.
pub write_network_use_config : Enabled → List ℕ
write_network_use_config e =
    entry_line (codes "lan") (print_long e.lan) ++ entry_line (codes "wlan") (print_long e.wlan)

use_entry : List ℕ → List (List ℕ) → Enabled → Run Enabled
use_entry key values e =
    if same key (codes "lan")
    then (do v ← first values; ok (record e { lan = atoi v % 2 ^ 8 }))
    else if same key (codes "wlan")
    then (do v ← first values; ok (record e { wlan = atoi v % 2 ^ 8 }))
    else ok e

-- `ReadNetworkUseConfig`.
pub read_network_use_config : List ℕ → Enabled → Run Enabled
read_network_use_config = read_file use_entry
