-- ===== src/Config/Tests.antt =====
-- The configuration files of src/SetupManager.c: its theorems on concrete settings, and a function
-- that reads addresses as `inet_addr` does.
use i_dcu_io_t.Common.{
  ℕ, ◌+◌, ◌*◌, ◌-◌, ◌^◌, ◌<◌, ◌≡◌, refl, arith, false, List, [], ◌∷◌, ◌++◌, ◌==◌, ok, ◌>>=◌,
  replicate, drop, byte0, byte1, byte2, byte3, print_long, print_long_lem, atoi, atoi-print_long,
  tokens, tokens_token, tokens_last,
}
use i_dcu_io_t.Config.{
  codes, LanVar, inet_ntoa, network_entry, write_network_config, read_network_config,
}
use i_dcu_io_t.Config.Lines.{read_end}
use i_dcu_io_t.Config.Network.{
  ReadsAddresses, IsLan, swapped, read_network_config-write_network_config,
}
use i_dcu_io_t.Config.Env.{read_transducer}
use i_dcu_io_t.Config.Env.Transducers.{Numbered, file_of, ids_of, read_transducer_lem}
use i_dcu_io_t.Config.Security.{read_security_config, write_security_config}
use i_dcu_io_t.Config.Security.Texts.{Network, IsNetwork, structure}
use i_dcu_io_t.Config.Security.Comes.{Before, bytes_before, over, security_comes_back}

-- Four numbers with dots between them.
quad : List (List ℕ) → ℕ
quad (a ∷ b ∷ c ∷ d ∷ []) = atoi a + atoi b * 2 ^ 8 + atoi c * 2 ^ 16 + atoi d * 2 ^ 24
quad _ = 2 ^ 32 - 1

pub parse_address : List ℕ → ℕ
parse_address s = quad (tokens (λ c. c == 46) s)

digit_dot : (d : ℕ) → d < 10 → (48 + d == 46) ≡ false
digit_dot d h = ground arith

pub parse_address-ReadsAddresses : ReadsAddresses parse_address
unfolding parse_address quad inet_ntoa
parse_address-ReadsAddresses s h =
    let dot = λ (c : ℕ). c == 46 in
    let (n0, l0, _) = print_long_lem dot digit_dot refl (byte0 s) in
    let (n1, l1, _) = print_long_lem dot digit_dot refl (byte1 s) in
    let (n2, l2, _) = print_long_lem dot digit_dot refl (byte2 s) in
    let (n3, l3, _) = print_long_lem dot digit_dot refl (byte3 s) in
    let last = print_long (byte3 s) in
    let end = print_long (byte2 s) ++ (46 ∷ last) in
    let rest = print_long (byte1 s) ++ (46 ∷ end) in
    rw
      (
        tokens_token dot (print_long (byte0 s)) rest 46 n0 l0 refl,
        tokens_token dot (print_long (byte1 s)) end 46 n1 l1 refl,
        tokens_token dot (print_long (byte2 s)) last 46 n2 l2 refl,
        tokens_last dot last n3 l3,
        atoi-print_long (byte0 s) (omega arith),
        atoi-print_long (byte1 s) (omega arith),
        atoi-print_long (byte2 s) (omega arith),
        atoi-print_long (byte3 s) (omega arith),
      )
      (omega arith)

pub read_network_config-nil :
    (inet_addr : List ℕ → ℕ) (lan : LanVar) → read_network_config inet_addr [] lan ≡ ok lan
unfolding read_network_config
read_network_config-nil inet_addr lan = read_end (network_entry inet_addr) lan

abbrev pub office : LanVar
office = record {
  lan_addr = 0xc0a8010a;
  lan_netmask = 0xffffff00;
  lan_gateway = 0xc0a80101;
  lan_dns = 0x08080808;
}

pub office-IsLan : IsLan office
office-IsLan = record {
  addr = omega arith;
  netmask = omega arith;
  gateway = omega arith;
  dns = omega arith;
}

abbrev pub no_lan : LanVar
no_lan = record { lan_addr = 0; lan_netmask = 0; lan_gateway = 0; lan_dns = 0 }

read_network_config-write_network_config_example :
    (read_network_config parse_address (write_network_config office) no_lan ≡ ok (swapped office))
    × ((read_network_config parse_address (write_network_config office) no_lan >>= λ read.
          read_network_config parse_address (write_network_config read) no_lan)
        ≡ ok office)
read_network_config-write_network_config_example =
    read_network_config-write_network_config parse_address parse_address-ReadsAddresses office
      no_lan office-IsLan

abbrev wireless : Network
wireless = record {
  ssid = codes "office";
  ssid_end = 32;
  ssid_pad = replicate 25 32;
  auth = 0;
  grp = 1;
  flag = 0;
  keys = replicate 72 0;
  secret = codes "letmein8";
  secret_end = 0;
  secret_pad = replicate 23 0;
}

wireless-IsNetwork : IsNetwork wireless
wireless-IsNetwork = record {
  ssid = ground arith;
  ssid_end = refl;
  ssid_size = refl;
  keys = refl;
  secret = ground arith;
  secret_end = refl;
  secret_size = refl;
}

abbrev empty : Before
empty = record {
  ssid = replicate 32 0;
  mgmt = 0;
  auth = 0;
  grp = 0;
  flag = 0;
  keys = replicate 104 0;
}

security_comes_back_example :
    (write_security_config (structure wireless) >>= λ w.
    read_security_config w.0 (bytes_before empty))
    ≡ ok (over wireless.ssid empty.ssid ++ (1 ∷ 0 ∷ empty.grp ∷ empty.flag ∷ empty.keys))
security_comes_back_example = security_comes_back wireless empty wireless-IsNetwork refl refl refl

abbrev two_ids : List Numbered
two_ids = record { name = codes "light"; id = 51 } ∷ record { name = codes "count"; id = 52 } ∷ []

read_transducer_lem_example :
    read_transducer (file_of two_ids) (replicate 4 9)
    ≡ ok (record { cells = ids_of two_ids ++ drop 2 (replicate 4 9); count = 2 })
read_transducer_lem_example =
    read_transducer_lem two_ids (replicate 4 9)
      (
        record { name = ground arith; plain = refl; short = omega arith; id = omega arith },
        (record { name = ground arith; plain = refl; short = omega arith; id = omega arith }, tt),
      )
      (omega arith)
