-- ===== src/Setup/Tests.antt =====
-- src/SetupManager.c: its theorems on concrete settings.
use i_dcu_io_t.Common.{
  ℕ, ◌≡◌, refl, arith, List, [], ◌∷◌, ◌++◌, ◌>>=◌, Returns, length, replicate, length-replicate,
}
use i_dcu_io_t.Iot.Command.{failed}
use i_dcu_io_t.Iot.Server.{Conn}
use i_dcu_io_t.Driver.{buffer_size}
use i_dcu_io_t.M2m.Arrival.{packet_bytes, IsClear}
use i_dcu_io_t.M2m.Packets.{write}
use i_dcu_io_t.Config.Network.{swapped}
use i_dcu_io_t.Config.Security.Comes.{read_security_config-nil}
use i_dcu_io_t.Config.Tests.{
  parse_address, parse_address-ReadsAddresses, read_network_config-nil, office, office-IsLan,
  no_lan,
}
use i_dcu_io_t.Setup.{DevInfo, dev_bytes, Server, World, act, lan_script, turn}
use i_dcu_io_t.Setup.Devices.{IsDevInfo}
use i_dcu_io_t.Setup.SetGet.{set_body, get_body, failed_flag, turn-turn_lan}

abbrev world : World
world = record { inet_addr = parse_address; nodes = failed; lan_result = 1; wlan_result = 0 }

abbrev no_keys : List ℕ
no_keys = replicate 140 0

abbrev wanted : DevInfo
wanted = record {
  lan = office;
  wlan = no_lan;
  security = no_keys;
  enabled = record { lan = 1; wlan = 0 };
}

wanted-IsDevInfo : IsDevInfo wanted
wanted-IsDevInfo = record {
  lan = office-IsLan;
  wlan = record {
    addr = omega arith;
    netmask = omega arith;
    gateway = omega arith;
    dns = omega arith;
  };
  security = length-replicate {A = ℕ} 140 0;
  enabled = record { lan = omega arith; wlan = omega arith };
}

abbrev nothing : List ℕ
nothing = replicate 1024 0

length-nothing : length nothing ≡ buffer_size
length-nothing = length-replicate {A = ℕ} 1024 0

abbrev fresh : Server
fresh = record {
  files = record { eth0 = []; wlan0 = []; security = []; network_use = []; wpa_supplicant = [] };
  device = record {
    lan = no_lan;
    wlan = no_lan;
    security = no_keys;
    enabled = record { lan = 0; wlan = 0 };
  };
  done = [];
}

abbrev free : Conn Server
free = record {
  link = record { receive_buffer = nothing; receive_size = 0; remainder = nothing; device = fresh };
  parsing_size = 0;
}

free-IsClear : IsClear free
free-IsClear = record { buffer = length-nothing; rest = length-nothing; none = refl; size = refl }

abbrev got : DevInfo
got = record wanted { lan = swapped office }

turn-turn_lan_example :
    Returns
      (turn world (packet_bytes (set_body 0 wanted)) nothing free
        >>= turn world (packet_bytes (get_body 0 0)) nothing)
      (λ c'.
        IsClear c'
        × (c'.link.device.device ≡ got)
        × (c'.link.device.done
            ≡ (([] ++ (lan_script ∷ []))
                ++ (act (write (0xfe ∷ 0 ∷ 5 ∷ 0x0a ∷ 0 ∷ 2 ∷ 0x0b ∷ failed_flag 1 ∷ 0xff ∷ []))
                    ∷ []))
              ++ (act (write (0xfe ∷ 0 ∷ 177 ∷ 6 ∷ 0 ∷ 174 ∷ (dev_bytes got ++ (0xff ∷ []))))
                  ∷ [])))
turn-turn_lan_example =
    turn-turn_lan world parse_address-ReadsAddresses wanted got 0 0 0 nothing nothing free
      wanted-IsDevInfo refl refl length-nothing length-nothing free-IsClear
      (read_network_config-nil parse_address no_lan) (read_security_config-nil no_keys)
      (length-replicate {A = ℕ} 140 0) refl refl
