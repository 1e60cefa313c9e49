-- ===== src/Setup.antt =====
-- src/SetupManager.c: the server of the set-up program. A packet, its parser and the commands that
-- it shares with src/M2MManager.c are the same text and stand in M2m; here are `GETLANINFO` and
-- `SETLANINFO` with `DEVINFO` of src/include/iDCU.h.
pub mod Devices
pub mod SetGet
pub mod Tests
use i_dcu_io_t.Common.{
  ℕ, ◌+◌, ◌-◌, ◌*◌, ◌%◌, ◌/◌, ◌^◌, Bool, true, false, ◌||◌, List, [], ◌∷◌, ◌++◌, map, ◌==◌,
  if◌then◌else◌, Run, ok, ◌>>=◌, read, memcpy, take, drop, length, replicate, byte0, byte1, byte2,
  byte3,
}
use i_dcu_io_t.Iot.Command.{Selected}
use i_dcu_io_t.Iot.Server.{Conn}
use i_dcu_io_t.M2m
use i_dcu_io_t.M2m.Packets.{
  Act, write, event_message, node_message, delete_node, time_sync, message, command_get_node_info,
  reboot_node,
}
use i_dcu_io_t.Config.{
  LanVar, Enabled, write_network_config, read_network_config, write_network_use_config,
  read_network_use_config,
}
use i_dcu_io_t.Config.Security.{
  security_size, read_security_config, write_security_config, write_security_script,
}

-- `DEVINFO`, packed.
pub record DevInfo : Type 0 where
  pub lan : LanVar
  pub wlan : LanVar
  pub security : List ℕ
  pub enabled : Enabled

abbrev pub dev_size : ℕ
dev_size = 174

-- A UINT32 in memory, the lowest byte first.
abbrev pub le32 : ℕ → List ℕ
le32 v = byte0 v ∷ byte1 v ∷ byte2 v ∷ byte3 v ∷ []

abbrev pub lan_bytes : LanVar → List ℕ
lan_bytes lan =
    le32 lan.lan_addr ++ (le32 lan.lan_netmask ++ (le32 lan.lan_gateway ++ le32 lan.lan_dns))

pub dev_bytes : DevInfo → List ℕ
dev_bytes d =
    lan_bytes d.lan ++ (lan_bytes d.wlan ++ (d.security ++ (d.enabled.lan ∷ d.enabled.wlan ∷ [])))

pub load32 : List ℕ → ℕ → Run ℕ
load32 bytes i = do
  b0 ← read bytes i
  b1 ← read bytes (i + 1)
  b2 ← read bytes (i + 2)
  b3 ← read bytes (i + 3)
  ok (b0 + b1 * 2 ^ 8 + b2 * 2 ^ 16 + b3 * 2 ^ 24)

pub load_lan : List ℕ → ℕ → Run LanVar
load_lan bytes i = do
  a ← load32 bytes i
  m ← load32 bytes (i + 4)
  g ← load32 bytes (i + 8)
  d ← load32 bytes (i + 12)
  ok (record { lan_addr = a; lan_netmask = m; lan_gateway = g; lan_dns = d })

-- `memcpy( &saveDev, buffer+4, sizeof( DEVINFO ) )`.
pub load_dev : List ℕ → Run DevInfo
load_dev buffer = do
  bytes ← memcpy (replicate dev_size 0) 0 buffer 4 dev_size
  lan ← load_lan bytes 0
  wlan ← load_lan bytes 16
  lan_enable ← read bytes 172
  wlan_enable ← read bytes 173
  ok (record {
    lan = lan;
    wlan = wlan;
    security = take security_size (drop 32 bytes);
    enabled = record { lan = lan_enable; wlan = wlan_enable };
  })

-- The files under /work, and what else the program does.
pub record Files : Type 0 where
  pub eth0 : List ℕ
  pub wlan0 : List ℕ
  pub security : List ℕ
  pub network_use : List ℕ
  pub wpa_supplicant : List ℕ

pub data Effect : Type 0 where
  act : Act → Effect
  lan_script : Effect
  wlan_script : Effect

pub record Server : Type 0 where
  pub files : Files
  pub device : DevInfo
  pub done : List Effect

-- `inet_addr`, the select of the nodes, and what `system` returns for the two scripts.
pub record World : Type 0 where
  pub inet_addr : List ℕ → ℕ
  pub nodes : Selected
  pub lan_result : ℕ
  pub wlan_result : ℕ

-- `case GETLANINFO`.
pub lan_info_reply : DevInfo → Run (List ℕ)
lan_info_reply d = do
  let v = dev_size
  let total = v + 3
  headed ←
      memcpy (replicate 1024 0) 0
        (0xfe ∷ total / 2 ^ 8 % 2 ^ 8 ∷ total % 2 ^ 8 ∷ 6 ∷ v / 2 ^ 8 % 2 ^ 8 ∷ v % 2 ^ 8 ∷ []) 0 6
  filled ← memcpy headed 6 (dev_bytes d) 0 v
  ended ← memcpy filled (total + 3) (0xff ∷ []) 0 1
  ok (take (total + 4) ended)

pub get_lan_info : World → Server → Run Server
get_lan_info w s = do
  lan ← read_network_config w.inet_addr s.files.eth0 s.device.lan
  wlan ← read_network_config w.inet_addr s.files.wlan0 s.device.wlan
  security ← read_security_config s.files.security s.device.security
  enabled ← read_network_use_config s.files.network_use s.device.enabled
  let d : DevInfo = record { lan = lan; wlan = wlan; security = security; enabled = enabled }
  bytes ← lan_info_reply d
  ok (record s { device = d; done = s.done ++ (act (write bytes) ∷ []) })

-- The part of `SETLANINFO` for the cable.
pub set_lan : World → DevInfo → Server → Server
set_lan w d s = if d.enabled.lan == 0 then s else record s {
  files = record s.files { eth0 = write_network_config d.lan };
  done = s.done ++ (lan_script ∷ []);
}

-- The part for the radio; both writers take the words from the same structure.
pub set_wlan : World → DevInfo → Server → Run Server
set_wlan w d s = if d.enabled.wlan == 0 then ok s else (do
  config ← write_security_config d.security
  script ← write_security_script config.1
  ok (record s {
    files = record s.files {
      wlan0 = write_network_config d.wlan;
      security = config.0;
      wpa_supplicant = script.0;
    };
    done = s.done ++ (wlan_script ∷ []);
  }))

-- `sendBuffer[7]`: 1 where a script that was run has failed.
pub set_failed : World → DevInfo → ℕ
set_failed w d =
    if d.enabled.wlan == 0
    then (if d.enabled.lan == 0 then 0 else if w.lan_result == 0 then 0 else 1)
    else if w.wlan_result == 0
    then (if d.enabled.lan == 0 then 0 else if w.lan_result == 0 then 0 else 1)
    else 1

-- `case SETLANINFO`.
pub set_lan_info : World → List ℕ → Server → Run Server
set_lan_info w buffer s = do
  d ← load_dev buffer
  let used : Server = record s {
    files = record s.files { network_use = write_network_use_config d.enabled };
  }
  after ← set_wlan w d (set_lan w d used)
  ok (record after {
    done =
        after.done
        ++ (act (write (0xfe ∷ 0 ∷ 5 ∷ 0x0a ∷ 0 ∷ 2 ∷ 0x0b ∷ set_failed w d ∷ 0xff ∷ [])) ∷ []);
  })

-- The commands that src/M2MManager.c has as well.
pub shared : World → List ℕ → ℕ → ℕ → ℕ → Run (List Act)
shared w buffer len type nodeid =
    if type == 2
    then time_sync buffer []
    else if type == 5
    then command_get_node_info w.nodes []
    else if type == 4
    then (do m ← message buffer len; ok (event_message m ∷ delete_node nodeid ∷ []))
    else if type == 0x12
    then (do
      m ← message buffer len
      ok (node_message m ∷ event_message m ∷ delete_node nodeid ∷ []))
    else if type == 1
    then (do m ← message buffer len; ok (reboot_node nodeid m []))
    else ok []

-- `Pack_Manager`.
pub pack_manager : World → List ℕ → ℕ → Server → Run Server
pack_manager w buffer len s = do
  type ← read buffer 2
  nodeid ← read buffer 4
  if type == 6 then get_lan_info w s else if type == 0x0b then set_lan_info w buffer s else (do
    acts ← shared w buffer len type nodeid
    ok (record s { done = s.done ++ map act acts }))

-- A datagram that `recvfrom` brings.
pub turn : World → List ℕ → List ℕ → Conn Server → Run (Conn Server)
turn w = M2m.turn (pack_manager w)
