-- ===== src/Config/Network.antt =====
-- src/SetupManager.c: what `ReadNetworkConfig` makes of a file of `WriteNetworkConfig`, and the
-- same for `networkUse.config` of src/lib/configRW.c.
use i_dcu_io_t.Common.{
  ℕ, ◌%◌, ◌^◌, ◌≤◌, ◌<◌, ◌≡◌, refl, sym, ◌∙◌, ap, arith, List, [], ◌∷◌, ◌++◌, append-nil, ok, ◌>>=◌,
  length, length-append, byte0, byte1, byte2, byte3, print_long, atoi-print_long,
}
use i_dcu_io_t.Config.{
  codes, entry_line, LanVar, Enabled, htonl, inet_ntoa, network_entry, write_network_config,
  read_file, read_network_config, write_network_use_config, use_entry, read_network_use_config,
  same,
}
use i_dcu_io_t.Config.Lines.{IsWord, read_entry, read_end, print_long-IsWord, join-IsWord}

inet_ntoa-IsWord : (s : ℕ) → IsWord (inet_ntoa s) × (length (inet_ntoa s) ≤ 47)
unfolding inet_ntoa
inet_ntoa-IsWord s =
    let (a, la) = print_long-IsWord (byte0 s) in
    let (b, lb) = print_long-IsWord (byte1 s) in
    let (c, lc) = print_long-IsWord (byte2 s) in
    let (d, ld) = print_long-IsWord (byte3 s) in
    let last = print_long (byte3 s) in
    let end = print_long (byte2 s) ++ (46 ∷ last) in
    let rest = print_long (byte1 s) ++ (46 ∷ end) in
    (
      join-IsWord (print_long (byte0 s)) rest 46 a
          (join-IsWord (print_long (byte1 s)) end 46 b
            (join-IsWord (print_long (byte2 s)) last 46 c d refl refl) refl refl)
          refl refl,
      omega (
        arith,
        la,
        lb,
        lc,
        ld,
        length-append (print_long (byte0 s)) (46 ∷ rest),
        length-append (print_long (byte1 s)) (46 ∷ end),
        length-append (print_long (byte2 s)) (46 ∷ last),
      ),
    )

-- `inet_addr` reads what `inet_ntoa` wrote.
abbrev pub ReadsAddresses : (List ℕ → ℕ) → Type 0
ReadsAddresses inet_addr = (s : ℕ) → s < 2 ^ 32 → inet_addr (inet_ntoa s) ≡ s

-- The addresses are 32-bit words.
pub record IsLan (lan : LanVar) : Type 0 where
  pub addr : lan.lan_addr < 2 ^ 32
  pub netmask : lan.lan_netmask < 2 ^ 32
  pub gateway : lan.lan_gateway < 2 ^ 32
  pub dns : lan.lan_dns < 2 ^ 32

pub htonl-lt : (v : ℕ) → htonl v < 2 ^ 32
unfolding htonl
htonl-lt v = omega arith

pub htonl_twice : (v : ℕ) → v < 2 ^ 32 → htonl (htonl v) ≡ v
unfolding htonl
htonl_twice v h = omega arith

-- Each address with its bytes in the other order.
pub swapped : LanVar → LanVar
swapped lan = record {
  lan_addr = htonl lan.lan_addr;
  lan_netmask = htonl lan.lan_netmask;
  lan_gateway = htonl lan.lan_gateway;
  lan_dns = htonl lan.lan_dns;
}

key-IsWord :
    IsWord (codes "address")
    × IsWord (codes "netmask")
    × IsWord (codes "gateway")
    × IsWord (codes "dns")
key-IsWord = ground arith

module _ (inet_addr : List ℕ → ℕ) (reads : ReadsAddresses inet_addr) where
  entry_address :
      (v : ℕ) (lan : LanVar)
      → v < 2 ^ 32
      → network_entry inet_addr (codes "address") (inet_ntoa v ∷ []) lan
        ≡ ok (record lan { lan_addr = v })
  unfolding network_entry same
  entry_address v lan h = rw (reads v h)

  entry_netmask :
      (v : ℕ) (lan : LanVar)
      → v < 2 ^ 32
      → network_entry inet_addr (codes "netmask") (inet_ntoa v ∷ []) lan
        ≡ ok (record lan { lan_netmask = v })
  unfolding network_entry same
  entry_netmask v lan h = rw (reads v h)

  entry_gateway :
      (v : ℕ) (lan : LanVar)
      → v < 2 ^ 32
      → network_entry inet_addr (codes "gateway") (inet_ntoa v ∷ []) lan
        ≡ ok (record lan { lan_gateway = v })
  unfolding network_entry same
  entry_gateway v lan h = rw (reads v h)

  entry_dns :
      (v : ℕ) (lan : LanVar)
      → v < 2 ^ 32
      → network_entry inet_addr (codes "dns") (inet_ntoa v ∷ []) lan
        ≡ ok (record lan { lan_dns = v })
  unfolding network_entry same
  entry_dns v lan h = rw (reads v h)

  reads_back :
      (lan old : LanVar)
      → read_network_config inet_addr (write_network_config lan) old ≡ ok (swapped lan)
  unfolding write_network_config read_network_config swapped
  reads_back lan old =
      let a = htonl lan.lan_addr in
      let m = htonl lan.lan_netmask in
      let g = htonl lan.lan_gateway in
      let d = htonl lan.lan_dns in
      let step = network_entry inet_addr in
      let s1 = record old { lan_addr = a } in
      let s2 = record s1 { lan_netmask = m } in
      let s3 = record s2 { lan_gateway = g } in
      let s4 = record s3 { lan_dns = d } in
      let (wa, la) = inet_ntoa-IsWord a in
      let (wm, lm) = inet_ntoa-IsWord m in
      let (wg, lg) = inet_ntoa-IsWord g in
      let (wd, ld) = inet_ntoa-IsWord d in
      let (ka, km, kg, kd) = key-IsWord in
      let dns = entry_line (codes "dns") (inet_ntoa d) in
      let gateway = entry_line (codes "gateway") (inet_ntoa g) ++ dns in
      let netmask = entry_line (codes "netmask") (inet_ntoa m) ++ gateway in
      read_entry step (codes "address") (inet_ntoa a) netmask old s1 ka wa refl (omega arith)
        (entry_address a old (htonl-lt lan.lan_addr))
      ∙ read_entry step (codes "netmask") (inet_ntoa m) gateway s1 s2 km wm refl (omega arith)
          (entry_netmask m s1 (htonl-lt lan.lan_netmask))
      ∙ read_entry step (codes "gateway") (inet_ntoa g) dns s2 s3 kg wg refl (omega arith)
          (entry_gateway g s2 (htonl-lt lan.lan_gateway))
      ∙ ap (λ xs. read_file step xs s3) (sym (append-nil dns))
      ∙ read_entry step (codes "dns") (inet_ntoa d) [] s3 s4 kd wd refl (omega arith)
          (entry_dns d s3 (htonl-lt lan.lan_dns))
      ∙ read_end step s4

  -- The readers do not undo `htonl`: of 32-bit addresses, what is read is what was written with the
  -- bytes of each address in the other order, whatever was in the record before; where that is
  -- written and read again, it is what was written first.
  pub read_network_config-write_network_config :
      (lan old : LanVar)
      → IsLan lan
      → (read_network_config inet_addr (write_network_config lan) old ≡ ok (swapped lan))
        × ((read_network_config inet_addr (write_network_config lan) old >>= λ read.
              read_network_config inet_addr (write_network_config read) old)
            ≡ ok lan)
  unfolding swapped
  read_network_config-write_network_config lan old h = (
    reads_back lan old,
    rw (
      reads_back lan old,
      reads_back (swapped lan) old,
      htonl_twice lan.lan_addr h.addr,
      htonl_twice lan.lan_netmask h.netmask,
      htonl_twice lan.lan_gateway h.gateway,
      htonl_twice lan.lan_dns h.dns,
    ),
  )

-- Both flags are bytes.
pub record IsEnabled (e : Enabled) : Type 0 where
  pub lan : e.lan < 256
  pub wlan : e.wlan < 256

use_keys-IsWord : IsWord (codes "lan") × IsWord (codes "wlan")
use_keys-IsWord = ground arith

use_lan :
    (v : ℕ) (e : Enabled)
    → v < 256
    → use_entry (codes "lan") (print_long v ∷ []) e ≡ ok (record e { lan = v })
unfolding use_entry same
use_lan v e h =
    let small : v % 2 ^ 8 ≡ v = omega arith in rw (atoi-print_long v (omega arith), small)

use_wlan :
    (v : ℕ) (e : Enabled)
    → v < 256
    → use_entry (codes "wlan") (print_long v ∷ []) e ≡ ok (record e { wlan = v })
unfolding use_entry same
use_wlan v e h =
    let small : v % 2 ^ 8 ≡ v = omega arith in rw (atoi-print_long v (omega arith), small)

-- The two flags are read back as they were written, whatever they were before.
pub read_network_use_config-write_network_use_config :
    (e old : Enabled)
    → IsEnabled e
    → read_network_use_config (write_network_use_config e) old ≡ ok e
unfolding read_network_use_config write_network_use_config
read_network_use_config-write_network_use_config e old h =
    let (kl, kw) = use_keys-IsWord in
    let (wl, ll) = print_long-IsWord e.lan in
    let (ww, lw) = print_long-IsWord e.wlan in
    let s1 = record old { lan = e.lan } in
    let s2 = record s1 { wlan = e.wlan } in
    let wlan = entry_line (codes "wlan") (print_long e.wlan) in
    read_entry use_entry (codes "lan") (print_long e.lan) wlan old s1 kl wl refl (omega arith)
      (use_lan e.lan old h.lan)
    ∙ ap (λ xs. read_file use_entry xs s1) (sym (append-nil wlan))
    ∙ read_entry use_entry (codes "wlan") (print_long e.wlan) [] s1 s2 kw ww refl (omega arith)
        (use_wlan e.wlan s1 h.wlan)
    ∙ read_end use_entry s2
