-- ===== src/Setup/SetGet.antt =====
-- src/SetupManager.c: what the set-up program is told after it has set the device.
use i_dcu_io_t.Common.{
  ℕ, ◌+◌, ◌≡◌, refl, sym, ◌∙◌, ap, arith, true, false, List, [], ◌∷◌, ◌++◌, append_assoc, ◌==◌,
  if◌then◌else◌, ok, ◌>>=◌, Returns, Returns-bind, length, length-append, drop, read-eq-get_or,
}
use i_dcu_io_t.Iot.Server.{Conn}
use i_dcu_io_t.Driver.{buffer_size}
use i_dcu_io_t.M2m.Arrival.{packet_bytes, IsClear, turn_packet}
use i_dcu_io_t.M2m.Packets.{write}
use i_dcu_io_t.Config.{
  write_network_config, read_network_config, write_network_use_config, read_network_use_config,
}
use i_dcu_io_t.Config.Security.{read_security_config}
use i_dcu_io_t.Config.Network.{
  ReadsAddresses, swapped, read_network_config-write_network_config,
  read_network_use_config-write_network_use_config,
}
use i_dcu_io_t.Setup.{
  DevInfo, dev_bytes, Server, World, act, lan_script, get_lan_info, set_lan, set_wlan, set_failed,
  set_lan_info, pack_manager, turn,
}
use i_dcu_io_t.Setup.Devices.{IsDevInfo, length-dev_bytes, load_dev-dev_bytes, lan_info_reply_lem}

-- The bodies of the two packets, with a byte that is not read.
abbrev pub set_body : ℕ → DevInfo → List ℕ
set_body x d = 0x0b ∷ x ∷ dev_bytes d

abbrev pub get_body : ℕ → ℕ → List ℕ
get_body x y = 6 ∷ x ∷ y ∷ []

-- The flag of the answer.
abbrev pub failed_flag : ℕ → ℕ
failed_flag result = if result == 0 then 0 else 1

module _ (w : World) (d : DevInfo) (valid : IsDevInfo d) (cable : (d.enabled.lan == 0) ≡ false)
    (no_radio : (d.enabled.wlan == 0) ≡ true) where
  -- What the server is after it was set.
  abbrev pub after_set : Server → Server
  after_set s = record s {
    files = record s.files {
      network_use = write_network_use_config d.enabled;
      eth0 = write_network_config d.lan;
    };
    done =
        (s.done ++ (lan_script ∷ []))
        ++ (act (write (0xfe ∷ 0 ∷ 5 ∷ 0x0a ∷ 0 ∷ 2 ∷ 0x0b ∷ failed_flag w.lan_result ∷ 0xff ∷ []))
            ∷ []);
  }

  set_lem :
      (x : ℕ) (rest : List ℕ) (len : ℕ) (s : Server)
      → pack_manager w (packet_bytes (set_body x d) ++ rest) len s ≡ ok (after_set s)
  unfolding pack_manager set_lan_info set_lan set_wlan set_failed
  set_lem x rest len s =
      let bytes = dev_bytes d in
      let size = length-dev_bytes d valid.security in
      let n = length (set_body x d) in
      let layout : (bytes ++ (0xff ∷ [])) ++ rest ≡ bytes ++ (0xff ∷ rest) =
        append_assoc bytes (0xff ∷ []) rest in
      rw
        (
          layout,
          read-eq-get_or (bytes ++ (0xff ∷ rest)) 0 0
              (omega (arith, length-append bytes (0xff ∷ rest))),
          load_dev-dev_bytes d 0xfe n 0x0b x (0xff ∷ rest) valid,
          cable,
          no_radio,
        )
        refl

module _ (w : World) (reads : ReadsAddresses w.inet_addr) where
  -- The reply to a call for the settings, from what the files give.
  get_lem :
      (x y : ℕ) (rest : List ℕ) (len : ℕ) (s : Server) (got : DevInfo)
      → read_network_config w.inet_addr s.files.eth0 s.device.lan ≡ ok got.lan
      → read_network_config w.inet_addr s.files.wlan0 s.device.wlan ≡ ok got.wlan
      → read_security_config s.files.security s.device.security ≡ ok got.security
      → read_network_use_config s.files.network_use s.device.enabled ≡ ok got.enabled
      → length got.security ≡ 140
      → pack_manager w (packet_bytes (get_body x y) ++ rest) len s
        ≡ ok (record s {
          device = got;
          done =
              s.done
              ++ (act (write (0xfe ∷ 0 ∷ 177 ∷ 6 ∷ 0 ∷ 174 ∷ (dev_bytes got ++ (0xff ∷ [])))) ∷ []);
        })
  unfolding pack_manager get_lan_info
  get_lem x y rest len s got a b c e long = rw (a, b, c, e, lan_info_reply_lem got long) refl

  -- A packet that sets the device for the cable and not for the radio, and then one that calls for
  -- its settings, each in a datagram of its own to a loop that holds nothing back, where the files
  -- of the radio and of its security can be read: the script of the cable is run once; the first
  -- answer says whether it failed; the second holds the four addresses of the cable with the bytes
  -- of each in the other order, the flags as they were set, and the rest from the files.
  pub turn-turn_lan :
      (d got : DevInfo) (x y z : ℕ) (stack stack' : List ℕ) (c : Conn Server)
      → IsDevInfo d
      → (d.enabled.lan == 0) ≡ false
      → (d.enabled.wlan == 0) ≡ true
      → length stack ≡ buffer_size
      → length stack' ≡ buffer_size
      → IsClear c
      → read_network_config w.inet_addr c.link.device.files.wlan0 c.link.device.device.wlan
        ≡ ok got.wlan
      → read_security_config c.link.device.files.security c.link.device.device.security
        ≡ ok got.security
      → length got.security ≡ 140
      → got.lan ≡ swapped d.lan
      → got.enabled ≡ d.enabled
      → Returns
          (turn w (packet_bytes (set_body x d)) stack c
            >>= turn w (packet_bytes (get_body y z)) stack')
          (λ c'.
            IsClear c'
            × (c'.link.device.device ≡ got)
            × (c'.link.device.done
                ≡ ((c.link.device.done ++ (lan_script ∷ []))
                    ++ (act (
                          write (
                            0xfe
                            ∷ 0
                            ∷ 5
                            ∷ 0x0a
                            ∷ 0
                            ∷ 2
                            ∷ 0x0b
                            ∷ failed_flag w.lan_result
                            ∷ 0xff
                            ∷ []))
                        ∷ []))
                  ++ (act (write (0xfe ∷ 0 ∷ 177 ∷ 6 ∷ 0 ∷ 174 ∷ (dev_bytes got ++ (0xff ∷ []))))
                      ∷ [])))
  unfolding turn
  turn-turn_lan d got x y z stack stack' c valid cable no_radio ws ws' free wlan sec long lan en =
      let s = c.link.device in
      let size : length (set_body x d) ≡ 176 = omega (arith, length-dev_bytes d valid.security) in
      let set_done =
        turn_packet (pack_manager w) (set_body x d) stack c (after_set w d valid cable no_radio s)
          (omega arith) ws free
          (set_lem w d valid cable no_radio x (drop (length (set_body x d) + 3) stack)
            (length (set_body x d) + 3) s) in
      Returns-bind _ _ _ _ set_done λ c1 q.
        let s1 = after_set w d valid cable no_radio s in
        let cable_back : read_network_config w.inet_addr s1.files.eth0 s1.device.lan ≡ ok got.lan =
          (read_network_config-write_network_config w.inet_addr reads d.lan s1.device.lan
            valid.lan).0
          ∙ ap ok (sym lan) in
        let flags_back : read_network_use_config s1.files.network_use s1.device.enabled
            ≡ ok got.enabled =
          read_network_use_config-write_network_use_config d.enabled s1.device.enabled valid.enabled
          ∙ ap ok (sym en) in
        let at_s1 = get_lem y z (drop 6 stack') 6 s1 got cable_back wlan sec flags_back long in
        let (c2, e, r) =
          turn_packet (pack_manager w) (get_body y z) stack' c1 _ (omega arith) ws' q.0
            (ap (pack_manager w (packet_bytes (get_body y z) ++ drop 6 stack') 6) q.1 ∙ at_s1) in
        (c2, e, (r.0, ap (λ v. v.device) r.1, ap (λ v. v.done) r.1))
