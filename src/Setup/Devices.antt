-- ===== src/Setup/Devices.antt =====
-- src/SetupManager.c: `DEVINFO` in a packet, and the reply that holds one.
use i_dcu_io_t.Common.{
  ℕ, ◌+◌, ◌*◌, ◌^◌, ◌<◌, ◌≡◌, refl, sym, ◌∙◌, ap, arith, List, [], ◌∷◌, ◌++◌, append_assoc,
  append-nil, ok, read, read_append, memcpy, memcpy-ok, take, take_append, take-all, drop, length,
  length-append, length-drop, replicate, length-replicate, byte0, byte1, byte2, byte3,
}
use i_dcu_io_t.M2m.Replies.Layout.{then_ok, copy_behind}
use i_dcu_io_t.M2m.Tables.Whole.{regroup_tail}
use i_dcu_io_t.Config.{LanVar}
use i_dcu_io_t.Config.Network.{IsLan, IsEnabled}
use i_dcu_io_t.Setup.{DevInfo, lan_bytes, dev_bytes, load32, load_lan, load_dev, lan_info_reply}

pub record IsDevInfo (d : DevInfo) : Type 0 where
  pub lan : IsLan d.lan
  pub wlan : IsLan d.wlan
  pub security : length d.security ≡ 140
  pub enabled : IsEnabled d.enabled

bytes_word :
    (v : ℕ) → v < 2 ^ 32 → byte0 v + byte1 v * 2 ^ 8 + byte2 v * 2 ^ 16 + byte3 v * 2 ^ 24 ≡ v
bytes_word v h = omega arith

pub length-dev_bytes : (d : DevInfo) → length d.security ≡ 140 → length (dev_bytes d) ≡ 174
unfolding dev_bytes
length-dev_bytes d h = omega (arith, length-append d.security (d.enabled.lan ∷ d.enabled.wlan ∷ []))

load_lan_first :
    (lan : LanVar) (rest : List ℕ) → IsLan lan → load_lan (lan_bytes lan ++ rest) 0 ≡ ok lan
unfolding load_lan load32
load_lan_first lan rest h =
    rw
      (
        bytes_word lan.lan_addr h.addr,
        bytes_word lan.lan_netmask h.netmask,
        bytes_word lan.lan_gateway h.gateway,
        bytes_word lan.lan_dns h.dns,
      )
      refl

load_lan_second :
    (first lan : LanVar) (rest : List ℕ)
    → IsLan lan
    → load_lan (lan_bytes first ++ (lan_bytes lan ++ rest)) 16 ≡ ok lan
unfolding load_lan load32
load_lan_second first lan rest h =
    rw
      (
        bytes_word lan.lan_addr h.addr,
        bytes_word lan.lan_netmask h.netmask,
        bytes_word lan.lan_gateway h.gateway,
        bytes_word lan.lan_dns h.dns,
      )
      refl

module _ (d : DevInfo) where
  lan_member : IsLan d.lan → load_lan (dev_bytes d) 0 ≡ ok d.lan
  unfolding dev_bytes
  lan_member h = load_lan_first d.lan _ h

  wlan_member : IsLan d.wlan → load_lan (dev_bytes d) 16 ≡ ok d.wlan
  unfolding dev_bytes
  wlan_member h = load_lan_second d.lan d.wlan _ h

  lan_flag : length d.security ≡ 140 → read (dev_bytes d) 172 ≡ ok d.enabled.lan
  unfolding dev_bytes
  lan_flag h = read_append d.security d.enabled.lan (d.enabled.wlan ∷ []) 140 (sym h)

  wlan_flag : length d.security ≡ 140 → read (dev_bytes d) 173 ≡ ok d.enabled.wlan
  unfolding dev_bytes
  wlan_flag h =
      ap (λ xs. read xs 141)
        (sym (append_assoc d.security (d.enabled.lan ∷ []) (d.enabled.wlan ∷ [])))
      ∙ read_append (d.security ++ (d.enabled.lan ∷ [])) d.enabled.wlan [] 141
          (omega (arith, h, length-append d.security (d.enabled.lan ∷ [])))

  security_member : length d.security ≡ 140 → take 140 (drop 32 (dev_bytes d)) ≡ d.security
  unfolding dev_bytes
  security_member h = take_append d.security (d.enabled.lan ∷ d.enabled.wlan ∷ []) 140 (sym h)

-- The structure at its place in a packet is loaded as it was stored.
pub load_dev-dev_bytes :
    (d : DevInfo) (c0 c1 c2 c3 : ℕ) (rest : List ℕ)
    → IsDevInfo d
    → load_dev (c0 ∷ c1 ∷ c2 ∷ c3 ∷ (dev_bytes d ++ rest)) ≡ ok d
unfolding load_dev
load_dev-dev_bytes d c0 c1 c2 c3 rest h =
    let size = length-dev_bytes d h.security in
    let copied : memcpy (replicate 174 0) 0 (c0 ∷ c1 ∷ c2 ∷ c3 ∷ (dev_bytes d ++ rest)) 4 174
        ≡ ok (dev_bytes d) =
      memcpy-ok (replicate 174 0) 0 (c0 ∷ c1 ∷ c2 ∷ c3 ∷ (dev_bytes d ++ rest)) 4 174
        (omega (arith, length-replicate {A = ℕ} 174 0))
        (omega (arith, size, length-append (dev_bytes d) rest))
      ∙ rw (take_append (dev_bytes d) rest 174 (sym size), append-nil (dev_bytes d)) refl in
    let f = h.security in
    rw
      (
        copied,
        lan_member d h.lan,
        wlan_member d h.wlan,
        lan_flag d f,
        wlan_flag d f,
        security_member d f,
      )
      refl

-- The reply: FE, the total length 177, type 6, the length 174 of the structure, the structure, FF.
pub lan_info_reply_lem :
    (d : DevInfo)
    → length d.security ≡ 140
    → lan_info_reply d ≡ ok (0xfe ∷ 0 ∷ 177 ∷ 6 ∷ 0 ∷ 174 ∷ (dev_bytes d ++ (0xff ∷ [])))
unfolding lan_info_reply
lan_info_reply_lem d h =
    let size = length-dev_bytes d h in
    let bytes = dev_bytes d in
    let head : List ℕ = 0xfe ∷ 0 ∷ 177 ∷ 6 ∷ 0 ∷ 174 ∷ [] in
    let buffer : List ℕ = replicate 1024 0 in
    let full : length buffer ≡ 1024 = length-replicate {A = ℕ} 1024 0 in
    let r1 = drop 6 buffer in
    let l1 : length r1 ≡ 1018 = omega (arith, length-drop 6 buffer) in
    let r2 = drop 174 r1 in
    let l2 : length r2 ≡ 844 = omega (arith, length-drop 174 r1) in
    let r3 = drop 1 r2 in
    then_ok _ (copy_behind [] head buffer 0 6 refl (omega arith) (omega arith))
    ∙ then_ok _ (
        copy_behind head bytes r1 6 174 refl (omega arith) (omega arith)
        ∙ ap (λ t. ok (head ++ (t ++ r2))) (take-all bytes 174 (sym size))
        ∙ ap ok (append_assoc head bytes r2))
    ∙ then_ok _ (
        copy_behind (head ++ bytes) (0xff ∷ []) r2 180 1 (omega (arith, length-append head bytes))
          (omega arith) (omega arith))
    ∙ ap ok (
        ap (take 181) (regroup_tail head bytes r3)
        ∙ take_append (head ++ (bytes ++ (0xff ∷ []))) r3 181 (
            omega
              (arith, length-append head (bytes ++ (0xff ∷ [])), length-append bytes (0xff ∷ []))))
