-- ===== src/Config/Security/Comes.antt =====
-- src/SetupManager.c: what `ReadSecurityConfig` makes of a file of `WriteSecurityConfig`.
use i_dcu_io_t.Common.{
  ℕ, ◌+◌, ◌<◌, ◌≡◌, refl, sym, ◌∙◌, ap, arith, false, List, [], ◌∷◌, ◌++◌, append_assoc, append-nil,
  ◌==◌, ok, ◌>>=◌, drop, drop_within, memcpy-ok, overlay_append, length, length-append, length-drop,
}
use i_dcu_io_t.Config.{codes, entry_line, same, read_file}
use i_dcu_io_t.Config.Lines.{IsWord, read_entry, read_end}
use i_dcu_io_t.Config.Security.{
  check_auth_alg, check_key_mgmt, strcpy, key_entry, security_entry, read_security_config,
  write_security_config,
}
use i_dcu_io_t.Config.Security.Texts.{
  set_append, set_second, read_third, read_fourth, Network, IsNetwork, structure,
  write_security_config_lem,
}

keys-IsWord :
    IsWord (codes "ssid")
    × IsWord (codes "key_mgmt")
    × IsWord (codes "auth_alg")
    × IsWord (codes "psk")
keys-IsWord = ground arith

values-IsWord : IsWord (codes "WPA-PSK") × IsWord (codes "OPEN")
values-IsWord = ground arith

-- The structure before the file is read: its first text, and the members behind it.
pub record Before : Type 0 where
  pub ssid : List ℕ
  pub mgmt : ℕ
  pub auth : ℕ
  pub grp : ℕ
  pub flag : ℕ
  pub keys : List ℕ

abbrev pub bytes_before : Before → List ℕ
bytes_before b = b.ssid ++ (b.mgmt ∷ b.auth ∷ b.grp ∷ b.flag ∷ b.keys)

-- A word over the first text.
abbrev pub over : List ℕ → List ℕ → List ℕ
over name old = name ++ (0 ∷ drop (length name + 1) old)

length-over : (name old : List ℕ) → length name < length old → length (over name old) ≡ length old
length-over name old h =
    omega (
      arith,
      length-append name (0 ∷ drop (length name + 1) old),
      length-drop (length name + 1) old,
    )

module _ (b : Before) (name : List ℕ) (long : length b.ssid ≡ 32) (fits : length name < 32) where
  ssid_step :
      security_entry (codes "ssid") (name ∷ []) (bytes_before b)
      ≡ ok (over name b.ssid ++ (b.mgmt ∷ b.auth ∷ b.grp ∷ b.flag ∷ b.keys))
  unfolding security_entry same strcpy
  ssid_step =
      let n = length name + 1 in
      let tail = b.mgmt ∷ b.auth ∷ b.grp ∷ b.flag ∷ b.keys in
      let text = name ++ (0 ∷ []) in
      let size : length text ≡ n = omega (arith, length-append name (0 ∷ [])) in
      let start : 0 + n ≡ n = omega arith in
      let layout : text ++ drop n (b.ssid ++ tail) ≡ over name b.ssid ++ tail =
        rw (drop_within b.ssid tail n (omega arith)) (simp append_assoc) in
      memcpy-ok (b.ssid ++ tail) 0 text 0 n (omega (arith, length-append b.ssid tail)) (omega arith)
      ∙ ap ok (
          overlay_append (b.ssid ++ tail) [] text 0 n refl (sym size)
          ∙ ap (λ m. text ++ drop m (b.ssid ++ tail)) start
          ∙ layout)

  mgmt_step :
      security_entry
        (codes "key_mgmt")
        (codes "WPA-PSK" ∷ [])
        (over name b.ssid ++ (b.mgmt ∷ b.auth ∷ b.grp ∷ b.flag ∷ b.keys))
      ≡ ok (over name b.ssid ++ (1 ∷ b.auth ∷ b.grp ∷ b.flag ∷ b.keys))
  unfolding security_entry same check_key_mgmt
  mgmt_step = ap ok (
      set_append (over name b.ssid) (b.auth ∷ b.grp ∷ b.flag ∷ b.keys) b.mgmt 1 32
        (omega (arith, length-over name b.ssid (omega arith))))

  auth_step :
      security_entry
        (codes "auth_alg")
        (codes "OPEN" ∷ [])
        (over name b.ssid ++ (1 ∷ b.auth ∷ b.grp ∷ b.flag ∷ b.keys))
      ≡ ok (over name b.ssid ++ (1 ∷ 0 ∷ b.grp ∷ b.flag ∷ b.keys))
  unfolding security_entry same check_auth_alg
  auth_step = ap ok (
      set_second (over name b.ssid) (b.grp ∷ b.flag ∷ b.keys) 1 b.auth 0 33
        (omega (arith, length-over name b.ssid (omega arith))))

  psk_step :
      (secret : List ℕ)
      → (b.grp == 3) ≡ false
      → (b.grp == 4) ≡ false
      → security_entry
          (codes "psk")
          (secret ∷ [])
          (over name b.ssid ++ (1 ∷ 0 ∷ b.grp ∷ b.flag ∷ b.keys))
        ≡ ok (over name b.ssid ++ (1 ∷ 0 ∷ b.grp ∷ b.flag ∷ b.keys))
  unfolding security_entry same key_entry
  psk_step secret three four =
      let front = over name b.ssid in
      let same_size = length-over name b.ssid (omega arith) in
      rw
        (
          read_third front (b.flag ∷ b.keys) 1 0 b.grp 34 (omega (arith, same_size)),
          read_fourth front b.keys 1 0 b.grp b.flag 35 (omega (arith, same_size)),
          three,
          four,
        )
        refl

-- A network with a pass phrase is written to the file, and the file is read into a structure whose
-- group is neither WEP104 nor WEP40: the name is the one that was written, `auth_alg` is 0, but
-- `key_mgmt`, which was 2, is 1, and the pass phrase is not there: all other bytes are as before.
pub security_comes_back :
    (n : Network) (b : Before)
    → IsNetwork n
    → length b.ssid ≡ 32
    → (b.grp == 3) ≡ false
    → (b.grp == 4) ≡ false
    → (write_security_config (structure n) >>= λ w. read_security_config w.0 (bytes_before b))
      ≡ ok (over n.ssid b.ssid ++ (1 ∷ 0 ∷ b.grp ∷ b.flag ∷ b.keys))
unfolding read_security_config
security_comes_back n b h long three four =
    let (left, e) = write_security_config_lem n h in
    let (ks, km, ka, kp) = keys-IsWord in
    let (wp, wo) = values-IsWord in
    let fits : length n.ssid < 32 = omega (arith, h.ssid_size) in
    let secret : length n.secret < 32 = omega (arith, h.secret_size) in
    let step = security_entry in
    let line4 = entry_line (codes "psk") n.secret in
    let line3 = entry_line (codes "auth_alg") (codes "OPEN") ++ line4 in
    let line2 = entry_line (codes "key_mgmt") (codes "WPA-PSK") ++ line3 in
    let front = over n.ssid b.ssid in
    let s0 = bytes_before b in
    let s1 = front ++ (b.mgmt ∷ b.auth ∷ b.grp ∷ b.flag ∷ b.keys) in
    let s2 = front ++ (1 ∷ b.auth ∷ b.grp ∷ b.flag ∷ b.keys) in
    let s3 = front ++ (1 ∷ 0 ∷ b.grp ∷ b.flag ∷ b.keys) in
    rw e (
      read_entry step (codes "ssid") n.ssid line2 s0 s1 ks h.ssid refl (omega arith)
        (ssid_step b n.ssid long fits)
      ∙ read_entry step (codes "key_mgmt") (codes "WPA-PSK") line3 s1 s2 km wp refl (omega arith)
          (mgmt_step b n.ssid long fits)
      ∙ read_entry step (codes "auth_alg") (codes "OPEN") line4 s2 s3 ka wo refl (omega arith)
          (auth_step b n.ssid long fits)
      ∙ ap (λ xs. read_file step xs s3) (sym (append-nil line4))
      ∙ read_entry step (codes "psk") n.secret [] s3 s3 kp h.secret refl (omega arith)
          (psk_step b n.ssid long fits n.secret three four)
      ∙ read_end step s3)

-- An empty file changes nothing.
pub read_security_config-nil : (s : List ℕ) → read_security_config [] s ≡ ok s
unfolding read_security_config
read_security_config-nil s = read_end security_entry s
