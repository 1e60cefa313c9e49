-- ===== src/Config/Security/Texts.antt =====
-- src/SetupManager.c: the file that `WriteSecurityConfig` makes for a network with a pass phrase.
use i_dcu_io_t.Common.{
  ℕ, zero, suc, ◌+◌, ◌≡◌, refl, sym, ◌∙◌, ap, arith, true, false, ◌||◌, List, [], ◌∷◌, ◌++◌,
  append_assoc, ◌==◌, ok, read, read_append, set, drop_append, length, length-append, Lacks,
  Nonempty,
}
use i_dcu_io_t.Config.{codes, entry_line, is_delim}
use i_dcu_io_t.Config.Lines.{IsWord}
use i_dcu_io_t.Config.Security.{
  spaces, word_from, strtok_at, mgmt_line, key_lines, write_security_config,
}

pub set_append :
    (xs ys : List ℕ) (y v i : ℕ) → i ≡ length xs → set (xs ++ (y ∷ ys)) i v ≡ xs ++ (v ∷ ys)
set_append [] ys y v zero h = refl
set_append [] ys y v (suc i) h = absurd (omega arith)
set_append (x ∷ xs) ys y v zero h = absurd (omega arith)
set_append (x ∷ xs) ys y v (suc i) h = ap (◌∷◌ x) (set_append xs ys y v i (omega arith))

spaces_word : (w rest : List ℕ) → Nonempty w → Lacks is_delim w → spaces (w ++ rest) ≡ 0
unfolding spaces
spaces_word [] rest n l = absurd n
spaces_word (c ∷ w) rest n l = ground (arith, l.0)

word_from_word :
    (w rest : List ℕ) (e : ℕ)
    → Lacks is_delim w
    → Lacks (λ c. c == 0) w
    → (e == 32 || e == 0) ≡ true
    → word_from (w ++ (e ∷ rest)) ≡ ok w
unfolding word_from
word_from_word [] rest e l z h = rw h
word_from_word (c ∷ w) rest e l z h =
    let inside : (c == 32 || c == 0) ≡ false = ground (arith, l.0, z.0) in
    rw (inside, word_from_word w rest e l.1 z.1 h)

-- A text of the structure: a word, and then a space or a zero.
strtok_at_word :
    (pre w rest : List ℕ) (e i : ℕ)
    → i ≡ length pre
    → IsWord w
    → (e == 32 || e == 0) ≡ true
    → strtok_at (pre ++ (w ++ (e ∷ rest))) i ≡ ok (w, pre ++ (w ++ (0 ∷ rest)))
unfolding strtok_at
strtok_at_word pre [] rest e i h w end = absurd w.0
strtok_at_word pre (c ∷ w) rest e i h (_, l, z) end =
    let here : i + 0 ≡ i = omega arith in
    let behind : pre ++ ((c ∷ w) ++ (e ∷ rest)) ≡ (pre ++ (c ∷ w)) ++ (e ∷ rest) =
      sym (append_assoc pre (c ∷ w) (e ∷ rest)) in
    let cut : set (pre ++ ((c ∷ w) ++ (e ∷ rest))) (i + length (c ∷ w)) 0
        ≡ pre ++ ((c ∷ w) ++ (0 ∷ rest)) =
      ap (λ xs. set xs (i + length (c ∷ w)) 0) behind
      ∙ set_append (pre ++ (c ∷ w)) rest e 0 (i + length (c ∷ w))
          (omega (arith, length-append pre (c ∷ w)))
      ∙ append_assoc pre (c ∷ w) (0 ∷ rest) in
    rw
      (
        drop_append pre ((c ∷ w) ++ (e ∷ rest)) i h,
        spaces_word (c ∷ w) (e ∷ rest) tt l,
        here,
        drop_append pre ((c ∷ w) ++ (e ∷ rest)) i h,
        word_from_word (c ∷ w) rest e l z end,
        cut,
      )
      refl

pub set_second :
    (xs ys : List ℕ) (m a v i : ℕ)
    → i ≡ length xs + 1
    → set (xs ++ (m ∷ a ∷ ys)) i v ≡ xs ++ (m ∷ v ∷ ys)
set_second [] ys m a v i h = rw h refl
set_second (x ∷ xs) ys m a v zero h = absurd (omega arith)
set_second (x ∷ xs) ys m a v (suc i) h = ap (◌∷◌ x) (set_second xs ys m a v i (omega arith))

pub read_third :
    (xs ys : List ℕ) (m a g i : ℕ) → i ≡ length xs + 2 → read (xs ++ (m ∷ a ∷ g ∷ ys)) i ≡ ok g
read_third [] ys m a g i h = rw h refl
read_third (x ∷ xs) ys m a g zero h = absurd (omega arith)
read_third (x ∷ xs) ys m a g (suc i) h = read_third xs ys m a g i (omega arith)

pub read_fourth :
    (xs ys : List ℕ) (m a g f i : ℕ)
    → i ≡ length xs + 3
    → read (xs ++ (m ∷ a ∷ g ∷ f ∷ ys)) i ≡ ok f
read_fourth [] ys m a g f i h = rw h refl
read_fourth (x ∷ xs) ys m a g f zero h = absurd (omega arith)
read_fourth (x ∷ xs) ys m a g f (suc i) h = read_fourth xs ys m a g f i (omega arith)

-- A network with a pass phrase: the texts are words with a space or a zero behind them.
pub record Network : Type 0 where
  pub ssid : List ℕ
  pub ssid_end : ℕ
  pub ssid_pad : List ℕ
  pub auth : ℕ
  pub grp : ℕ
  pub flag : ℕ
  pub keys : List ℕ
  pub secret : List ℕ
  pub secret_end : ℕ
  pub secret_pad : List ℕ

-- The bytes of the structure behind its first text.
abbrev pub members : Network → List ℕ
members n = n.keys ++ (n.secret ++ (n.secret_end ∷ n.secret_pad))

-- The bytes of the structure, with `key_mgmt` 2.
abbrev pub structure : Network → List ℕ
structure n = n.ssid ++ (n.ssid_end ∷ (n.ssid_pad ++ (2 ∷ n.auth ∷ n.grp ∷ n.flag ∷ members n)))

pub record IsNetwork (n : Network) : Type 0 where
  pub ssid : IsWord n.ssid
  pub ssid_end : (n.ssid_end == 32 || n.ssid_end == 0) ≡ true
  pub ssid_size : length n.ssid + length n.ssid_pad + 1 ≡ 32
  pub keys : length n.keys ≡ 72
  pub secret : IsWord n.secret
  pub secret_end : (n.secret_end == 32 || n.secret_end == 0) ≡ true
  pub secret_size : length n.secret + length n.secret_pad + 1 ≡ 32

-- The file of such a network.
abbrev pub psk_text : Network → List ℕ
psk_text n =
    entry_line (codes "ssid") n.ssid
    ++ (entry_line (codes "key_mgmt") (codes "WPA-PSK")
        ++ (entry_line (codes "auth_alg") (codes "OPEN") ++ entry_line (codes "psk") n.secret))

pub write_security_config_lem :
    (n : Network)
    → IsNetwork n
    → (left : List ℕ) × (write_security_config (structure n) ≡ ok (psk_text n, left))
unfolding write_security_config key_lines mgmt_line
write_security_config_lem n h =
    let front = n.ssid ++ (0 ∷ n.ssid_pad) in
    let long : length front ≡ 32 =
      omega (arith, length-append n.ssid (0 ∷ n.ssid_pad), h.ssid_size) in
    let tail = 2 ∷ n.auth ∷ n.grp ∷ n.flag ∷ members n in
    let layout : n.ssid ++ (0 ∷ (n.ssid_pad ++ tail)) ≡ front ++ tail =
      sym (append_assoc n.ssid (0 ∷ n.ssid_pad) tail) in
    let pre = front ++ (2 ∷ n.auth ∷ n.grp ∷ n.flag ∷ n.keys) in
    let rest = n.secret ++ (n.secret_end ∷ n.secret_pad) in
    let behind : front ++ tail ≡ pre ++ rest =
      sym (append_assoc front (2 ∷ n.auth ∷ n.grp ∷ n.flag ∷ n.keys) rest) in
    let at : 108 ≡ length pre =
      omega (arith, long, h.keys, length-append front (2 ∷ n.auth ∷ n.grp ∷ n.flag ∷ n.keys)) in
    let taken : strtok_at (front ++ tail) 108
        ≡ ok (n.secret, pre ++ (n.secret ++ (0 ∷ n.secret_pad))) =
      ap (λ xs. strtok_at xs 108) behind
      ∙ strtok_at_word pre n.secret n.secret_pad n.secret_end 108 at h.secret h.secret_end in
    (
      pre ++ (n.secret ++ (0 ∷ n.secret_pad)),
      rw
          (
            strtok_at_word [] n.ssid (n.ssid_pad ++ tail) n.ssid_end 0 refl h.ssid h.ssid_end,
            layout,
            read_append front 2 (n.auth ∷ n.grp ∷ n.flag ∷ members n) 32 (omega (arith, long)),
            read_third front (n.flag ∷ members n) 2 n.auth n.grp 34 (omega (arith, long)),
            taken,
          )
          refl,
    )
