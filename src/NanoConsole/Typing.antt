-- ===== src/NanoConsole/Typing.antt =====
-- What typing leaves in the buffer.
use mathlib.Core.Path.{subst}
use esp8266_rtos_projects.Prelude.{
  ℕ, zero, suc, ◌+◌, ◌-◌, ◌≤◌, ◌<◌, ◌≡◌, ◌≢◌, ◌⊎◌, inl, inr, refl, sym, ap, ◌∙◌, Bool, true, Option,
  some, List, [], ◌∷◌, ◌++◌, append_assoc, append-nil, Bytes, ◌==◌, ne→==, if◌then◌else◌, length,
  length-append, length-set, map, take, take-set, get_or, set, All, arith,
}
use esp8266_rtos_projects.NanoConsole.{Console, on_char, nc_loop, nc_read_buf}

-- The buffer starts with the text `t`, and no byte of it is a blank.
pub record Typed (s : Console) (t : Bytes) : Type 0 where
  pub at : s.num ≡ length t
  pub holds : take s.num s.pbuf ≡ t
  pub size : length s.pbuf ≡ nc_read_buf
  pub no_blank : All (λ c. c ≢ b' ') s.pbuf

-- A character that a word may have.
pub record IsPlain (c : ℕ) : Type 0 where
  pub ascii : c < 127
  pub not_nul : c ≢ 0
  pub not_cr : c ≢ b'\r'
  pub not_lf : c ≢ b'\n'
  pub not_blank : c ≢ b' '
  pub not_back : c ≢ 8

All-set {ℓ κ} :
    {A : Type ℓ} (P : A → Type κ) (xs : List A) (i : ℕ) (v : A)
    → P v
    → All P xs
    → All P (set xs i v)
All-set P [] i v p h = h
All-set P (x ∷ xs) zero v p h = (p, h.1)
All-set P (x ∷ xs) (suc i) v p h = (h.0, All-set P xs i v p h.1)

get_or-All {ℓ κ} :
    {A : Type ℓ} (P : A → Type κ) (xs : List A) (i : ℕ) (d : A) → P d → All P xs → P (get_or xs i d)
get_or-All P [] i d p h = p
get_or-All P (x ∷ xs) zero d p h = h.0
get_or-All P (x ∷ xs) (suc i) d p h = get_or-All P xs i d p h.1

abbrev pub put : ℕ → Console → Console
put c s = record { num = s.num + 1; pbuf = set s.pbuf s.num c }

pub put-Typed :
    (c : ℕ) (s : Console) (t : Bytes)
    → c ≢ b' '
    → length t < nc_read_buf
    → Typed s t
    → Typed (put c s) (t ++ c ∷ [])
put-Typed c s t other room h = record {
  at = omega (arith, h.at, length-append t (c ∷ []));
  holds =
      ap (λ k. take k (set s.pbuf s.num c)) {x = s.num + 1} {y = suc s.num} (omega arith)
      ∙ take-set s.num s.pbuf c (omega (arith, h.at, h.size))
      ∙ ap (λ b. b ++ c ∷ []) h.holds;
  size = length-set s.pbuf s.num c ∙ h.size;
  no_blank = All-set (λ b. b ≢ b' ') s.pbuf s.num c other h.no_blank;
}

module _ (cmds : List Bytes) (s : Console) (t : Bytes) (room : length t < nc_read_buf - 1)
    (h : Typed s t) where
  pub type_plain : (c : ℕ) → IsPlain c → on_char cmds true c s ≡ (put c s, [])
  unfolding on_char
  type_plain c p = ground (arith, h.at, p.ascii, p.not_cr, p.not_lf, p.not_blank, p.not_back)

  type_blank : 1 ≤ length t → on_char cmds true b' ' s ≡ (put 0 s, [])
  unfolding on_char
  type_blank some_text =
      ground (arith, h.at, get_or-All (λ c. c ≢ b' ') s.pbuf s.num 0 (λ e. cc) h.no_blank)

-- What a key leaves.
abbrev pub left_by : ℕ → ℕ
left_by k = if k == b' ' then 0 else k

abbrev pub IsKey : ℕ → Type 0
IsKey k = IsPlain k ⊎ (k ≡ b' ')

abbrev pub typing : Bytes → List (Option ℕ × Bool)
typing = map (λ k. (some k, true))

type_key :
    (cmds : List Bytes) (s : Console) (t : Bytes) (k : ℕ)
    → 1 ≤ length t
    → length t < nc_read_buf - 1
    → IsKey k
    → Typed s t
    → on_char cmds true k s ≡ (put (left_by k) s, [])
type_key cmds s t k some_text room (inl p) h =
    rw (ne→== k b' ' p.not_blank) (type_plain cmds s t room h k p)
type_key cmds s t k some_text room (inr e) h = rw e (type_blank cmds s t room h some_text)

left_by-not_blank : (k : ℕ) → left_by k ≢ b' '
left_by-not_blank k = ground arith

-- Keys after some text, with more input to come.
pub type_keys :
    (cmds : List Bytes) (ks : Bytes) (rest : List (Option ℕ × Bool)) (s : Console) (t : Bytes)
    → All IsKey ks
    → 1 ≤ length t
    → length t + length ks ≤ nc_read_buf - 1
    → Typed s t
    → (s' : Console) × (nc_loop cmds (typing ks ++ rest) s ≡ nc_loop cmds rest s')
      × Typed s' (t ++ map left_by ks)
unfolding nc_loop
type_keys cmds [] rest s t hk some_text room h =
    (s, refl, subst (λ b. Typed s b) (sym (append-nil t)) h)
type_keys cmds (k ∷ ks) rest s t (key, hk) some_text room h =
    let (s', same, typed) =
      type_keys cmds ks rest (put (left_by k) s) (t ++ left_by k ∷ []) hk
        (omega (arith, length-append t (left_by k ∷ [])))
        (omega (arith, length-append t (left_by k ∷ [])))
        (put-Typed (left_by k) s t (left_by-not_blank k) (omega arith) h) in
    (
      s',
      rw (nc_loop, type_key cmds s t k some_text (omega arith) key h) same,
      subst (λ b. Typed s' b) (append_assoc t (left_by k ∷ []) (map left_by ks)) typed,
    )
