-- ===== src/Libc/Text.antt =====
-- `strstr`, `atoi` and the words of an `int`.
use esp8266_rtos_projects.Prelude.{
  ℕ, ◌+◌, ◌-◌, ◌*◌, ◌%◌, ◌≡◌, refl, Bool, true, false, ◌&&◌, Option, none, some, [], ◌∷◌, Bytes,
  codes, ltb, ◌==◌, if◌then◌else◌, min, size_mod,
}
use esp8266_rtos_projects.Libc.Hex.{is_digit, skip_space}
use esp8266_rtos_projects.Libc.Decimal.{ℤ, pos, negsuc}

abbrev pub starts_with : Bytes → Bytes → Bool
starts_with [] s = true
starts_with (p ∷ ps) [] = false
starts_with (p ∷ ps) (c ∷ s) = p == c && starts_with ps s

-- `strstr(s, key)`: the rest of `s` from the first place where `key` stands.
unfoldable pub strstr : Bytes → Bytes → Option Bytes
strstr [] key = if starts_with key [] then some [] else none
strstr (c ∷ s) key =
    let later = strstr s key in if starts_with key (c ∷ s) then some (c ∷ s) else later

-- The digits from the front, behind `n`.
unfoldable pub read_decimal : ℕ → Bytes → ℕ
read_decimal n [] = n
read_decimal n (c ∷ s) = elim (is_digit c) [
  | true ↦ read_decimal (10 * n + (c - b'0')) s
  | false ↦ n
]

-- `atoi`, as the two's complement of the number in 32 bits; newlib clamps what does not fit.
unfoldable pub atoi : Bytes → ℕ
unfolding read_decimal skip_space
atoi text = elim (skip_space text) [
  | [] ↦ 0
  | c ∷ s ↦
      if c == b'-'
      then (size_mod - min (read_decimal 0 s) 2147483648) % size_mod
      else min (read_decimal 0 (if c == b'+' then s else c ∷ s)) 2147483647
]

-- The number that an `int` of 32 bits holds.
abbrev pub int_of : ℕ → ℤ
int_of w = if ltb w 2147483648 then pos w else negsuc (size_mod - 1 - w)

test_atoi :
    (atoi (codes " 1024\r") ≡ 1024)
    × (int_of (atoi (codes "-7x")) ≡ negsuc 6)
    × (atoi (codes "99999999999") ≡ 2147483647)
unfolding atoi
test_atoi = (refl, refl, refl)
