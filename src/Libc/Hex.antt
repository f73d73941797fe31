-- ===== src/Libc/Hex.antt =====
-- Hexadecimal text: `isxdigit`, the conversion `%02x` of `sprintf` for a byte and `%x` of `sscanf`.
use mathlib.Core.Option
use esp8266_rtos_projects.Prelude.{
  ℕ, zero, suc, ◌+◌, ◌-◌, ◌*◌, ◌/◌, ◌%◌, ◌^◌, Bool, true, false, ◌&&◌, ◌||◌, Option, none, some, [],
  ◌∷◌, ◌++◌, Bytes, ltb, leb, ◌==◌, if◌then◌else◌, min,
}

abbrev pub is_digit : ℕ → Bool
is_digit c = leb b'0' c && leb c b'9'

abbrev pub is_xdigit : ℕ → Bool
is_xdigit c = is_digit c || ((leb b'A' c && leb c b'F') || (leb b'a' c && leb c b'f'))

-- The digit of `sprintf`'s `%x`.
abbrev pub lower_digit : ℕ → ℕ
lower_digit d = if ltb d 10 then b'0' + d else b'a' + d - 10

abbrev pub upper_digit : ℕ → ℕ
upper_digit d = if ltb d 10 then b'0' + d else b'A' + d - 10

-- `%02x` of a byte.
abbrev pub hex2 : ℕ → Bytes
hex2 b = lower_digit (b / 16) ∷ lower_digit (b % 16) ∷ []

-- So many digits of a number, the last ones.
unfoldable pub hex_digits : ℕ → ℕ → Bytes
hex_digits zero n = []
hex_digits (suc w) n = hex_digits w (n / 16) ++ lower_digit (n % 16) ∷ []

-- `%04x` of a number of 32 bits: at least four digits.
unfoldable pub hex4 : ℕ → Bytes
hex4 n =
    if ltb n 65536
    then hex_digits 4 n
    else if ltb n 1048576
    then hex_digits 5 n
    else if ltb n 16777216
    then hex_digits 6 n
    else if ltb n 268435456
    then hex_digits 7 n
    else hex_digits 8 n

abbrev pub digit_value : ℕ → ℕ
digit_value c = if leb c b'9' then c - b'0' else if leb c b'F' then c - b'A' + 10 else c - b'a' + 10

-- `isspace`
abbrev pub is_space : ℕ → Bool
is_space c = c == b' ' || (leb 9 c && leb c 13)

unfoldable pub skip_space : Bytes → Bytes
skip_space [] = []
skip_space (c ∷ s) = if is_space c then skip_space s else c ∷ s

-- The digits from the front of the text, behind `n`: their value, and what follows them.
unfoldable pub read_digits : ℕ → Bytes → ℕ × Bytes
read_digits n [] = (n, [])
read_digits n (c ∷ s) = elim (is_xdigit c) [
  | true ↦ read_digits (16 * n + digit_value c) s
  | false ↦ (n, c ∷ s)
]

-- The digits behind an optional `0x`; `none` if the text does not start with a digit. A `0x` with
-- no digit behind it reads as 0, and leaves the `x`.
unfoldable pub read_unsigned : Bytes → Option (ℕ × Bytes)
unfolding read_digits
read_unsigned [] = none
read_unsigned (c ∷ []) = if is_xdigit c then some (digit_value c, []) else none
read_unsigned (c ∷ d ∷ []) = if is_xdigit c then some (read_digits 0 (c ∷ d ∷ [])) else none
read_unsigned (c ∷ d ∷ e ∷ s) =
    if c == b'0' && ((d == b'x' || d == b'X') && is_xdigit e)
    then some (read_digits 0 (e ∷ s))
    else if is_xdigit c
    then some (read_digits 0 (c ∷ d ∷ e ∷ s))
    else none

-- `strtoul` clamps what does not fit 32 bits, and negates what does.
abbrev clamp : ℕ × Bytes → ℕ × Bytes
clamp (n, s) = (min n (2 ^ 32 - 1), s)

abbrev negate : ℕ × Bytes → ℕ × Bytes
negate (n, s) = (if ltb n (2 ^ 32) then (2 ^ 32 - n) % 2 ^ 32 else 2 ^ 32 - 1, s)

unfoldable pub read_signed : Bytes → Option (ℕ × Bytes)
unfolding read_unsigned
read_signed [] = none
read_signed (c ∷ s) =
    if c == b'-'
    then Option.map negate (read_unsigned s)
    else Option.map clamp (if c == b'+' then read_unsigned s else read_unsigned (c ∷ s))

-- `sscanf`'s `%x`: white space, a sign, a number.
unfoldable pub scan_x : Bytes → Option (ℕ × Bytes)
unfolding skip_space read_signed
scan_x s = read_signed (skip_space s)
