-- ===== src/Roaming/Pieces.antt =====
-- How long the text of a neighbour is.
use esp8266_rtos_projects.Prelude.{
  ℕ, zero, suc, ◌+◌, ◌/◌, ◌%◌, ◌≤◌, ◌≡◌, refl, false, List, [], ◌∷◌, Bytes, arith, length,
  length-append,
}
use esp8266_rtos_projects.Libc.Hex.{lower_digit, hex4, hex_digits}
use esp8266_rtos_projects.Libc.Decimal.{length-print_int-pos}
use esp8266_rtos_projects.Utils.MacAddress.{format_mac}
use esp8266_rtos_projects.Roaming.{Neighbor, Out, put, pieces, put_all}
use esp8266_rtos_projects.Roaming.Fields.{IsSmall}

length-hex_digits : (w n : ℕ) → length (hex_digits w n) ≡ w
unfolding hex_digits
length-hex_digits zero n = refl
length-hex_digits (suc w) n = ground (
  arith,
  length-append (hex_digits w (n / 16)) (lower_digit (n % 16) ∷ []),
  length-hex_digits w (n / 16),
)

length-hex4 : (n : ℕ) → length (hex4 n) ≤ 8
unfolding hex4
length-hex4 n = ground (
  arith,
  length-hex_digits 4 n,
  length-hex_digits 5 n,
  length-hex_digits 6 n,
  length-hex_digits 7 n,
  length-hex_digits 8 n,
)

length-format_mac : (mac : Bytes) → length mac ≡ 6 → length (format_mac mac) ≡ 17
length-format_mac (a ∷ b ∷ c ∷ d ∷ e ∷ f ∷ []) h = refl
length-format_mac mac h = absurd (omega arith)

abbrev pub total : List Bytes → ℕ
total [] = 0
total (p ∷ ps) = length p + total ps

pub total-pieces : (n : Neighbor) → IsSmall n → total (pieces n) ≤ 50
total-pieces n small = omega (
  arith,
  length-format_mac n.bssid small.six,
  length-hex4 n.info,
  length-print_int-pos n.op_class (omega (arith, small.op_class)),
  length-print_int-pos n.channel (omega (arith, small.channel)),
  length-print_int-pos n.phy_type (omega (arith, small.phy_type)),
)

pub put_all-fits :
    (ps : List Bytes) (out : Out)
    → out.overflow ≡ false
    → out.len + total ps ≤ 512
    → let out' = put_all ps out in (out'.overflow ≡ false) × (out'.len ≡ out.len + total ps)
unfolding put
put_all-fits [] out h room = ground arith
put_all-fits (p ∷ ps) out h room = ground (arith, put_all-fits ps (put p out))
