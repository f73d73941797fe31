-- ===== src/Utils/MacAddress.antt =====
-- `parse_mac_address`, over `sscanf`'s `%x`.
pub mod Accepts
use mathlib.Core.Option
use esp8266_rtos_projects.Prelude.{
  ℕ, zero, suc, ◌+◌, ◌-◌, ◌*◌, ◌/◌, ◌%◌, ◌^◌, ◌≤◌, ◌<◌, ◌≡◌, ◌≢◌, refl, ap, ap₂, ◌∙◌, Bool, true,
  false, not, ◌&&◌, ◌||◌, Option, none, some, List, [], ◌∷◌, ◌++◌, append_assoc, append-nil, Bytes,
  codes, leb, ltb, ◌==◌, ==_iff, ne→==, Bool-cases, inl, inr, if◌then◌else◌, length, length-append,
  map, arith, All, min,
}
use esp8266_rtos_projects.Libc.Hex.{
  is_xdigit, is_digit, lower_digit, upper_digit, hex2, digit_value, skip_space, read_digits,
  read_unsigned, read_signed, scan_x,
}

-- The values that `sscanf(str, "%x:%x: …", …)` converts with `left` conversions to come: it stops at
-- the first that fails, and at a text with no `:` where the format has one.
unfoldable pub scan_fields : ℕ → Bytes → List ℕ
scan_fields zero s = []
scan_fields (suc left) s = elim (scan_x s) [
  | none ↦ []
  | some (n, []) ↦ n ∷ []
  | some (n, c ∷ rest) ↦ elim (c == b':') [ true ↦ n ∷ scan_fields left rest | false ↦ n ∷ [] ]
]

-- `parse_mac_address`: the six bytes for `mac`, or `none` for `false`, where `mac` is untouched.
unfoldable pub parse_mac_address : Bytes → Option (List ℕ)
parse_mac_address str =
    let bytes = scan_fields 6 str in
    if length bytes == 6 then some (map (λ b. b % 256) bytes) else none

abbrev pub join_with : ℕ → List Bytes → Bytes
join_with sep [] = []
join_with sep (p ∷ []) = p
join_with sep (p ∷ q ∷ ps) = p ++ sep ∷ join_with sep (q ∷ ps)

-- "%02x:%02x:%02x:%02x:%02x:%02x"
abbrev pub format_mac : List ℕ → Bytes
format_mac mac = join_with b':' (map hex2 mac)

test_parse :
    (parse_mac_address (codes "AA:bb:0c:D:0x1E:100")
      ≡ some (0xaa ∷ 0xbb ∷ 0x0c ∷ 0x0d ∷ 0x1e ∷ 0 ∷ []))
    × (parse_mac_address (codes "AA-bb-0c-0d-1e-ff") ≡ none)
    × (parse_mac_address (codes "1:2:3:4:5:-1 and more") ≡ some (1 ∷ 2 ∷ 3 ∷ 4 ∷ 5 ∷ 255 ∷ []))
unfolding parse_mac_address scan_fields scan_x skip_space read_signed read_digits read_unsigned
test_parse = (refl, refl, refl)
