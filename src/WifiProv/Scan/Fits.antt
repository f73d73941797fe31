-- ===== src/WifiProv/Scan/Fits.antt =====
-- `json_buf` has 128 bytes for each record and ten more: the text never leaves it.
use esp8266_rtos_projects.Prelude.{
  ℕ, ◌+◌, ◌*◌, ◌≤◌, ◌<◌, ◌≡◌, ap, List, [], ◌∷◌, Bytes, length, length-append, All, arith,
}
use esp8266_rtos_projects.Libc.Decimal.{
  ℤ, pos, negsuc, print_int, length-print_int-pos, length-print_int-neg,
}
use esp8266_rtos_projects.Utils.MacAddress.{format_mac}
use esp8266_rtos_projects.WifiProv.Scan.{
  ApRecord, ap_object, json_loop, drop_last, close_list, scan_json,
}
use esp8266_rtos_projects.WifiProv.Scan.Json.{added, json_loop-added}

abbrev pub IsInt8 : ℤ → Type 0
IsInt8 (pos n) = n < 128
IsInt8 (negsuc n) = n < 128

-- What the SDK promises of a record: a name of at most 32 bytes, a signed byte for the strength,
-- one of the few security modes, and an address of six bytes.
pub record IsRecord (ap : ApRecord) : Type 0 where
  pub named : length ap.ssid ≤ 32
  pub strength : IsInt8 ap.rssi
  pub mode : ap.authmode < 1000
  pub address : length ap.bssid ≡ 6

-- The size that is passed to `malloc`.
abbrev pub capacity : ℕ → ℕ
capacity ap_count = ap_count * 128 + 10

length-rssi : (n : ℤ) → IsInt8 n → length (print_int n) ≤ 4
length-rssi (pos n) h = omega (arith, length-print_int-pos n (omega arith))
length-rssi (negsuc n) h = length-print_int-neg n (omega arith)

pub length-format_mac : (b : ℕ) (mac : List ℕ) → length (format_mac (b ∷ mac)) ≡ 2 + 3 * length mac
length-format_mac b [] = omega arith
length-format_mac b (c ∷ mac) = omega (arith, length-format_mac c mac)

length-address : (mac : List ℕ) → length mac ≡ 6 → length (format_mac mac) ≡ 17
length-address [] h = absurd (omega arith)
length-address (b ∷ mac) h = omega (arith, length-format_mac b mac)

length-ap_object : (ap : ApRecord) → IsRecord ap → length (ap_object ap) ≤ 94
unfolding ap_object
length-ap_object ap h = simp length-append (
    omega (
      arith,
      length-rssi ap.rssi h.strength,
      length-print_int-pos ap.authmode h.mode,
      length-address ap.bssid h.address,
    ))

length-added : (aps : List ApRecord) → All IsRecord aps → length (added aps) ≤ 95 * length aps
unfolding added
length-added [] h = omega arith
length-added (ap ∷ []) h = ground (arith, length-ap_object ap h.0)
length-added (ap ∷ next ∷ rest) h = ground (
  arith,
  length-ap_object ap h.0,
  length-added (next ∷ rest) h.1,
  length-append (ap_object ap) (b',' ∷ added (next ∷ rest)),
)

length-drop_last : (s : Bytes) → length (drop_last s) ≤ length s
length-drop_last [] = omega arith
length-drop_last (c ∷ []) = omega arith
length-drop_last (c ∷ d ∷ s) = omega (arith, length-drop_last (d ∷ s))

length-close_list : (s : Bytes) → length (close_list s) ≤ length s + 1
unfolding close_list
length-close_list s = ground (
  arith,
  length-drop_last s,
  length-append (drop_last s) (b']' ∷ []),
  length-append s (b']' ∷ []),
)

-- With records that keep the SDK's promises, the text before the closing bracket and the whole text
-- fit the buffer, their terminators included.
pub scan_json-fits :
    (aps : List ApRecord)
    → All IsRecord aps
    → (length (json_loop (length aps) 0 aps (b'[' ∷ [])) + 1 ≤ capacity (length aps))
      × (length (scan_json aps) + 1 ≤ capacity (length aps))
unfolding scan_json
scan_json-fits aps h =
    let text = json_loop (length aps) 0 aps (b'[' ∷ []) in
    let grown : length text ≤ 1 + 95 * length aps = omega (
      arith,
      ap length (json_loop-added (length aps) 0 aps (b'[' ∷ []) (omega arith)),
      length-added aps h,
    ) in
    (omega (arith, grown), omega (arith, grown, length-close_list text))
