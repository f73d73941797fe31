-- ===== src/WifiProv/Page.antt =====
-- The checks that the script of `index_html` makes before it submits the form, against what the
-- firmware does with the fields. The script counts UTF-16 units: its strings are taken as ASCII.
use esp8266_rtos_projects.Prelude.{
  ℕ, zero, suc, ◌*◌, ◌≤◌, ◌≡◌, ◌≢◌, refl, ap, ◌∙◌, Bool, true, false, ◌&&◌, ◌||◌, Option, none,
  some, List, [], ◌∷◌, Bytes, codes, ltb, ◌==◌, if◌then◌else◌, length, All, arith, le→ltb,
}
use esp8266_rtos_projects.Libc.Hex.{is_xdigit}
use esp8266_rtos_projects.Utils.UrlDecode.Encode.{is_plain, encode_byte, url_encode}
use esp8266_rtos_projects.Utils.MacAddress.{parse_mac_address}
use esp8266_rtos_projects.Utils.MacAddress.Accepts.{
  Pair, IsPair, spell, IsMacText, all_colons, values, parse_mac_address-spell,
}
use esp8266_rtos_projects.WifiProv.State.{Prov, StaConfig, send_500, esp_ok}
use esp8266_rtos_projects.WifiProv.Config.{save_config}
use esp8266_rtos_projects.WifiProv.Config.Saves.{save_config_refuses}

abbrev pub is_separator : ℕ → Bool
is_separator c = c == b':' || c == b'-'

-- The rest of `/^([0-9A-Fa-f]{2}[:-]){5}([0-9A-Fa-f]{2})$/`, with `groups` groups to come.
unfoldable pub mac_regex_test : ℕ → Bytes → Bool
mac_regex_test zero (hi ∷ lo ∷ []) = is_xdigit hi && is_xdigit lo
mac_regex_test (suc groups) (hi ∷ lo ∷ sep ∷ rest) =
    (is_xdigit hi && is_xdigit lo) && (is_separator sep && mac_regex_test groups rest)
mac_regex_test _ _ = false

unfoldable pub validate_form : Bytes → Bytes → Bool → Bytes → Bool
validate_form ssid pass bssid_check bssid =
    if length ssid == 0
    then false
    else if ltb 32 (length ssid)
    then false
    else if ltb 63 (length pass)
    then false
    else if bssid_check
    then mac_regex_test 5 bssid
    else true

-- A text that the expression matches is pairs of digits with separators.
record Matched (groups : ℕ) (s : Bytes) : Type 0 where
  first : Pair
  rest : List (ℕ × Pair)
  text : s ≡ spell first rest
  digits : IsMacText first rest
  separators : All (λ (q : ℕ × Pair). is_separator q.0 ≡ true) rest
  groups_are : length rest ≡ groups

separator-not_digit : (c : ℕ) → is_separator c ≡ true → is_xdigit c ≡ false
separator-not_digit c h = ground arith

&&-true : (a b : Bool) → (a && b) ≡ true → (a ≡ true) × (b ≡ true)
&&-true true b h = (refl, h)
&&-true false b h = cc

Matched-more :
    (groups hi lo sep : ℕ) (s : Bytes)
    → IsPair (hi, lo)
    → is_separator sep ≡ true
    → Matched groups s
    → Matched (suc groups) (hi ∷ lo ∷ sep ∷ s)
Matched-more groups hi lo sep s p h m = record {
  first = (hi, lo);
  rest = (sep, m.first) ∷ m.rest;
  text = ap (λ t. hi ∷ lo ∷ sep ∷ t) m.text;
  digits = (p, ((separator-not_digit sep h, m.digits.0), m.digits.1));
  separators = (h, m.separators);
  groups_are = ap suc m.groups_are;
}

mac_regex_test-Matched :
    (groups : ℕ) (s : Bytes) → mac_regex_test groups s ≡ true → Matched groups s
unfolding mac_regex_test
mac_regex_test-Matched zero [] h = cc
mac_regex_test-Matched zero (hi ∷ []) h = cc
mac_regex_test-Matched zero (hi ∷ lo ∷ []) h = record {
  first = (hi, lo);
  rest = [];
  text = refl;
  digits = (&&-true (is_xdigit hi) (is_xdigit lo) h, tt);
  separators = tt;
  groups_are = refl;
}
mac_regex_test-Matched zero (hi ∷ lo ∷ c ∷ s) h = cc
mac_regex_test-Matched (suc groups) [] h = cc
mac_regex_test-Matched (suc groups) (hi ∷ []) h = cc
mac_regex_test-Matched (suc groups) (hi ∷ lo ∷ []) h = cc
mac_regex_test-Matched (suc groups) (hi ∷ lo ∷ sep ∷ s) h =
    let (pair, more) = &&-true (is_xdigit hi && is_xdigit lo) _ h in
    let (sep_ok, later) = &&-true (is_separator sep) _ more in
    Matched-more groups hi lo sep s (&&-true (is_xdigit hi) (is_xdigit lo) pair) sep_ok
      (mac_regex_test-Matched groups s later)

validate_form_fields :
    (ssid pass : Bytes) (check : Bool) (bssid : Bytes)
    → validate_form ssid pass check bssid ≡ true
    → (length ssid ≤ 32) × (length pass ≤ 63) × (check ≡ true → mac_regex_test 5 bssid ≡ true)
unfolding validate_form
validate_form_fields ssid pass true bssid h = (ground arith, ground arith, λ e. ground arith)
validate_form_fields ssid pass false bssid h = (ground arith, ground arith, λ e. cc)

-- With the lock asked for, the page lets an address through only as six pairs of hexadecimal digits
-- with `:` or `-` between them, and the firmware reads it, as the bytes that the pairs spell, exactly
-- if every separator is `:`. With a `-` it reads none, and so sets no lock.
pub accepted_address :
    (ssid pass bssid : Bytes)
    → validate_form ssid pass true bssid ≡ true
    → (first : Pair) × (rest : List (ℕ × Pair)) × (bssid ≡ spell first rest)
      × All (λ (q : ℕ × Pair). is_separator q.0 ≡ true) rest
      × (length rest ≡ 5)
      × (parse_mac_address bssid ≡ (if all_colons rest then some (values first rest) else none))
accepted_address ssid pass bssid h =
    let (_, _, matches) = validate_form_fields ssid pass true bssid h in
    let m = mac_regex_test-Matched 5 bssid (matches refl) in
    (
      m.first,
      m.rest,
      m.text,
      m.separators,
      m.groups_are,
      ap parse_mac_address m.text ∙ parse_mac_address-spell m.first m.rest m.digits m.groups_are,
    )

abbrev pub IsOdd : ℕ → Type 0
IsOdd c = (is_plain c ≡ false) × (c ≢ b' ')

length-url_encode_odd : (s : Bytes) → All IsOdd s → length (url_encode s) ≡ 3 * length s
unfolding url_encode encode_byte
length-url_encode_odd [] h = omega arith
length-url_encode_odd (c ∷ s) ((odd, no_space), hs) = ground (arith, length-url_encode_odd s hs)

validate_form_accepts :
    (ssid pass : Bytes)
    → 1 ≤ length ssid
    → length ssid ≤ 32
    → length pass ≤ 63
    → validate_form ssid pass false [] ≡ true
unfolding validate_form
validate_form_accepts ssid pass some_name short fits = ground arith

-- A password of 43 to 63 bytes, none of which a form leaves as it is, passes the check of the page
-- with any name that does; but its encoding does not fit the 128 bytes of `password_encoded`, and if
-- the SDK then reports no value, the firmware answers error 500 and sets nothing.
pub long_password_refused :
    (query : Bytes → Bytes → ℕ → Option Bytes) (set_config_ok : StaConfig → Bool)
    (buf ssid pass : Bytes) (state : Prov)
    → query buf (codes "password") 128
      ≡ (if ltb (length (url_encode pass)) 128 then some (url_encode pass) else none)
    → All IsOdd pass
    → 43 ≤ length pass
    → length pass ≤ 63
    → 1 ≤ length ssid
    → length ssid ≤ 32
    → (validate_form ssid pass false [] ≡ true)
      × (save_config query set_config_ok buf state ≡ (esp_ok, state, send_500 ∷ []))
long_password_refused query set_config_ok buf ssid pass state found odd long fits named short = (
  validate_form_accepts ssid pass named short fits,
  save_config_refuses query set_config_ok buf state (
      found
      ∙ rw (le→ltb (length (url_encode pass)) 128 (omega (arith, length-url_encode_odd pass odd)))),
)
