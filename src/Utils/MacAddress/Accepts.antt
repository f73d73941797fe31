-- ===== src/Utils/MacAddress/Accepts.antt =====
-- The addresses that the configuration page lets through, six pairs of hexadecimal digits with `:`
-- or `-` between them: which of them `parse_mac_address` reads, and as what.
use native.Mathlib.Nat.{mod-eq_of_lt}
use esp8266_rtos_projects.Prelude.{
  ℕ, suc, ◌+◌, ◌*◌, ◌/◌, ◌%◌, ◌^◌, ◌≤◌, ◌<◌, ◌≡◌, refl, ap, ap₂, ◌∙◌, Bool, true, false, ◌&&◌, ◌||◌,
  none, some, List, [], ◌∷◌, Bytes, ◌==◌, ==_iff, ne→==, Bool-cases, inl, inr, if◌then◌else◌,
  length, length-map, map, arith, All,
}
use esp8266_rtos_projects.Libc.Hex.{
  is_xdigit, lower_digit, digit_value, is_space, skip_space, read_digits, read_unsigned,
  read_signed, scan_x,
}
use esp8266_rtos_projects.Utils.MacAddress.{scan_fields, parse_mac_address, format_mac}

-- Two digits, and their value.
abbrev pub Pair : Type 0
Pair = ℕ × ℕ

abbrev pub IsPair : Pair → Type 0
IsPair (hi, lo) = (is_xdigit hi ≡ true) × (is_xdigit lo ≡ true)

abbrev pub value : Pair → ℕ
value (hi, lo) = 16 * digit_value hi + digit_value lo

-- A pair, and then pairs with a separator before each.
abbrev pub spell : Pair → List (ℕ × Pair) → Bytes
spell (hi, lo) [] = hi ∷ lo ∷ []
spell (hi, lo) ((sep, q) ∷ rest) = hi ∷ lo ∷ sep ∷ spell q rest

abbrev pub IsMacText : Pair → List (ℕ × Pair) → Type 0
IsMacText p rest = IsPair p × All (λ (q : ℕ × Pair). (is_xdigit q.0 ≡ false) × IsPair q.1) rest

abbrev pub all_colons : List (ℕ × Pair) → Bool
all_colons [] = true
all_colons ((sep, q) ∷ rest) = (sep == b':') && all_colons rest

-- What follows a number in the text.
abbrev Stops : Bytes → Type 0
Stops [] = Unit {0}
Stops (c ∷ s) = is_xdigit c ≡ false

read_digits-stop : (n : ℕ) (s : Bytes) → Stops s → read_digits n s ≡ (n, s)
unfolding read_digits
read_digits-stop n [] h = refl
read_digits-stop n (c ∷ s) h = rw (h, read_digits)

read_digits-step :
    (n c : ℕ) (s : Bytes)
    → is_xdigit c ≡ true
    → read_digits n (c ∷ s) ≡ read_digits (16 * n + digit_value c) s
unfolding read_digits
read_digits-step n c s h = rw (h, read_digits)

read_digits-pair :
    (hi lo : ℕ) (s : Bytes)
    → IsPair (hi, lo)
    → Stops s
    → read_digits 0 (hi ∷ lo ∷ s) ≡ (value (hi, lo), s)
read_digits-pair hi lo s (h, l) stop =
    read_digits-step 0 hi (lo ∷ s) h
    ∙ read_digits-step _ lo s l
    ∙ read_digits-stop _ s stop
    ∙ ap (λ n. (n, s)) (omega arith)

digit-not_x : (c : ℕ) → is_xdigit c ≡ true → (c == b'x' || c == b'X') ≡ false
digit-not_x c h = ground arith

digit-not_sign :
    (c : ℕ)
    → is_xdigit c ≡ true
    → ((c == b'-') ≡ false) × ((c == b'+') ≡ false) × (is_space c ≡ false)
digit-not_sign c h = (ground arith, ground arith, ground arith)

digit_value-lt : (c : ℕ) → is_xdigit c ≡ true → digit_value c < 16
digit_value-lt c h = ground arith

read_unsigned-pair :
    (hi lo : ℕ) (s : Bytes)
    → IsPair (hi, lo)
    → read_unsigned (hi ∷ lo ∷ s) ≡ some (read_digits 0 (hi ∷ lo ∷ s))
unfolding read_unsigned
read_unsigned-pair hi lo [] (h, l) = rw (h, read_unsigned)
read_unsigned-pair hi lo (e ∷ s) (h, l) = ground (arith, digit-not_x lo l)

read_signed-unsigned :
    (c : ℕ) (s : Bytes) (n : ℕ) (rest : Bytes)
    → is_xdigit c ≡ true
    → n < 2 ^ 32
    → read_unsigned (c ∷ s) ≡ some (n, rest)
    → read_signed (c ∷ s) ≡ some (n, rest)
unfolding read_signed
read_signed-unsigned c s n rest h small e =
    let (minus, plus, _) = digit-not_sign c h in
    rw (minus, plus, e, read_signed) (ap (λ k. some (k, rest)) (omega arith))

scan_x-pair :
    (hi lo : ℕ) (s : Bytes)
    → IsPair (hi, lo)
    → Stops s
    → scan_x (hi ∷ lo ∷ s) ≡ some (value (hi, lo), s)
unfolding scan_x skip_space
scan_x-pair hi lo s (h, l) stop =
    rw ((digit-not_sign hi h).2, skip_space)
      (read_signed-unsigned hi (lo ∷ s) (value (hi, lo)) s h
        (omega (arith, digit_value-lt hi h, digit_value-lt lo l))
        (read_unsigned-pair hi lo s (h, l) ∙ ap some (read_digits-pair hi lo s (h, l) stop)))

-- What `sscanf` converts: the values up to the first separator that is no `:`.
converted : Pair → List (ℕ × Pair) → List ℕ
converted p [] = value p ∷ []
converted p ((sep, q) ∷ rest) = elim (sep == b':') [
  | true ↦ value p ∷ converted q rest
  | false ↦ value p ∷ []
]

scan_fields-spell :
    (p : Pair) (rest : List (ℕ × Pair))
    → IsMacText p rest
    → scan_fields (suc (length rest)) (spell p rest) ≡ converted p rest
unfolding scan_fields converted
scan_fields-spell (hi, lo) [] (hp, _) = rw (scan_x-pair hi lo [] hp tt, scan_fields)
scan_fields-spell (hi, lo) ((sep, q) ∷ rest) (hp, ((hs, hq), hr)) =
    let ih = scan_fields-spell q rest (hq, hr) in
    rw (scan_x-pair hi lo (sep ∷ spell q rest) hp hs, scan_fields)
      (elim (Bool-cases (sep == b':')) [
        | inl colon ↦ rw (colon, converted) (ap (λ r. value (hi, lo) ∷ r) ih)
        | inr other ↦ rw (other, converted) refl
      ])

abbrev pub values : Pair → List (ℕ × Pair) → List ℕ
values p rest = value p ∷ map (λ (q : ℕ × Pair). value q.1) rest

converted-values :
    (p : Pair) (rest : List (ℕ × Pair)) → all_colons rest ≡ true → converted p rest ≡ values p rest
unfolding converted
converted-values p [] h = refl
converted-values p ((sep, q) ∷ rest) h = ground (arith, converted-values q rest)

length-converted :
    (p : Pair) (rest : List (ℕ × Pair))
    → all_colons rest ≡ false
    → length (converted p rest) ≤ length rest
unfolding converted
length-converted p [] h = cc
length-converted p ((sep, q) ∷ rest) h = ground (arith, length-converted q rest)

value-lt : (p : Pair) → IsPair p → value p < 256
value-lt (hi, lo) (h, l) = omega (arith, digit_value-lt hi h, digit_value-lt lo l)

length-values : (p : Pair) (rest : List (ℕ × Pair)) → length (values p rest) ≡ suc (length rest)
length-values p rest = ap suc (length-map rest (λ (q : ℕ × Pair). value q.1))

low_bytes :
    (p : Pair) (rest : List (ℕ × Pair))
    → IsMacText p rest
    → map (λ b. b % 256) (values p rest) ≡ values p rest
low_bytes p [] (hp, _) = ap (λ b. b ∷ []) (mod-eq_of_lt (value-lt p hp))
low_bytes p ((sep, q) ∷ rest) (hp, ((hs, hq), hr)) =
    ap₂ ◌∷◌ (mod-eq_of_lt (value-lt p hp)) (low_bytes q rest (hq, hr))

parse_mac_address_fields :
    (str : Bytes) {fields : List ℕ}
    → scan_fields 6 str ≡ fields
    → parse_mac_address str
      ≡ (if length fields == 6 then some (map (λ b. b % 256) fields) else none)
unfolding parse_mac_address
parse_mac_address_fields str e = rw e

-- Of the texts of six pairs of hexadecimal digits with one separator between each two, digits of
-- either case, `parse_mac_address` reads those whose separators are all `:`, as the bytes that the
-- pairs spell, and refuses every other.
pub parse_mac_address-spell :
    (p : Pair) (rest : List (ℕ × Pair))
    → IsMacText p rest
    → length rest ≡ 5
    → parse_mac_address (spell p rest) ≡ (if all_colons rest then some (values p rest) else none)
parse_mac_address-spell p rest h five =
    parse_mac_address_fields (spell p rest)
      (ap (λ k. scan_fields k (spell p rest)) (omega arith) ∙ scan_fields-spell p rest h)
    ∙ elim (Bool-cases (all_colons rest)) [
      | inl yes_all ↦
          rw (yes_all, converted-values p rest yes_all)
            (rw ((==_iff (length (values p rest)) 6).1 (omega (arith, length-values p rest)))
              (ap some (low_bytes p rest h)))
      | inr not_all ↦ rw (
        not_all,
        ne→== (length (converted p rest)) 6 (omega (arith, length-converted p rest not_all)),
      )
    ]

pair_of : ℕ → Pair
pair_of b = (lower_digit (b / 16), lower_digit (b % 16))

lower_digit-xdigit :
    (d : ℕ) → d < 16 → (is_xdigit (lower_digit d) ≡ true) × (digit_value (lower_digit d) ≡ d)
lower_digit-xdigit d h = (ground arith, ground arith)

pair_of-IsPair : (b : ℕ) → b < 256 → IsPair (pair_of b) × (value (pair_of b) ≡ b)
unfolding pair_of
pair_of-IsPair b h =
    let (x, vx) = lower_digit-xdigit (b / 16) (omega arith) in
    let (y, vy) = lower_digit-xdigit (b % 16) (omega arith) in ((x, y), omega (arith, vx, vy))

abbrev colon_pairs : List ℕ → List (ℕ × Pair)
colon_pairs [] = []
colon_pairs (b ∷ mac) = (b':', pair_of b) ∷ colon_pairs mac

format_mac-spell :
    (b : ℕ) (mac : List ℕ) → format_mac (b ∷ mac) ≡ spell (pair_of b) (colon_pairs mac)
unfolding pair_of
format_mac-spell b [] = refl
format_mac-spell b (c ∷ mac) =
    ap (λ s. lower_digit (b / 16) ∷ lower_digit (b % 16) ∷ b':' ∷ s) (format_mac-spell c mac)

colon_pairs-IsMacText :
    (b : ℕ) (mac : List ℕ)
    → All (λ c. c < 256) (b ∷ mac)
    → IsMacText (pair_of b) (colon_pairs mac)
      × (values (pair_of b) (colon_pairs mac) ≡ b ∷ mac)
      × (all_colons (colon_pairs mac) ≡ true)
      × (length (colon_pairs mac) ≡ length mac)
colon_pairs-IsMacText b [] (hb, _) =
    let (is_pair, same) = pair_of-IsPair b hb in ((is_pair, tt), ap (λ n. n ∷ []) same, refl, refl)
colon_pairs-IsMacText b (c ∷ mac) (hb, h) =
    let (is_pair, same) = pair_of-IsPair b hb in
    let ((pc, rest), vs, cs, ls) = colon_pairs-IsMacText c mac h in
    ((is_pair, ((refl, pc), rest)), ap₂ ◌∷◌ same vs, cs, ap suc ls)

-- An address printed as the scan page gets it, `%02x` six times with `:`, is read back.
pub parse_mac_address-format_mac :
    (b : ℕ) (mac : List ℕ)
    → All (λ c. c < 256) (b ∷ mac)
    → length mac ≡ 5
    → parse_mac_address (format_mac (b ∷ mac)) ≡ some (b ∷ mac)
parse_mac_address-format_mac b mac h five =
    let (text, vs, cs, ls) = colon_pairs-IsMacText b mac h in
    rw
      (
        format_mac-spell b mac,
        parse_mac_address-spell (pair_of b) (colon_pairs mac) text (ls ∙ five),
        cs,
      )
      (ap some vs)
