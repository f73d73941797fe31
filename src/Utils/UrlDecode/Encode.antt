-- ===== src/Utils/UrlDecode/Encode.antt =====
-- What a browser does to a form field, and that `url_decode` undoes it.
use esp8266_rtos_projects.Prelude.{
  ℕ, zero, suc, ◌+◌, ◌-◌, ◌*◌, ◌/◌, ◌%◌, ◌<◌, ◌≡◌, ◌≢◌, refl, ap, ◌∙◌, Bool, true, ◌&&◌, ◌||◌, [],
  ◌∷◌, ◌++◌, Bytes, leb, ◌==◌, ==_iff, ne→==, Bool-cases, inl, inr, if◌then◌else◌, get_or,
  drop_append, sym, take, length, size_mod, arith, All,
}
use esp8266_rtos_projects.Libc.Hex.{is_xdigit, is_digit, upper_digit}
use esp8266_rtos_projects.Utils.UrlDecode.{hex_value, decode_step, decode_loop, url_decode}

-- The bytes that a form's encoding leaves as they are.
abbrev pub is_plain : ℕ → Bool
is_plain c =
    is_digit c
    || ((leb b'A' c && leb c b'Z')
        || ((leb b'a' c && leb c b'z') || (c == b'*' || (c == b'-' || (c == b'.' || c == b'_')))))

unfoldable pub encode_byte : ℕ → Bytes
encode_byte c =
    if is_plain c
    then c ∷ []
    else if c == b' '
    then b'+' ∷ []
    else b'%' ∷ upper_digit (c / 16) ∷ upper_digit (c % 16) ∷ []

-- `application/x-www-form-urlencoded`
unfoldable pub url_encode : Bytes → Bytes
url_encode [] = []
url_encode (c ∷ s) = encode_byte c ++ url_encode s

abbrev pub IsChar : ℕ → Type 0
IsChar c = (c ≢ 0) × (c < 256)

hex_value-upper_digit : (d : ℕ) → d < 16 → hex_value (upper_digit d) ≡ d
unfolding hex_value
hex_value-upper_digit d h = ground arith

upper_digit-xdigit : (d : ℕ) → d < 16 → (is_xdigit (upper_digit d) ≡ true) × (upper_digit d ≢ 0)
upper_digit-xdigit d h = ground arith

decode_step-escape :
    (a b : ℕ) (rest : Bytes)
    → (is_xdigit a ≡ true) × (a ≢ 0)
    → (is_xdigit b ≡ true) × (b ≢ 0)
    → decode_step (b'%' ∷ a ∷ b ∷ rest) ≡ (16 * hex_value a + hex_value b, 3)
unfolding decode_step
decode_step-escape a b rest (xa, na) (xb, nb) = rw (xa, xb, ne→== a 0 na, ne→== b 0 nb)

decode_step-plain : (c : ℕ) (rest : Bytes) → c ≢ b'%' → c ≢ b'+' → decode_step (c ∷ rest) ≡ (c, 1)
unfolding decode_step
decode_step-plain c rest h k = rw (ne→== c b'%' h, ne→== c b'+' k)

is_plain-ne : (c : ℕ) → is_plain c ≡ true → (c ≢ b'%') × (c ≢ b'+')
is_plain-ne c h = ground arith

decode_step-encode_byte :
    (c : ℕ) (rest : Bytes)
    → c < 256
    → decode_step (encode_byte c ++ rest) ≡ (c, length (encode_byte c))
unfolding encode_byte
decode_step-encode_byte c rest small = elim (Bool-cases (is_plain c)) [
  | inl plain ↦ let (h, k) = is_plain-ne c plain in rw plain (decode_step-plain c rest h k)
  | inr other ↦ rw other (elim (Bool-cases (c == b' ')) [
    | inl space ↦ rw space (unfold decode_step in ap (λ k. (k, 1)) (sym ((==_iff c b' ').0 space)))
    | inr odd ↦ rw odd (
        decode_step-escape _ _ rest (upper_digit-xdigit (c / 16) (omega arith))
          (upper_digit-xdigit (c % 16) (omega arith))
        ∙ ap (λ n. (n, 3))
            (omega (
              arith,
              hex_value-upper_digit (c / 16) (omega arith),
              hex_value-upper_digit (c % 16) (omega arith),
            )))
  ])
]

encode_byte-head : (c : ℕ) (rest : Bytes) → c ≢ 0 → get_or (encode_byte c ++ rest) 0 0 ≢ 0
unfolding encode_byte
encode_byte-head c rest h = ground arith

decode_loop-cons :
    (room c : ℕ) (rest : Bytes)
    → IsChar c
    → decode_loop (suc room) (encode_byte c ++ rest) ≡ c ∷ decode_loop room rest
unfolding decode_loop
decode_loop-cons room c rest (nonzero, small) = rw (
  ne→== (get_or (encode_byte c ++ rest) 0 0) 0 (encode_byte-head c rest nonzero),
  decode_step-encode_byte c rest small,
  drop_append (encode_byte c) rest,
)

decode_loop-zero : (src : Bytes) → decode_loop 0 src ≡ []
unfolding decode_loop
decode_loop-zero src = refl

decode_loop-nil : (room : ℕ) → decode_loop room [] ≡ []
unfolding decode_loop
decode_loop-nil zero = refl
decode_loop-nil (suc room) = refl

decode_loop-url_encode :
    (room : ℕ) (s : Bytes) → All IsChar s → decode_loop room (url_encode s) ≡ take room s
unfolding url_encode
decode_loop-url_encode zero s h = decode_loop-zero _
decode_loop-url_encode (suc room) [] h = decode_loop-nil (suc room)
decode_loop-url_encode (suc room) (c ∷ s) (hc, hs) =
    decode_loop-cons room c (url_encode s) hc ∙ ap (λ r. c ∷ r) (decode_loop-url_encode room s hs)

-- `url_decode` undoes the encoding of a form field of any bytes but 0, cut to the `dst_len - 1`
-- bytes for which `dst` has room, and terminates it.
pub url_decode-url_encode :
    (s : Bytes) (dst_len : ℕ)
    → All IsChar s
    → 0 < dst_len
    → dst_len < size_mod
    → url_decode (url_encode s) dst_len ≡ take (dst_len - 1) s ++ 0 ∷ []
unfolding url_decode
url_decode-url_encode s dst_len h pos small =
    ap (λ r. r ++ 0 ∷ [])
      (decode_loop-url_encode ((dst_len + size_mod - 1) % size_mod) s h
        ∙ ap (λ k. take k s) (omega arith))
