-- ===== src/Utils/UrlDecode.antt =====
-- `url_decode`. A C string is the list of its bytes before the terminator, and `char` is unsigned,
-- as it is for the ESP8266's compiler.
pub mod Encode
use esp8266_rtos_projects.Prelude.{
  ℕ, zero, suc, ◌+◌, ◌-◌, ◌*◌, ◌%◌, ◌≤◌, ◌<◌, ◌≡◌, ◌≢◌, refl, Bool, not, ◌&&◌, List, [], ◌∷◌, ◌++◌,
  Bytes, codes, leb, ◌==◌, if◌then◌else◌, get_or, drop, length, length-append, size_mod, arith,
}
use esp8266_rtos_projects.Libc.Hex.{is_xdigit}

-- Lines 19 to 24: the value of a hexadecimal digit.
unfoldable pub hex_value : ℕ → ℕ
hex_value a =
    let a' = if leb b'a' a then a - (b'a' - b'A') else a in
    if leb b'A' a' then a' - (b'A' - 10) else a' - b'0'

-- One round of the loop at `src`: the byte for `dst`, and how far `src` moves. Past its end the
-- string has its terminator, 0.
unfoldable pub decode_step : Bytes → ℕ × ℕ
decode_step src =
    let c = get_or src 0 0 in
    let a = get_or src 1 0 in
    let b = get_or src 2 0 in
    if c == b'%' && ((not (a == 0) && not (b == 0)) && (is_xdigit a && is_xdigit b))
    then (16 * hex_value a + hex_value b, 3)
    else if c == b'+'
    then (b' ', 1)
    else (c, 1)

-- The loop, with `room` bytes left in `dst` before the terminator.
unfoldable pub decode_loop : ℕ → Bytes → Bytes
decode_loop zero src = []
decode_loop (suc room) src =
    let (byte, used) = decode_step src in
    let rest = byte ∷ decode_loop room (drop used src) in if get_or src 0 0 == 0 then [] else rest

-- What `url_decode` leaves in `dst`, its terminator included. `dst_len - 1` wraps.
unfoldable pub url_decode : Bytes → ℕ → Bytes
unfolding decode_loop
url_decode src dst_len = decode_loop ((dst_len + size_mod - 1) % size_mod) src ++ 0 ∷ []

test_escape : url_decode (codes "a%2Fb+c%4g%") 33 ≡ codes "a/b c%4g%" ++ 0 ∷ []
unfolding url_decode decode_step hex_value
test_escape = refl

length-decode_loop : (room : ℕ) (src : Bytes) → length (decode_loop room src) ≤ room
unfolding decode_loop
length-decode_loop zero src = omega arith
length-decode_loop (suc room) src =
    ground (arith, length-decode_loop room (drop (decode_step src).1 src))

-- The writes of `url_decode`, the terminator included, stay within the `dst_len` bytes of `dst`,
-- whatever the text is.
pub length-url_decode :
    (src : Bytes) (dst_len : ℕ)
    → 0 < dst_len
    → dst_len < size_mod
    → length (url_decode src dst_len) ≤ dst_len
unfolding url_decode
length-url_decode src dst_len pos small =
    let room = (dst_len + size_mod - 1) % size_mod in
    omega (arith, length-append (decode_loop room src) (0 ∷ []), length-decode_loop room src)

-- A round of the loop that starts before the terminator never moves past it, whatever bytes
-- follow a `%`.
pub decode_step-used : (src : Bytes) → get_or src 0 0 ≢ 0 → (decode_step src).1 ≤ length src
unfolding decode_step
decode_step-used [] h = absurd (h refl)
decode_step-used (c ∷ []) h = ground arith
decode_step-used (c ∷ a ∷ []) h = ground arith
decode_step-used (c ∷ a ∷ b ∷ s) h = ground arith
