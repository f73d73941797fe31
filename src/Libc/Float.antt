-- ===== src/Libc/Float.antt =====
-- Comparisons of a `float` with an `int`, on the bits of an IEEE single.
use esp8266_rtos_projects.Prelude.{
  ℕ, zero, suc, ◌+◌, ◌-◌, ◌*◌, ◌/◌, ◌%◌, ◌≡◌, refl, Bool, true, false, ◌&&◌, ◌||◌, not, ltb, ◌==◌,
  if◌then◌else◌,
}
use esp8266_rtos_projects.Libc.Decimal.{ℤ, pos, negsuc}

-- The bits of the `float` for `n`, below 2^24, where `n` has not fewer than `e` + 1 binary digits and
-- `p` is 2^e.
unfoldable pub float_bits : (fuel e p n : ℕ) → ℕ
float_bits zero e p n = 0
float_bits (suc fuel) e p n =
    let longer = float_bits fuel (e + 1) (2 * p) n in
    if ltb n (2 * p) then (127 + e) * 8388608 + (n - p) * (8388608 / p) else longer

-- The `float` for a number that is not negative; it has at most 24 binary digits.
unfoldable pub float_of : ℕ → ℕ
float_of n = if n == 0 then 0 else float_bits 24 0 1 n

abbrev pub is_nan : ℕ → Bool
is_nan w = ltb 2139095040 (w % 2147483648)

-- The order of singles is that of their bits without the sign, turned round where the sign is set.
unfoldable pub float_order : ℕ → ℤ
float_order w =
    if ltb w 2147483648 || w == 2147483648 then pos (w % 2147483648) else negsuc (w - 2147483649)

unfoldable pub int_order : ℤ → ℤ
int_order (pos n) = pos (float_of n)
int_order (negsuc k) = negsuc (float_of (k + 1) - 1)

abbrev pub before : ℤ → ℤ → Bool
before (pos a) (pos b) = ltb a b
before (pos a) (negsuc b) = false
before (negsuc a) (pos b) = true
before (negsuc a) (negsuc b) = ltb b a

-- `w > n` and `w < n`; neither holds of a NaN.
abbrev pub float_gt : ℕ → ℤ → Bool
float_gt w n = not (is_nan w) && before (int_order n) (float_order w)

abbrev pub float_lt : ℕ → ℤ → Bool
float_lt w n = not (is_nan w) && before (float_order w) (int_order n)

-- 1.0 is 0x3f800000, 100.5 is 0x42c90000, -40.5 is 0xc2220000.
test_float :
    (float_of 1 ≡ 1065353216)
    × (float_of 10 ≡ 1092616192)
    × (float_gt 1120468992 (pos 100) ≡ true)
    × (float_lt 3256999936 (negsuc 39) ≡ true)
    × (float_lt 3256999936 (negsuc 40) ≡ false)
    × (float_gt 2147483648 (pos 0) ≡ false)
    × (float_lt 2147483648 (pos 0) ≡ false)
unfolding float_of float_bits float_order int_order
test_float = (refl, refl, refl, refl, refl, refl, refl)
