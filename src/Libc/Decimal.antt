-- ===== src/Libc/Decimal.antt =====
-- The conversion `%d` of `sprintf`.
use esp8266_rtos_projects.Prelude.{
  ℕ, zero, suc, ◌+◌, ◌/◌, ◌%◌, ◌≤◌, ◌<◌, ◌≡◌, refl, [], ◌∷◌, ◌++◌, Bytes, codes, ltb, if◌then◌else◌,
  length, length-append, arith,
}

-- `negsuc n` is -(n + 1).
pub data ℤ : Type 0 where
  pos : ℕ → ℤ
  negsuc : ℕ → ℤ

-- The decimal digits of `n`, at most `fuel` of them; an `int` has at most ten.
unfoldable pub digits : ℕ → ℕ → Bytes
digits zero n = []
digits (suc fuel) n =
    let shorter = digits fuel (n / 10) ++ (b'0' + n % 10) ∷ [] in
    if ltb n 10 then (b'0' + n) ∷ [] else shorter

abbrev pub int_digits : ℕ
int_digits = 10

unfoldable pub print_int : ℤ → Bytes
unfolding digits
print_int (pos n) = digits int_digits n
print_int (negsuc n) = b'-' ∷ digits int_digits (n + 1)

test_print : (print_int (pos 0) ≡ codes "0") × (print_int (negsuc 127) ≡ codes "-128")
unfolding print_int
test_print = (refl, refl)

digits-snoc : (fuel n : ℕ) → length (digits (suc fuel) n) ≤ length (digits fuel (n / 10)) + 1
unfolding digits
digits-snoc fuel n = ground (arith, length-append (digits fuel (n / 10)) ((b'0' + n % 10) ∷ []))

length-digits1 : (fuel n : ℕ) → n < 10 → length (digits fuel n) ≤ 1
unfolding digits
length-digits1 zero n h = omega arith
length-digits1 (suc fuel) n h = ground arith

length-digits2 : (fuel n : ℕ) → n < 100 → length (digits fuel n) ≤ 2
length-digits2 zero n h = unfold digits in omega arith
length-digits2 (suc fuel) n h =
    omega (arith, digits-snoc fuel n, length-digits1 fuel (n / 10) (omega arith))

length-digits3 : (fuel n : ℕ) → n < 1000 → length (digits fuel n) ≤ 3
length-digits3 zero n h = unfold digits in omega arith
length-digits3 (suc fuel) n h =
    omega (arith, digits-snoc fuel n, length-digits2 fuel (n / 10) (omega arith))

pub length-print_int-pos : (n : ℕ) → n < 1000 → length (print_int (pos n)) ≤ 3
unfolding print_int
length-print_int-pos n h = length-digits3 int_digits n h

pub length-print_int-neg : (n : ℕ) → n < 999 → length (print_int (negsuc n)) ≤ 4
unfolding print_int
length-print_int-neg n h = omega (arith, length-digits3 int_digits (n + 1))
