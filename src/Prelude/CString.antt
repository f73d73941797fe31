-- ===== src/Prelude/CString.antt =====
-- Bytes and C strings: a byte is a number, a text literal is the list of its code points.
use Prim.Native.Nat.{ℕ, ◌+◌, ◌%◌, ◌^◌, compare, Ordering}
use mathlib.Core.Bool.{Bool, true, false, ◌&&◌}
use mathlib.Core.Path.{◌≡◌, refl}
use mathlib.Core.Logic.{◌≢◌}
use Prim.Native.Char.{code}
use Prim.Native.String.{String}
use native.Mathlib.Omega.{arith}
use esp8266_rtos_projects.Prelude.Lists.{All}
use mathlib.Core.List.{List, [], ◌∷◌, ◌++◌}

abbrev pub Bytes : Type 0
Bytes = List ℕ

-- The code points of a literal; these are its bytes where the text is ASCII.
abbrev pub codes : String → Bytes
codes String.[] = []
codes (String.◌∷◌ c s) = code c ∷ codes s

-- The string in an array: its bytes before the first 0.
abbrev pub c_string : Bytes → Bytes
c_string [] = []
c_string (c ∷ s) = elim (compare c 0) [ Ordering.eq ↦ [] | _ ↦ c ∷ c_string s ]

-- `strcmp(s, t) == 0`
abbrev pub str_eq : Bytes → Bytes → Bool
str_eq [] [] = true
str_eq [] (d ∷ t) = false
str_eq (c ∷ s) [] = false
str_eq (c ∷ s) (d ∷ t) = (elim (compare c d) [ Ordering.eq ↦ true | _ ↦ false ]) && str_eq s t

-- The bytes of some pieces, in order.
abbrev pub joined : List Bytes → Bytes
joined [] = []
joined (p ∷ ps) = p ++ joined ps

-- `size_t` is 32 bits wide on the ESP8266.
abbrev pub size_mod : ℕ
size_mod = 2 ^ 32

abbrev pub add_size : ℕ → ℕ → ℕ
add_size a b = (a + b) % size_mod

pub c_string-append : (s t : Bytes) → All (λ c. c ≢ 0) s → c_string (s ++ 0 ∷ t) ≡ s
c_string-append [] t h = refl
c_string-append (c ∷ s) t (hc, hs) = ground (arith, c_string-append s t hs)

pub c_string_text : (s : Bytes) → All (λ c. c ≢ 0) s → c_string s ≡ s
c_string_text [] h = refl
c_string_text (c ∷ s) (hc, h) = ground (arith, c_string_text s h)
