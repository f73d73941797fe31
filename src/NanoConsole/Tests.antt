-- ===== src/NanoConsole/Tests.antt =====
-- The theorems on the console at a concrete line.
use esp8266_rtos_projects.Prelude.{
  ℕ, zero, suc, ◌≡◌, ◌≢◌, refl, Bool, true, not, ◌&&◌, ltb, ◌==◌, some, List, [], ◌∷◌, ◌++◌, Bytes,
  codes, replicate, All, arith,
}
use esp8266_rtos_projects.NanoConsole.{nc_thread_entry}
use esp8266_rtos_projects.NanoConsole.Typing.{IsPlain, typing}
use esp8266_rtos_projects.NanoConsole.Line.{called, nc_thread_entry-words}

abbrev commands : List Bytes
commands = codes "tx" ∷ codes "rx" ∷ []

abbrev block : Bytes
block = replicate 128 0

abbrev plain : ℕ → Bool
plain c =
    ltb c 127
    && (not (c == 0) && (not (c == 13) && (not (c == 10) && (not (c == 32) && not (c == 8)))))

abbrev all_plain : Bytes → Bool
all_plain [] = true
all_plain (c ∷ s) = plain c && all_plain s

All-IsPlain : (s : Bytes) → all_plain s ≡ true → All IsPlain s
All-IsPlain [] h = tt
All-IsPlain (c ∷ s) h = (
  record {
    ascii = ground arith;
    not_nul = ground arith;
    not_cr = ground arith;
    not_lf = ground arith;
    not_blank = ground arith;
    not_back = ground arith;
  },
  All-IsPlain s (ground arith),
)

no_blank : (n : ℕ) → All (λ (c : ℕ). c ≢ b' ') (replicate n 0)
no_blank zero = tt
no_blank (suc n) = ((λ e. omega (arith, e)), no_blank n)

nc_thread_entry-words_example :
    nc_thread_entry commands (some block) (typing (codes "rx 11 go") ++ (some b'\n', true) ∷ [])
    ≡ called commands (codes "rx") (codes "11" ∷ codes "go" ∷ [])
nc_thread_entry-words_example =
    nc_thread_entry-words commands block (codes "rx") (codes "11" ∷ codes "go" ∷ []) refl
      (no_blank 128)
      (
        ((λ e. cc), All-IsPlain (codes "rx") refl),
        (
          ((λ e. cc), All-IsPlain (codes "11") refl),
          (((λ e. cc), All-IsPlain (codes "go") refl), tt),
        ),
      )
      (omega arith)

test_called :
    called commands (codes "rx") (codes "11" ∷ [])
    ≡ record { name = codes "rx"; args = codes "rx" ∷ codes "11" ∷ [] } ∷ []
test_called = refl

test_unknown : called commands (codes "r") (codes "11" ∷ []) ≡ []
test_unknown = refl
