-- ===== src/NanoConsole/Words.antt =====
-- Words as keys, and as the buffer holds them.
use mathlib.Core.Path.{subst}
use esp8266_rtos_projects.Prelude.{
  ℕ, zero, suc, ◌+◌, ◌≡◌, ◌≢◌, refl, sym, ap, ◌∙◌, List, [], ◌∷◌, ◌++◌, append_assoc, Bytes, ne→==,
  length, map, drop, c_string-append, All, arith,
}
use esp8266_rtos_projects.NanoConsole.{count_ends, copy_args}
use esp8266_rtos_projects.NanoConsole.Typing.{IsPlain, left_by}

-- The words with a blank between each two, and the words each with a terminator.
abbrev pub keys : Bytes → List Bytes → Bytes
keys w [] = w
keys w (v ∷ ws) = w ++ b' ' ∷ keys v ws

abbrev pub full : List Bytes → Bytes
full [] = []
full (w ∷ ws) = w ++ 0 ∷ full ws

abbrev pub IsWord : Bytes → Type 0
IsWord w = (w ≢ []) × All IsPlain w

pub nonzero : (w : Bytes) → All IsPlain w → All (λ c. c ≢ 0) w
nonzero [] h = tt
nonzero (c ∷ w) h = (h.0.not_nul, nonzero w h.1)

left_by-word : (w : Bytes) → All IsPlain w → map left_by w ≡ w
left_by-word [] h = refl
left_by-word (c ∷ w) h = rw (ne→== c b' ' h.0.not_blank, left_by-word w h.1) refl

map-append : (u v : Bytes) → map left_by (u ++ v) ≡ map left_by u ++ map left_by v
map-append [] v = refl
map-append (c ∷ u) v = ap (λ s. left_by c ∷ s) (map-append u v)

pub left_by-keys :
    (w : Bytes) (ws : List Bytes)
    → IsWord w
    → All IsWord ws
    → map left_by (keys w ws) ++ 0 ∷ [] ≡ full (w ∷ ws)
left_by-keys w [] h hs = ap (λ s. s ++ 0 ∷ []) (left_by-word w h.1)
left_by-keys w (v ∷ ws) h hs =
    ap (λ s. s ++ 0 ∷ []) (map-append w (b' ' ∷ keys v ws))
    ∙ append_assoc (map left_by w) (0 ∷ map left_by (keys v ws)) (0 ∷ [])
    ∙ ap (λ s. s ++ 0 ∷ (map left_by (keys v ws) ++ 0 ∷ [])) (left_by-word w h.1)
    ∙ ap (λ s. w ++ 0 ∷ s) (left_by-keys v ws hs.0 hs.1)

-- The arguments of a buffer that starts with the words.
count_ends-word : (w s : Bytes) → All (λ c. c ≢ 0) w → count_ends (w ++ 0 ∷ s) ≡ 1 + count_ends s
count_ends-word [] s h = refl
count_ends-word (c ∷ w) s h = rw (ne→== c 0 h.0) (omega (arith, count_ends-word w s h.1))

pub count_ends-full : (ws : List Bytes) → All IsWord ws → count_ends (full ws) ≡ length ws
count_ends-full [] h = refl
count_ends-full (w ∷ ws) h =
    omega (arith, count_ends-word w (full ws) (nonzero w h.0.1), count_ends-full ws h.1)

drop-word : (w s : Bytes) (k : ℕ) → k ≡ length w + 1 → drop k (w ++ 0 ∷ s) ≡ s
drop-word w s zero e = absurd (omega arith)
drop-word [] s (suc k) e = ap (λ m. drop m s) {x = k} {y = 0} (omega arith)
drop-word (c ∷ w) s (suc k) e = drop-word w s k (omega arith)

pub copy_args-full :
    (ws : List Bytes) (r : Bytes) → All IsWord ws → copy_args (length ws) (full ws ++ r) ≡ ws
unfolding copy_args
copy_args-full [] r h = refl
copy_args-full (w ∷ ws) r h =
    rw
      (
        append_assoc w (0 ∷ full ws) r,
        c_string-append w (full ws ++ r) (nonzero w h.0.1),
        drop-word w (full ws ++ r) (length w + 1) refl,
        copy_args-full ws r h.1,
      )
      refl

-- A text whose last byte is not the terminator.
pub record EndsPlain (t : Bytes) : Type 0 where
  pub before : Bytes
  pub last : ℕ
  pub parts : t ≡ before ++ last ∷ []
  pub not_nul : last ≢ 0

EndsPlain-word : (w : Bytes) → IsWord w → EndsPlain w
EndsPlain-word [] h = absurd (h.0 refl)
EndsPlain-word (c ∷ []) h = record { before = []; last = c; parts = refl; not_nul = h.1.0.not_nul }
EndsPlain-word (c ∷ d ∷ w) h =
    let e = EndsPlain-word (d ∷ w) ((λ z. cc), h.1.1) in
    record {
      before = c ∷ e.before;
      last = e.last;
      parts = ap (λ s. c ∷ s) e.parts;
      not_nul = e.not_nul;
    }

EndsPlain-append : (s t : Bytes) → EndsPlain t → EndsPlain (s ++ t)
EndsPlain-append s t e = record {
  before = s ++ e.before;
  last = e.last;
  parts = ap (λ b. s ++ b) e.parts ∙ sym (append_assoc s e.before (e.last ∷ []));
  not_nul = e.not_nul;
}

pub EndsPlain-keys :
    (w : Bytes) (ws : List Bytes) → IsWord w → All IsWord ws → EndsPlain (map left_by (keys w ws))
EndsPlain-keys w [] h hs = subst EndsPlain (sym (left_by-word w h.1)) (EndsPlain-word w h)
EndsPlain-keys w (v ∷ ws) h hs = subst EndsPlain (sym (map-append w (b' ' ∷ keys v ws))) (
    EndsPlain-append (map left_by w) (0 ∷ map left_by (keys v ws))
      (EndsPlain-append (0 ∷ []) (map left_by (keys v ws)) (EndsPlain-keys v ws hs.0 hs.1)))
