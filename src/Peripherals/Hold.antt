-- ===== src/Peripherals/Hold.antt =====
-- When the button resets the device: after 30 polls in a row that find it pressed.
use esp8266_rtos_projects.Prelude.{
  ℕ, zero, suc, ◌+◌, ◌*◌, ◌≤◌, ◌<◌, ◌≡◌, ◌↔◌, refl, sym, ap, ◌∙◌, Bool, true, false, List, [], ◌∷◌,
  ◌++◌, append_assoc, replicate, arith,
}
use native.Mathlib.Decide.{dec_lt}
use esp8266_rtos_projects.Peripherals.{
  watching, restarted, check_button, reset_button_loop, reset_button_task,
}

-- Some 30 polls in a row find the button pressed.
abbrev pub LongPress : List Bool → Type 0
LongPress levels =
    (before : List Bool) × (after : List Bool) × (levels ≡ before ++ (replicate 30 true ++ after))

step-fires :
    (t : ℕ) (levels : List Bool) → 2900 ≤ t → (reset_button_loop (true ∷ levels) t).0 ≡ restarted
unfolding reset_button_loop check_button
step-fires t levels h = ground arith

step-waits :
    (t : ℕ) (levels : List Bool)
    → t < 2900
    → (reset_button_loop (true ∷ levels) t).0 ≡ (reset_button_loop levels (t + 100)).0
unfolding reset_button_loop check_button
step-waits t levels h = ground arith

step-released :
    (t : ℕ) (levels : List Bool)
    → (reset_button_loop (false ∷ levels) t).0 ≡ (reset_button_loop levels 0).0
unfolding reset_button_loop check_button
step-released t levels = refl

loop-nil : (t : ℕ) → (reset_button_loop [] t).0 ≡ watching t
unfolding reset_button_loop
loop-nil t = refl

presses-fire :
    (left t : ℕ) (after : List Bool)
    → 3000 ≤ t + 100 * left
    → t < 3000
    → (reset_button_loop (replicate left true ++ after) t).0 ≡ restarted
presses-fire zero t after h small = absurd (omega arith)
presses-fire (suc left) t after h small = elim (dec_lt t 2900) [
  | yes p ↦
      step-waits t (replicate left true ++ after) p
      ∙ presses-fire left (t + 100) after (omega arith) (omega arith)
  | no p ↦ step-fires t (replicate left true ++ after) (omega arith)
]

fires :
    (before : List Bool) (t : ℕ) (after : List Bool)
    → t < 3000
    → (reset_button_loop (before ++ (replicate 30 true ++ after)) t).0 ≡ restarted
fires [] t after small = presses-fire 30 t after (omega arith) small
fires (false ∷ before) t after small =
    step-released t (before ++ (replicate 30 true ++ after)) ∙ fires before 0 after (omega arith)
fires (true ∷ before) t after small = elim (dec_lt t 2900) [
  | yes p ↦
      step-waits t (before ++ (replicate 30 true ++ after)) p
      ∙ fires before (t + 100) after (omega arith)
  | no p ↦ step-fires t (before ++ (replicate 30 true ++ after)) (omega arith)
]

replicate-snoc :
    (k : ℕ) (s : List Bool) → replicate k true ++ (true ∷ s) ≡ replicate (suc k) true ++ s
replicate-snoc zero s = refl
replicate-snoc (suc k) s = ap (λ r. true ∷ r) (replicate-snoc k s)

-- With `k` presses behind it, a loop that fires has seen a long press.
long_press :
    (levels : List Bool) (k t : ℕ)
    → t ≡ 100 * k
    → k < 30
    → (reset_button_loop levels t).0 ≡ restarted
    → LongPress (replicate k true ++ levels)
long_press [] k t e small fired = absurd (watching-ne (sym (loop-nil t) ∙ fired))
  where
    watching-ne : watching t ≡ restarted → ⊥
    watching-ne p = cc
long_press (false ∷ levels) k t e small fired =
    let (before, after, eq) =
      long_press levels 0 0 (omega arith) (omega arith) (sym (step-released t levels) ∙ fired) in
    (
      replicate k true ++ (false ∷ before),
      after,
      ap (λ r. replicate k true ++ (false ∷ r)) eq
          ∙ sym (append_assoc (replicate k true) (false ∷ before) (replicate 30 true ++ after)),
    )
long_press (true ∷ levels) k t e small fired = elim (dec_lt t 2900) [
  | yes p ↦
      let (before, after, eq) =
        long_press levels (suc k) (t + 100) (omega arith) (omega arith)
          (sym (step-waits t levels p) ∙ fired) in
      (before, after, replicate-snoc k levels ∙ eq)
  | no p ↦ (
    [],
    levels,
    replicate-snoc k levels
        ∙ ap (λ n. replicate n true ++ levels) {x = suc k} {y = 30} (omega arith),
  )
]

-- The task ends in a restart of the device exactly if 30 polls in a row, 100 ms
-- apart, find the button pressed; shorter presses never add up.
pub restarts-LongPress :
    (levels : List Bool) → ((reset_button_task levels).0 ≡ restarted) ↔ LongPress levels
unfolding reset_button_task
restarts-LongPress levels = (
  λ fired. long_press levels 0 0 (omega arith) (omega arith) fired,
  λ (before, after, eq). rw eq (fires before 0 after (omega arith)),
)
