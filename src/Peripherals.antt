-- ===== src/Peripherals.antt =====
-- ESP-UART-Passthrough/main/src/peripherals.c: the reset button (SoftAPProv/main/src/peripherals.c
-- is the same file).
pub mod Hold
mod Tests
use esp8266_rtos_projects.Prelude.{
  ℕ, ◌+◌, ◌%◌, Bool, true, false, ◌&&◌, List, [], ◌∷◌, ◌++◌, ltb, leb, ◌==◌, if◌then◌else◌,
}

abbrev pub reset_hold_time_ms : ℕ
reset_hold_time_ms = 3000

abbrev pub check_interval : ℕ
check_interval = 100

-- What the task does to the device; `held` is the message of line 35.
pub data ButtonAction : Type 0 where
  held : ℕ → ButtonAction
  nvs_erase nvs_init restart : ButtonAction
  delay : ℕ → ButtonAction

-- Whether the task is in its loop, with this `hold_time`, or `esp_restart` has ended it.
pub data Monitor : Type 0 where
  watching : ℕ → Monitor
  restarted : Monitor

-- Lines 30 to 56: one round, with the button pressed or not (GPIO 0 low or high). `esp_restart`
-- does not return.
pub check_button : Bool → ℕ → Monitor × List ButtonAction
check_button false hold_time = (watching 0, [])
check_button true hold_time =
    let held_for = hold_time + check_interval in
    let message = if ltb 0 held_for && held_for % 1000 == 0 then held held_for ∷ [] else [] in
    if leb reset_hold_time_ms held_for
    then (restarted, message ++ (nvs_erase ∷ nvs_init ∷ delay 3000 ∷ restart ∷ []))
    else (watching held_for, message)

-- The loop over the levels that the polls find, 100 ms apart.
pub reset_button_loop : List Bool → ℕ → Monitor × List ButtonAction
reset_button_loop [] hold_time = (watching hold_time, [])
reset_button_loop (pressed ∷ levels) hold_time =
    let (m, now) = check_button pressed hold_time in
    elim m [
      | restarted ↦ (restarted, now)
      | watching t ↦
          let (end, later) = reset_button_loop levels t in
          (end, now ++ (delay check_interval ∷ later))
    ]

-- The task starts with `hold_time` 0.
pub reset_button_task : List Bool → Monitor × List ButtonAction
reset_button_task levels = reset_button_loop levels 0
