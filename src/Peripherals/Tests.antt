-- ===== src/Peripherals/Tests.antt =====
-- The theorem on the reset button at a short and two joined presses.
use esp8266_rtos_projects.Prelude.{◌≡◌, ◌↔◌, refl, Bool, true, false, List, ◌∷◌, ◌++◌, replicate}
use esp8266_rtos_projects.Peripherals.{
  watching, restarted, check_button, reset_button_loop, reset_button_task,
}
use esp8266_rtos_projects.Peripherals.Hold.{LongPress, restarts-LongPress}

abbrev two_presses : List Bool
two_presses = replicate 29 true ++ (false ∷ replicate 29 true)

test_short : (reset_button_task two_presses).0 ≡ watching 2900
unfolding reset_button_task reset_button_loop check_button
test_short = refl

restarts-LongPress_example : ((reset_button_task two_presses).0 ≡ restarted) ↔ LongPress two_presses
restarts-LongPress_example = restarts-LongPress two_presses
