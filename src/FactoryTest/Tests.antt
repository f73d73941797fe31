-- ===== src/FactoryTest/Tests.antt =====
-- Concrete runs of the radio test's commands.
use esp8266_rtos_projects.Prelude.{codes, ◌≡◌, refl, true, false, List, [], ◌∷◌, Bytes}
use esp8266_rtos_projects.FactoryTest.{
  Radio, esp_tx_func, esp_rx_func, set_wifi_work, set_wifi_free, start_thread, remove, thread_ends,
}
use esp8266_rtos_projects.FactoryTest.Commands.{
  esp_tx, esp_rx, cmdstop, enter, ends, Step, step, steps, run_command, test_esp_tx_func,
  test_esp_rx_func, test_cmdstop_func,
}
use esp8266_rtos_projects.FactoryTest.Ranges.{radio_allowed, steps-allowed}
use esp8266_rtos_projects.FactoryTest.Exclusion.{exclusive, steps-exclusive, failed_start-stuck}
use esp8266_rtos_projects.Libc.Text.{atoi}

abbrev idle : Radio
idle = record { s_cmdstop = 0; threads = []; called = [] }

abbrev tx_line : List Bytes
tx_line = codes "esp_tx" ∷ codes "14" ∷ codes "23" ∷ codes "-127" ∷ []

abbrev rx_line : List Bytes
rx_line = codes "esp_rx" ∷ codes "1" ∷ codes "0" ∷ []

-- A test is started, a second one is refused until the first has ended.
abbrev one_after_another : List Step
one_after_another =
    enter esp_tx true true tx_line
    ∷ enter esp_rx true true rx_line
    ∷ ends 0
    ∷ enter esp_rx true true rx_line
    ∷ []

test_steps :
    steps one_after_another idle
    ≡ record { s_cmdstop = 3; threads = esp_rx_func 1 0 ∷ []; called = [] }
unfolding steps step run_command test_esp_tx_func test_esp_rx_func start_thread thread_ends remove
    set_wifi_work set_wifi_free atoi
test_steps = refl

-- cmdstop frees the work of a test that still runs.
test_cmdstop :
    steps
      (enter esp_tx true true tx_line
        ∷ enter cmdstop true true (codes "cmdstop" ∷ [])
        ∷ enter esp_rx true true rx_line
        ∷ [])
      idle
    ≡ record {
      s_cmdstop = 3;
      threads = esp_tx_func 14 23 4294967169 ∷ esp_rx_func 1 0 ∷ [];
      called = [];
    }
unfolding steps step run_command test_esp_tx_func test_esp_rx_func test_cmdstop_func start_thread
    set_wifi_work set_wifi_free atoi
test_cmdstop = refl

steps-allowed_example : radio_allowed (steps one_after_another idle) ≡ true
steps-allowed_example = steps-allowed one_after_another idle refl

steps-exclusive_example : exclusive (steps one_after_another idle) ≡ true
steps-exclusive_example = steps-exclusive one_after_another idle refl refl

failed_start-stuck_example :
    steps one_after_another (start_thread true false (esp_rx_func 3 2) idle).1
    ≡ record { s_cmdstop = 3; threads = []; called = [] }
failed_start-stuck_example =
    failed_start-stuck true false (esp_rx_func 3 2) idle one_after_another refl refl refl refl
