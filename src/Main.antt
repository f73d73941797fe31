-- ===== src/Main.antt =====
-- ESP-UART-Passthrough/main/src/main.c and SoftAPProv/main/src/main.c: the two programs.
pub mod Boot
mod Tests
use esp8266_rtos_projects.Prelude.{Bool, true, false, List, [], ◌∷◌, ◌++◌, if◌then◌else◌}

-- What `nvs_flash_init` returns.
pub data NvsResult : Type 0 where
  nvs_ok nvs_no_free_pages nvs_error : NvsResult

pub data Stage : Type 0 where
  flash_init flash_erase create_button_task wifi_init bridge_init : Stage

-- The answers of the SDK: the first initialisation, the erasure, the second initialisation, and
-- whether `wifi_init_softap_sta` returns.
pub record BootEnv : Type 0 where
  pub first : NvsResult
  pub erase_ok : Bool
  pub second : NvsResult
  pub wifi_ok : Bool

-- `ESP_ERROR_CHECK(ret)`, then the rest.
pub check_ret : NvsResult → List Stage → List Stage
check_ret nvs_ok rest = rest
check_ret nvs_no_free_pages rest = []
check_ret nvs_error rest = []

-- Lines 18 to 23, and then the rest.
pub with_nvs : BootEnv → List Stage → List Stage
with_nvs env rest = flash_init ∷ (elim env.first [
  | nvs_no_free_pages ↦
      flash_erase ∷ (if env.erase_ok then flash_init ∷ check_ret env.second rest else [])
  | nvs_ok ↦ check_ret nvs_ok rest
  | nvs_error ↦ check_ret nvs_error rest
])

-- The stages that `app_main` of ESP-UART-Passthrough goes through.
pub passthrough_main : BootEnv → List Stage
passthrough_main env =
    with_nvs env (create_button_task ∷ wifi_init ∷ (if env.wifi_ok then bridge_init ∷ [] else []))

-- Those of SoftAPProv.
pub soft_ap_main : BootEnv → List Stage
soft_ap_main env = with_nvs env (create_button_task ∷ wifi_init ∷ [])
