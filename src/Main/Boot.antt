-- ===== src/Main/Boot.antt =====
-- When the flash is erased, and how far the programs come.
use esp8266_rtos_projects.Prelude.{◌≡◌, ◌↔◌, Bool, true, false, List, [], ◌∷◌, if◌then◌else◌, arith}
use esp8266_rtos_projects.Main.{
  nvs_ok, nvs_no_free_pages, nvs_error, Stage, flash_erase, create_button_task, wifi_init,
  bridge_init, BootEnv, check_ret, with_nvs, passthrough_main, soft_ap_main,
}

-- Whether the flash can be used in the end: at once, or after it was erased for lack of pages.
abbrev pub flash_usable : BootEnv → Bool
flash_usable env = elim env.first [
  | nvs_ok ↦ true
  | nvs_error ↦ false
  | nvs_no_free_pages ↦ elim env.second [ nvs_ok ↦ env.erase_ok | _ ↦ false ]
]

abbrev pub reaches : Stage → List Stage → Bool
reaches flash_erase (flash_erase ∷ rest) = true
reaches create_button_task (create_button_task ∷ rest) = true
reaches wifi_init (wifi_init ∷ rest) = true
reaches bridge_init (bridge_init ∷ rest) = true
reaches s [] = false
reaches s (_ ∷ rest) = reaches s rest

-- Both programs erase the flash exactly if the first initialisation finds no free pages, and start
-- the button's task and the network exactly if the flash is usable in the end; only the passthrough
-- goes on to the bridge, if the network's start returns.
pub boot_stages :
    (env : BootEnv)
    → ((reaches flash_erase (passthrough_main env) ≡ true) ↔ (env.first ≡ nvs_no_free_pages))
      × (reaches flash_erase (soft_ap_main env) ≡ reaches flash_erase (passthrough_main env))
      × (reaches create_button_task (passthrough_main env) ≡ flash_usable env)
      × (reaches wifi_init (passthrough_main env) ≡ flash_usable env)
      × (reaches wifi_init (soft_ap_main env) ≡ flash_usable env)
      × (reaches bridge_init (passthrough_main env)
          ≡ (if env.wifi_ok then flash_usable env else false))
      × (reaches bridge_init (soft_ap_main env) ≡ false)
unfolding passthrough_main soft_ap_main with_nvs check_ret
boot_stages env = ground arith
