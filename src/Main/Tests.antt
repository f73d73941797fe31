-- ===== src/Main/Tests.antt =====
-- The theorem on the start of the programs, for a full flash.
use esp8266_rtos_projects.Prelude.{true}
use esp8266_rtos_projects.Main.{nvs_ok, nvs_no_free_pages, BootEnv}

abbrev full_flash : BootEnv
full_flash = record { first = nvs_no_free_pages; erase_ok = true; second = nvs_ok; wifi_ok = true }
