-- ===== src/SoftapProv/Station.antt =====
-- `app_main` and its handler of events, for a device that is provisioned.
use esp8266_rtos_projects.Prelude.{
  ℕ, ◌+◌, Bool, true, false, none, some, List, [], ◌∷◌, Bytes, ltb, if◌then◌else◌,
}
use esp8266_rtos_projects.SoftapProv.{Event, sta_start, got_ip, sta_disconnected, sta_mode, Device}
use esp8266_rtos_projects.SoftapProv.Service.{Works, app_prov_start_softap_provisioning}
use esp8266_rtos_projects.SoftapProv.Handlers.{app_prov_is_provisioned}

-- `s_retry_num`, and how often `esp_wifi_connect` was called.
pub record Retry : Type 0 where
  pub s_retry_num : ℕ
  pub connects : ℕ

-- `event_handler`, with `EXAMPLE_AP_RECONN_ATTEMPTS`.
unfoldable pub event_handler : ℕ → Event → Retry → Retry
event_handler attempts sta_start r = record r { connects = r.connects + 1 }
event_handler attempts got_ip r = record r { s_retry_num = 0 }
event_handler attempts (sta_disconnected reason) r =
    if ltb r.s_retry_num attempts
    then record { s_retry_num = r.s_retry_num + 1; connects = r.connects + 1 }
    else r

unfoldable pub station_events : ℕ → List Event → Retry → Retry
station_events attempts [] r = r
station_events attempts (e ∷ es) r = station_events attempts es (event_handler attempts e r)

-- What `app_main` does once the SDK is set up: it gives up, starts provisioning, or is a station.
pub data Booted : Type 0 where
  no_config : Booted
  provisioning : Device → Booted
  station : Device → Booted

-- `ESP_ERROR_CHECK` of a start that fails is left out.
unfoldable pub app_main : Bytes → Bytes → ℕ → Bool → Works → Device → Booted
app_main ssid pass security config_ok works d = elim (app_prov_is_provisioned config_ok d) [
  | none ↦ no_config
  | some true ↦ station (record d { mode = sta_mode; handlers = d.handlers + 2 })
  | some false ↦ provisioning (app_prov_start_softap_provisioning ssid pass security works d).1
]
