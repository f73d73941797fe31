-- ===== src/SoftapProv/Handlers.antt =====
-- The handlers of the endpoint `prov-config`, and the station that they configure.
use esp8266_rtos_projects.Prelude.{
  ◌+◌, Bool, not, Option, none, some, Bytes, ◌==◌, length, if◌then◌else◌,
}
use esp8266_rtos_projects.Libc.Copy.{strlcpy, strncpy}
use esp8266_rtos_projects.SoftapProv.{
  StaState, connecting, disconnected, FailReason, auth_error, apsta_mode, Credentials, Device,
  app_prov_get_wifi_state, app_prov_get_wifi_disconnect_reason,
}
use esp8266_rtos_projects.SoftapProv.Service.{Err, esp_ok, esp_fail}

-- Which calls of the driver succeed: `esp_wifi_set_mode`, `esp_wifi_set_config`, `esp_wifi_start` and
-- `esp_wifi_connect`.
pub record Driver : Type 0 where
  pub set_mode : Bool
  pub set_config : Bool
  pub start : Bool
  pub connect : Bool

-- `esp_wifi_connect` and the state of the provisioning, if it runs.
unfoldable pub now_connecting : Device → Device
now_connecting d = elim d.g_prov [
  | none ↦ record d { connects = d.connects + 1 }
  | some p ↦ record d {
    connects = d.connects + 1;
    g_prov = some (record p { wifi_state = connecting });
  }
]

unfoldable pub app_prov_configure_sta : Driver → Credentials → Device → Err × Device
app_prov_configure_sta driver wifi_cfg d =
    let moded = record d { mode = apsta_mode } in
    let set = record moded { sta = wifi_cfg } in
    if driver.set_mode
    then if driver.set_config
      then if driver.start
        then if driver.connect then (esp_ok, now_connecting set) else (esp_fail, set)
        else (esp_fail, set)
      else (esp_fail, moded)
    else (esp_fail, d)

-- `app_prov_is_provisioned`, with whether the driver gives its configuration.
unfoldable pub app_prov_is_provisioned : Bool → Device → Option Bool
app_prov_is_provisioned ok d = if ok then some (not (length d.sta.ssid == 0)) else none

-- What the handler answers of the state; `none` for ESP_FAIL. The access point and the address that it
-- adds when connected are the SDK's.
pub record StatusData : Type 0 where
  pub wifi_state : StaState
  pub fail_reason : FailReason

unfoldable pub get_status_handler : Device → Option StatusData
get_status_handler d = elim (app_prov_get_wifi_state d) [
  | none ↦ none
  | some state ↦ some (record {
    wifi_state = state;
    fail_reason = elim state [
      | disconnected ↦ elim (app_prov_get_wifi_disconnect_reason d) [
        | none ↦ auth_error
        | some reason ↦ reason
      ]
      | _ ↦ auth_error
    ];
  })
]

-- The argument is whether `calloc` succeeds.
unfoldable pub set_config_handler : Bool → Bytes → Bytes → Device → Err × Device
set_config_handler ok ssid password d =
    if ok
    then (
      esp_ok,
      record d { ctx = some (record { ssid = strncpy 32 ssid; password = strlcpy 64 password }) },
    )
    else (esp_fail, record d { ctx = none })

-- What the station's configuration returns is not read.
unfoldable pub apply_config_handler : Driver → Device → Err × Device
apply_config_handler driver d = elim d.ctx [
  | none ↦ (esp_fail, d)
  | some wifi_cfg ↦ (esp_ok, record ((app_prov_configure_sta driver wifi_cfg d).1) { ctx = none })
]
