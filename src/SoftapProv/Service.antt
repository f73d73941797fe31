-- ===== src/SoftapProv/Service.antt =====
-- How provisioning starts and stops.
use esp8266_rtos_projects.Prelude.{
  ℕ, ◌+◌, ◌-◌, Bool, true, false, Option, none, some, [], Bytes, ◌==◌, length, if◌then◌else◌,
}
use esp8266_rtos_projects.Libc.Copy.{strlcpy}
use esp8266_rtos_projects.SoftapProv.{
  AppProv, connecting, auth_error, sta_mode, ap_mode, auth_open, auth_wpa_wpa2_psk, ApConfig,
  Device,
}

-- ESP_OK, ESP_FAIL, ESP_ERR_NO_MEM, or what a call of the SDK returned.
pub data Err : Type 0 where
  esp_ok esp_fail esp_err_no_mem sdk_err : Err

abbrev pub is_ok : Err → Bool
is_ok esp_ok = true
is_ok _ = false

-- Which calls succeed: `calloc`, `esp_timer_create`, the two of `esp_event_handler_register`, the
-- three of `start_wifi_ap`, `protocomm_new`, `protocomm_httpd_start` and `protocomm_add_endpoint`.
pub record Works : Type 0 where
  pub memory : Bool
  pub timer : Bool
  pub wifi_handler : Bool
  pub ip_handler : Bool
  pub set_mode : Bool
  pub set_config : Bool
  pub wifi_start : Bool
  pub protocomm : Bool
  pub httpd : Bool
  pub endpoint : Bool

unfoldable pub ap_config : Bytes → Bytes → ApConfig
ap_config ssid pass =
    if length pass == 0
    then record { ssid = strlcpy 32 ssid; password = []; authmode = auth_open }
    else record { ssid = strlcpy 32 ssid; password = strlcpy 64 pass; authmode = auth_wpa_wpa2_psk }

unfoldable pub start_wifi_ap : Bytes → Bytes → Works → Device → Err × Device
start_wifi_ap ssid pass works d =
    let moded = record d { mode = ap_mode } in
    let set = record moded { ap = ap_config ssid pass } in
    if works.set_mode
    then if works.set_config
      then if works.wifi_start then (esp_ok, set) else (sdk_err, set)
      else (sdk_err, moded)
    else (sdk_err, d)

-- With the instance of `protocomm` in `pc`; the server is stopped where the endpoint fails.
unfoldable pub app_prov_start_service : Works → AppProv → Device → Err × Device
app_prov_start_service works p d =
    let made = record d { g_prov = some (record p { pc = true }) } in
    if works.protocomm
    then if works.httpd
      then if works.endpoint
        then (esp_ok, record made { servers = d.servers + 1 })
        else (esp_fail, made)
      else (esp_fail, made)
    else (esp_fail, record d { g_prov = some (record p { pc = false }) })

-- After `calloc` and the two fields.
unfoldable pub new_prov : ℕ → AppProv
new_prov security = record {
  pc = false;
  security = security;
  timer = false;
  timer_runs = false;
  wifi_state = connecting;
  wifi_disconnect_reason = auth_error;
}

-- From the softAP on.
unfoldable pub start_ap_and_service : Bytes → Bytes → Works → AppProv → Device → Err × Device
start_ap_and_service ssid pass works p d =
    let (err, on) = start_wifi_ap ssid pass works d in
    if is_ok err then app_prov_start_service works p on else (err, on)

-- From the timer on.
unfoldable pub start_timer_and_handlers : Bytes → Bytes → Works → AppProv → Device → Err × Device
start_timer_and_handlers ssid pass works p d =
    let timed = record p { timer = true } in
    if works.timer
    then if works.wifi_handler
      then if works.ip_handler
        then start_ap_and_service ssid pass works timed
            (record d { g_prov = some timed; handlers = d.handlers + 2 })
        else (sdk_err, record d { g_prov = some timed; handlers = d.handlers + 1 })
      else (sdk_err, record d { g_prov = some timed })
    else (sdk_err, record d { g_prov = some p })

unfoldable pub app_prov_start_softap_provisioning :
    Bytes → Bytes → ℕ → Works → Device → Err × Device
app_prov_start_softap_provisioning ssid pass security works d = elim d.g_prov [
  | some _ ↦ (esp_fail, d)
  | none ↦
      if works.memory
      then start_timer_and_handlers ssid pass works (new_prov security) d
      else (esp_err_no_mem, d)
]

-- The server and the two handlers.
unfoldable pub app_prov_stop_service : Device → Device
app_prov_stop_service d = record d { servers = d.servers - 1; handlers = d.handlers - 2 }

-- `stop_prov_task`; `none` where it reads through a NULL `g_prov`.
unfoldable pub stop_prov_task : Device → Option Device
stop_prov_task d = elim d.g_prov [
  | none ↦ none
  | some p ↦ some (record (app_prov_stop_service d) { mode = sta_mode; g_prov = none })
]
