-- ===== src/WifiProv/Start.antt =====
-- `start_webserver` and `wifi_init_softap_sta`: how the device comes up.
pub mod Modes
use esp8266_rtos_projects.Prelude.{
  ℕ, Bool, true, false, List, [], ◌∷◌, ◌++◌, Bytes, codes, ◌==◌, if◌then◌else◌, length, get_or,
}

pub data Mode : Type 0 where
  sta apsta : Mode

pub data AuthMode : Type 0 where
  auth_open : AuthMode

-- The fields of `wifi_config_t.ap` that are set.
pub record ApConfig : Type 0 where
  pub ssid : Bytes
  pub ssid_len : ℕ
  pub password : Bytes
  pub max_connection : ℕ
  pub authmode : AuthMode
  pub channel : ℕ

-- The requests that the web server is told to handle.
pub data Uri : Type 0 where
  root_uri scan_uri config_uri : Uri

-- The calls of the SDK, in the order of the code.
pub data Call : Type 0 where
  netif_init event_loop_create wifi_init register_wifi_events register_ip_events get_config : Call
  set_mode : Mode → Call
  set_ap_config : ApConfig → Call
  wifi_start wifi_connect httpd_start : Call
  register_uri : Uri → Call

abbrev pub ap_ssid : Bytes
ap_ssid = codes "ESP8266_Config"

abbrev pub ap_config : ApConfig
ap_config = record {
  ssid = ap_ssid;
  ssid_len = length ap_ssid;
  password = [];
  max_connection = 4;
  authmode = auth_open;
  channel = 1;
}

-- What came of a sequence of calls: those made, and whether the firmware goes on.
pub record Ran : Type 0 where
  pub calls : List Call
  pub alive : Bool

-- Which calls succeed.
module _ (succeeds : Call → Bool) where
  -- `ESP_ERROR_CHECK(call)`, then the rest; a failure aborts.
  pub check_then : Call → Ran → Ran
  check_then call rest =
      if succeeds call
      then record { calls = call ∷ rest.calls; alive = rest.alive }
      else record { calls = call ∷ []; alive = false }

  -- The calls, and whether `server` is set.
  pub start_webserver : List Call × Bool
  start_webserver =
      if succeeds httpd_start
      then (
        httpd_start ∷ register_uri root_uri ∷ register_uri scan_uri ∷ register_uri config_uri ∷ [],
        true,
      )
      else (httpd_start ∷ [], false)

  -- Lines 377 to 398, for the name that is stored.
  pub start_mode : Bytes → Ran
  start_mode ssid =
      if get_or ssid 0 0 == 0
      then check_then (set_mode apsta) (
          check_then (set_ap_config ap_config)
            (check_then wifi_start (record { calls = start_webserver.0; alive = true })))
      else check_then (set_mode sta)
          (check_then wifi_start (check_then wifi_connect (record { calls = []; alive = true })))

  -- The argument is `wifi_config.sta.ssid` as `esp_wifi_get_config` fills it in.
  pub wifi_init_softap_sta : Bytes → Ran
  wifi_init_softap_sta ssid = check_then netif_init (
      check_then event_loop_create (
        check_then wifi_init (
          check_then register_wifi_events
            (check_then register_ip_events (check_then get_config (start_mode ssid))))))
