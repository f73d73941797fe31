-- ===== src/WifiProv/State.antt =====
-- What the handlers of wifi_prov.c share: the static variables, and the calls that they make.
use esp8266_rtos_projects.Prelude.{ℕ, Bool, Bytes}

-- `s_retry_num`, and whether `server` is set.
pub record Prov : Type 0 where
  pub retry_num : ℕ
  pub server : Bool

-- The fields of `wifi_config_t.sta` that the code sets: two arrays of 32 and 64 bytes, and six bytes.
pub record StaConfig : Type 0 where
  pub ssid : Bytes
  pub password : Bytes
  pub bssid : Bytes
  pub bssid_set : Bool

-- The calls of the SDK that a handler makes, in order. Delays are in milliseconds.
pub data Action : Type 0 where
  delay : ℕ → Action
  connect : Action
  restart : Action
  set_config : StaConfig → Action
  set_type : Bytes → Action
  send : Bytes → Action
  send_500 : Action
  send_408 : Action

-- What a handler returns; `ESP_ERROR_CHECK` aborts at a failure.
pub data Outcome : Type 0 where
  esp_ok esp_fail aborted : Outcome
