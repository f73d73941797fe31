-- ===== src/SoftapProv.antt =====
-- The provisioning example softap_prov: `g_prov` and the handler of events.
pub mod Service
pub mod Handlers
pub mod Station
mod Told
mod Stops
mod Applies
mod Retries
mod Tests
use esp8266_rtos_projects.Prelude.{
  ℕ, ◌+◌, Bool, true, false, Option, none, some, List, [], ◌∷◌, Bytes, if◌then◌else◌,
}

pub data StaState : Type 0 where
  connecting connected disconnected : StaState

pub data FailReason : Type 0 where
  auth_error ap_not_found : FailReason

-- The reasons of a disconnection that the handler names.
pub data Reason : Type 0 where
  auth_expire handshake_timeout_4way beacon_timeout auth_fail assoc_fail handshake_timeout : Reason
  no_ap_found basic_rate_not_support : Reason
  other_reason : ℕ → Reason

-- `app_prov_data`: whether the pointers `pc` and `timer` are set, and whether the timer runs.
pub record AppProv : Type 0 where
  pub pc : Bool
  pub security : ℕ
  pub timer : Bool
  pub timer_runs : Bool
  pub wifi_state : StaState
  pub wifi_disconnect_reason : FailReason

pub data Mode : Type 0 where
  null_mode sta_mode ap_mode apsta_mode : Mode

pub data AuthMode : Type 0 where
  auth_open auth_wpa_wpa2_psk : AuthMode

pub record Credentials : Type 0 where
  pub ssid : Bytes
  pub password : Bytes

pub record ApConfig : Type 0 where
  pub ssid : Bytes
  pub password : Bytes
  pub authmode : AuthMode

-- `g_prov`; what the Wi-Fi driver was given, and how often it was told to connect; how many handlers
-- of events are registered and how many HTTP servers run; and the context of the configuration's
-- handlers.
pub record Device : Type 0 where
  pub g_prov : Option AppProv
  pub mode : Mode
  pub sta : Credentials
  pub ap : ApConfig
  pub connects : ℕ
  pub handlers : ℕ
  pub servers : ℕ
  pub ctx : Option Credentials

pub data Event : Type 0 where
  sta_start got_ip : Event
  sta_disconnected : Reason → Event

-- The cases of the `switch`: the state and the reason, and whether to connect again.
unfoldable pub on_reason : Reason → AppProv → AppProv × Bool
on_reason no_ap_found p =
    (record p { wifi_state = disconnected; wifi_disconnect_reason = ap_not_found }, false)
on_reason basic_rate_not_support p = (record p { wifi_state = connecting }, true)
on_reason (other_reason n) p = (record p { wifi_state = connecting }, true)
on_reason _ p = (record p { wifi_state = disconnected; wifi_disconnect_reason = auth_error }, false)

unfoldable pub on_prov : Event → AppProv → AppProv × Bool
on_prov sta_start p = (record p { wifi_state = connecting }, false)
on_prov got_ip p = (
  record p { wifi_state = connected; timer_runs = if p.timer then true else p.timer_runs },
  false,
)
on_prov (sta_disconnected reason) p = on_reason reason p

-- `app_prov_event_handler`, whose calls of `esp_wifi_connect` are counted.
unfoldable pub app_prov_event_handler : Event → Device → Device
app_prov_event_handler e d = elim d.g_prov [
  | none ↦ d
  | some p ↦
      let (p', connect) = on_prov e p in
      record d { g_prov = some p'; connects = if connect then d.connects + 1 else d.connects }
]

unfoldable pub handle_events : List Event → Device → Device
handle_events [] d = d
handle_events (e ∷ es) d = handle_events es (app_prov_event_handler e d)

unfoldable pub app_prov_get_wifi_state : Device → Option StaState
app_prov_get_wifi_state d = elim d.g_prov [ none ↦ none | some p ↦ some p.wifi_state ]

unfoldable pub app_prov_get_wifi_disconnect_reason : Device → Option FailReason
app_prov_get_wifi_disconnect_reason d = elim d.g_prov [
  | none ↦ none
  | some p ↦ elim p.wifi_state [ disconnected ↦ some p.wifi_disconnect_reason | _ ↦ none ]
]
