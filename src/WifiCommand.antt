-- ===== src/WifiCommand.antt =====
-- The commands of the iperf example: the handlers of events and the commands sta, scan, ap and query.
pub mod Measure
mod Joining
mod Started
mod Shows
mod Tests
use esp8266_rtos_projects.Prelude.{
  ℕ, zero, suc, ◌+◌, ◌%◌, Bool, true, false, ◌&&◌, not, Option, none, some, List, [], ◌∷◌, Bytes,
  ltb, leb, ◌==◌, if◌then◌else◌, length, get_elem?,
}
use esp8266_rtos_projects.Libc.Copy.{strlcpy}

pub data Mode : Type 0 where
  null_mode sta_mode ap_mode : Mode

pub data AuthMode : Type 0 where
  auth_open auth_wpa_wpa2_psk : AuthMode

pub record StaConfig : Type 0 where
  pub ssid : Bytes
  pub password : Bytes

pub record ApConfig : Type 0 where
  pub ssid : Bytes
  pub password : Bytes
  pub authmode : AuthMode

-- The two bits of `wifi_event_group`, `reconnect`, what the Wi-Fi driver was given last, and how often
-- `esp_wifi_connect` was called.
pub record Station : Type 0 where
  pub connected_bit : Bool
  pub disconnected_bit : Bool
  pub reconnect : Bool
  pub mode : Mode
  pub sta : StaConfig
  pub ap : ApConfig
  pub connects : ℕ

unfoldable pub got_ip_handler : Station → Station
got_ip_handler s = record s { disconnected_bit = false; connected_bit = true }

unfoldable pub disconnect_handler : Station → Station
disconnect_handler s = record s {
  connects = if s.reconnect then s.connects + 1 else s.connects;
  connected_bit = false;
  disconnected_bit = true;
}

pub data NetEvent : Type 0 where
  got_ip sta_disconnected : NetEvent

unfoldable pub on_event : NetEvent → Station → Station
on_event got_ip s = got_ip_handler s
on_event sta_disconnected s = disconnect_handler s

unfoldable pub on_events : List NetEvent → Station → Station
on_events [] s = s
on_events (e ∷ es) s = on_events es (on_event e s)

-- `for(i=0; i<sta_number; i++)` with a `uint8_t i`, on fuel: the records that are shown, in order.
unfoldable pub show_aps {ℓ} : {A : Type ℓ} → ℕ → ℕ → ℕ → List A → Option (List A)
show_aps zero i sta_number records = none
show_aps (suc fuel) i sta_number records =
    let rest = show_aps fuel ((i + 1) % 256) sta_number records in
    if ltb i sta_number
    then elim (get_elem? records i) [
      | none ↦ none
      | some r ↦ elim rest [ none ↦ none | some rs ↦ some (r ∷ rs) ]
    ]
    else some []

-- The handler of the event: nothing is shown without memory or records.
unfoldable pub scan_done_handler {ℓ} : {A : Type ℓ} → ℕ → Bool → Bool → List A → Option (List A)
scan_done_handler fuel malloc_ok records_ok records =
    if malloc_ok && records_ok then show_aps fuel 0 (length records) records else some []

-- A network that is joined is left first, with the events that come during the wait for that.
unfoldable pub leave_network : List NetEvent → Station → Station
leave_network leaving s =
    if s.connected_bit
    then on_events leaving (record s { reconnect = false; connected_bit = false })
    else s

unfoldable pub join_network : Bytes → Option Bytes → Station → Station
join_network ssid pass s = record s {
  reconnect = true;
  mode = sta_mode;
  sta = record {
    ssid = strlcpy 32 ssid;
    password = elim pass [ none ↦ [] | some p ↦ strlcpy 64 p ];
  };
  connects = s.connects + 1;
}

-- `wifi_cmd_sta_join`, with the events that come during its two waits for the driver.
unfoldable pub wifi_cmd_sta_join :
    Bytes → Option Bytes → List NetEvent → List NetEvent → Station → Station
wifi_cmd_sta_join ssid pass leaving joining s =
    on_events joining (join_network ssid pass (leave_network leaving s))

unfoldable pub wifi_cmd_sta_scan : Station → Station
wifi_cmd_sta_scan s = record s { mode = sta_mode }

-- What `wifi_cmd_ap_set` does: it reads from NULL, or returns.
pub data ApSet : Type 0 where
  null_read : ApSet
  returned : Bool → Station → ApSet

unfoldable pub wifi_cmd_ap_set : Bytes → Option Bytes → Station → ApSet
wifi_cmd_ap_set ssid none s = null_read
wifi_cmd_ap_set ssid (some pass) s =
    if not (length pass == 0) && ltb (length pass) 8
    then returned false (record s { reconnect = true })
    else returned true (record s {
      reconnect = false;
      mode = ap_mode;
      ap = record {
        ssid = strlcpy 32 ssid;
        password = strlcpy 64 pass;
        authmode = if length pass == 0 then auth_open else auth_wpa_wpa2_psk;
      };
    })

-- What `wifi_cmd_query` logs.
pub data Shown : Type 0 where
  shown_ap : (ssid password : Bytes) → Shown
  shown_sta : (ssid : Bytes) → Shown
  shown_disconnected shown_null : Shown

unfoldable pub wifi_cmd_query : Station → Shown
wifi_cmd_query s = elim s.mode [
  | ap_mode ↦ shown_ap s.ap.ssid s.ap.password
  | sta_mode ↦ if s.connected_bit then shown_sta s.sta.ssid else shown_disconnected
  | null_mode ↦ shown_null
]

-- `wifi_get_local_ip`, with the addresses of the adapter's two interfaces.
unfoldable pub wifi_get_local_ip : ℕ → ℕ → Station → ℕ
wifi_get_local_ip sta_ip ap_ip s = elim s.mode [
  | sta_mode ↦ if s.connected_bit then sta_ip else 0
  | _ ↦ ap_ip
]
