-- ===== src/WifiProv/Tests.antt =====
-- The theorems on wifi_prov.c at concrete inputs.
use esp8266_rtos_projects.Prelude.{
  ℕ, zero, suc, ◌+◌, ◌≡◌, ◌≤◌, refl, Bool, true, false, Option, none, some, List, [], ◌∷◌, ◌++◌,
  Bytes, codes, length, replicate, str_eq, if◌then◌else◌, ltb, All, arith,
}
use esp8266_rtos_projects.Libc.Decimal.{negsuc}
use esp8266_rtos_projects.Utils.UrlDecode.Encode.{url_encode}
use esp8266_rtos_projects.Utils.MacAddress.{join_with}
use esp8266_rtos_projects.WifiProv.State.{Prov, StaConfig, connect, set_config, send, esp_ok}
use esp8266_rtos_projects.WifiProv.Events
use esp8266_rtos_projects.WifiProv.Events.{Event, sta_got_ip, sta_disconnected, other}
use esp8266_rtos_projects.WifiProv.Events.Backoff.{backoff, run-disconnected}
use esp8266_rtos_projects.WifiProv.Scan.{ApRecord, scan_json, json_loop}
use esp8266_rtos_projects.WifiProv.Scan.Json.{visible_objects, scan_json-join}
use esp8266_rtos_projects.WifiProv.Scan.Fits.{capacity, scan_json-fits}
use esp8266_rtos_projects.WifiProv.Config.{chunk, timeout, complete, receive, save_config}
use esp8266_rtos_projects.Utils.MacAddress.Accepts.{spell}
use esp8266_rtos_projects.WifiProv.Config.Saves.{Typed, wanted, save_config-Form}
use esp8266_rtos_projects.WifiProv.Page.{IsOdd, mac_regex_test, validate_form}
use esp8266_rtos_projects.WifiProv.Start.{Call, wifi_connect}

abbrev once_failed : Prov
once_failed = record { retry_num = 1; server = false }

run-disconnected_example :
    Events.run (replicate 9 sta_disconnected) once_failed
    ≡ (record once_failed { retry_num = 5 }, backoff 1 4)
run-disconnected_example = run-disconnected 9 once_failed (omega arith)

abbrev events : List Event
events = sta_disconnected ∷ sta_got_ip ∷ other ∷ sta_disconnected ∷ []

abbrev home : ApRecord
home = record {
  ssid = codes "home";
  rssi = negsuc 60;
  authmode = 3;
  bssid = 0xaa ∷ 0xbb ∷ 0xcc ∷ 0 ∷ 1 ∷ 2 ∷ [];
}

abbrev hidden : ApRecord
hidden = record home { ssid = [] }

abbrev stations : List ApRecord
stations = hidden ∷ home ∷ hidden ∷ home ∷ hidden ∷ []

scan_json-join_example :
    scan_json stations ≡ b'[' ∷ (join_with b',' (visible_objects stations) ++ b']' ∷ [])
scan_json-join_example = scan_json-join stations

scan_json-fits_example :
    (length (json_loop 5 0 stations (b'[' ∷ [])) + 1 ≤ capacity 5)
    × (length (scan_json stations) + 1 ≤ capacity 5)
scan_json-fits_example = scan_json-fits stations (omega arith)

-- A form with the lock set, and how the SDK finds its fields.
abbrev mac : List ℕ
mac = 0xaa ∷ 0xbb ∷ 0xcc ∷ 0 ∷ 1 ∷ 2 ∷ []

-- "Aa:bB:cc:00:01:02"
abbrev lock : Typed
lock = (
  (b'A', b'a'),
  (b':', (b'b', b'B'))
      ∷ (b':', (b'c', b'c'))
      ∷ (b':', (b'0', b'0'))
      ∷ (b':', (b'0', b'1'))
      ∷ (b':', (b'0', b'2'))
      ∷ [],
)

abbrev locked_form : Bytes → Bytes → ℕ → Option Bytes
locked_form buf key size =
    if str_eq key (codes "ssid")
    then some (url_encode (codes "my home"))
    else if str_eq key (codes "password")
    then some (url_encode (codes "s3cret&"))
    else if str_eq key (codes "bssid_enable")
    then some (codes "on")
    else if str_eq key (codes "bssid")
    then some (url_encode (spell lock.0 lock.1))
    else none

abbrev all_fine : StaConfig → Bool
all_fine c = true

save_config-Form_example : save_config locked_form all_fine [] once_failed ≡ (
  esp_ok,
  record once_failed { retry_num = 0 },
  set_config (wanted (codes "my home") (codes "s3cret&") (some mac))
      ∷ connect
      ∷ send (codes "Connecting... Please check device status.")
      ∷ [],
)
save_config-Form_example =
    save_config-Form locked_form all_fine [] (codes "my home") (codes "s3cret&") (some lock)
      once_failed (omega arith) (omega arith)
      (
        (
          (refl, refl),
          (
            (refl, (refl, refl)),
            (
              (refl, (refl, refl)),
              ((refl, (refl, refl)), ((refl, (refl, refl)), ((refl, (refl, refl)), tt))),
            ),
          ),
        ),
        (refl, refl),
      )
      (record { ssid = refl; password = refl; locked = (refl, refl) })

received :
    receive 3 (chunk (codes "ab") ∷ chunk (codes "cdefg") ∷ timeout ∷ []) []
    ≡ complete (codes "abc")
unfolding receive
received = refl

-- "aa:bb-cc:00:01:02"
abbrev dashed : Bytes
dashed = codes "aa:bb-cc:00:01:02"

accepted : validate_form (codes "home") (codes "secret12") true dashed ≡ true
unfolding validate_form mac_regex_test
accepted = refl

-- Forty-three percent signs.
abbrev signs : Bytes
signs = replicate 43 b'%'

signs-IsOdd : (n : ℕ) → All IsOdd (replicate n b'%')
signs-IsOdd zero = tt
signs-IsOdd (suc n) = ((refl, λ e. omega (arith, e)), signs-IsOdd n)

abbrev signs_form : Bytes → Bytes → ℕ → Option Bytes
signs_form buf key size =
    if str_eq key (codes "ssid")
    then some (codes "home")
    else if ltb (length (url_encode signs)) size
    then some (url_encode signs)
    else none

-- No network to connect to: the third call of the mode fails.
abbrev no_connect : Call → Bool
no_connect wifi_connect = false
no_connect c = true
