-- ===== src/WifiCommand/Tests.antt =====
-- The theorems on the commands, at concrete ones.
use esp8266_rtos_projects.Prelude.{
  ℕ, ◌%◌, if◌then◌else◌, ◌<◌, ◌≤◌, ◌≡◌, ◌≢◌, ◌⊎◌, refl, true, false, not, ◌&&◌, ◌||◌, none, some,
  List, [], ◌∷◌, Bytes, codes, length, leb,
}
use esp8266_rtos_projects.Libc.Copy.{strlcpy}
use esp8266_rtos_projects.Iperf.{iperf_is_udp_client, iperf_is_udp_server, iperf_is_tcp_client}
use esp8266_rtos_projects.Iperf.Control.{start}
use esp8266_rtos_projects.WifiCommand.{
  Station, null_mode, ap_mode, auth_open, auth_wpa_wpa2_psk, sta_disconnected, on_events,
  wifi_cmd_ap_set, returned, wifi_cmd_query, shown_ap,
}
use esp8266_rtos_projects.WifiCommand.Measure.{
  IperfArgs, config_of, wifi_cmd_iperf, given, default_time,
}
use esp8266_rtos_projects.WifiCommand.Joining.{ap_set-safe}
use esp8266_rtos_projects.WifiCommand.Started.{option_or, wifi_cmd_iperf-starts}

abbrev station : Station
station = record {
  connected_bit = true;
  disconnected_bit = false;
  reconnect = true;
  mode = null_mode;
  sta = record { ssid = []; password = [] };
  ap = record { ssid = []; password = []; authmode = auth_open };
  connects = 1;
}

abbrev secret : Bytes
secret = codes "12345678"

abbrev ap_station : Station
ap_station = record station {
  reconnect = false;
  mode = ap_mode;
  ap = record { ssid = codes "mine"; password = secret; authmode = auth_wpa_wpa2_psk };
}

ap_is_set : wifi_cmd_ap_set (codes "mine") (some secret) station ≡ returned true ap_station
unfolding wifi_cmd_ap_set strlcpy
ap_is_set = refl

ap_set-safe_example :
    ((true ≡ false)
      × ((0 < length secret)
          × ((length secret < 8)
              × ((ap_station.ap ≡ station.ap) × (ap_station.mode ≡ station.mode)))))
    ⊎ ((true ≡ true)
        × (((length secret ≡ 0) × (ap_station.ap.authmode ≡ auth_open))
            ⊎ ((8 ≤ length secret) × (ap_station.ap.authmode ≡ auth_wpa_wpa2_psk)))
        × (((on_events (sta_disconnected ∷ []) ap_station).connects ≡ station.connects)
            × (wifi_cmd_query (on_events (sta_disconnected ∷ []) ap_station)
                ≡ shown_ap (strlcpy 32 (codes "mine")) (strlcpy 64 secret))))
ap_set-safe_example =
    ap_set-safe (codes "mine") secret (sta_disconnected ∷ []) station ap_station true ap_is_set

abbrev found : List ℕ
found = 7 ∷ 8 ∷ []

abbrev args : IperfArgs
args = record {
  parsed = true;
  ip = some 16885952;
  server = false;
  udp = true;
  port = none;
  interval = none;
  time = some 10;
  abort = false;
}

makes_run :
    wifi_cmd_iperf args 33663168 true true ≡ some (start (some (config_of args 33663168)) true true)
unfolding wifi_cmd_iperf
makes_run = refl

wifi_cmd_iperf-starts_example :
    let cfg = config_of args 33663168 in
    (given args.ip ≡ not args.server)
    × (((cfg.dip ≡ option_or 0 args.ip)
          × ((cfg.dport ≡ (if args.server then 5001 else option_or 5001 args.port % 65536))
              × (cfg.sport ≡ (if args.server then option_or 5001 args.port % 65536 else 5001))))
        × ((iperf_is_udp_client cfg ≡ (not args.server && args.udp))
            × ((iperf_is_udp_server cfg ≡ (args.server && args.udp))
                × ((iperf_is_tcp_client cfg ≡ (not args.server && not args.udp))
                    × ((cfg.sip ≢ 0)
                        × ((0 < cfg.interval)
                            × (leb cfg.interval cfg.time
                                ≡ (given args.time || leb cfg.interval default_time))))))))
wifi_cmd_iperf-starts_example =
    wifi_cmd_iperf-starts args 33663168 true true (config_of args 33663168) makes_run
