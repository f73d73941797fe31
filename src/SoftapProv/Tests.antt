-- ===== src/SoftapProv/Tests.antt =====
-- The theorems on provisioning, at concrete devices.
use esp8266_rtos_projects.Prelude.{
  ◌+◌, ◌≡◌, refl, true, false, none, some, List, [], ◌∷◌, ◌++◌, codes, arith,
}
use esp8266_rtos_projects.Libc.Copy.{strlcpy}
use esp8266_rtos_projects.SoftapProv.{
  connecting, auth_error, no_ap_found, auth_fail, basic_rate_not_support, null_mode, sta_mode,
  ap_mode, auth_open, Device, Event, got_ip, sta_disconnected, handle_events,
}
use esp8266_rtos_projects.SoftapProv.Service.{
  esp_ok, esp_fail, is_ok, Works, ap_config, start_wifi_ap, app_prov_start_service, new_prov,
  start_ap_and_service, start_timer_and_handlers, app_prov_start_softap_provisioning,
  stop_prov_task,
}
use esp8266_rtos_projects.SoftapProv.Handlers.{
  Driver, get_status_handler, set_config_handler, apply_config_handler,
}
use esp8266_rtos_projects.SoftapProv.Station.{Retry, app_main, station}
use esp8266_rtos_projects.SoftapProv.Told.{runs, told, handle_events-told}
use esp8266_rtos_projects.SoftapProv.Stops.{start_failed-refuses, start-stop}
use esp8266_rtos_projects.SoftapProv.Applies.{apply-set_config}

abbrev fresh : Device
fresh = record {
  g_prov = none;
  mode = null_mode;
  sta = record { ssid = []; password = [] };
  ap = record { ssid = []; password = []; authmode = auth_open };
  connects = 0;
  handlers = 0;
  servers = 0;
  ctx = none;
}

abbrev running : Device
running = record fresh {
  g_prov = some (record {
    pc = true;
    security = 0;
    timer = true;
    timer_runs = false;
    wifi_state = connecting;
    wifi_disconnect_reason = auth_error;
  });
  mode = ap_mode;
  ap = record { ssid = codes "PROV"; password = []; authmode = auth_open };
  handlers = 2;
  servers = 1;
}

abbrev works : Works
works = record {
  memory = true;
  timer = true;
  wifi_handler = true;
  ip_handler = true;
  set_mode = true;
  set_config = true;
  wifi_start = true;
  protocomm = true;
  httpd = true;
  endpoint = true;
}

abbrev events : List Event
events = sta_disconnected no_ap_found ∷ got_ip ∷ sta_disconnected basic_rate_not_support ∷ []

handle_events-told_example :
    let d' = handle_events (events ++ sta_disconnected auth_fail ∷ []) running in
    (get_status_handler d' ≡ some (told (sta_disconnected auth_fail))) × (d'.connects ≡ 1)
handle_events-told_example = handle_events-told events (sta_disconnected auth_fail) running refl

start_failed-refuses_example :
    let (err, d') =
      app_prov_start_softap_provisioning
        (codes "PROV")
        []
        0
        (record works { httpd = false })
        fresh in
    let left = handle_events events d' in
    (is_ok err ≡ false)
    × ((left.servers ≡ 0)
        × (app_prov_start_softap_provisioning (codes "PROV") [] 0 works left ≡ (esp_fail, left)))
start_failed-refuses_example =
    start_failed-refuses (codes "PROV") [] (record works { httpd = false }) works 0 events fresh
      refl refl refl

started : app_prov_start_softap_provisioning (codes "PROV") [] 0 works fresh ≡ (esp_ok, running)
unfolding app_prov_start_softap_provisioning start_timer_and_handlers start_ap_and_service
    start_wifi_ap app_prov_start_service new_prov ap_config strlcpy
started = refl

start-stop_example :
    (running.servers ≡ 1)
    × ((running.handlers ≡ 2)
        × ((end : Device) × ((stop_prov_task (handle_events events running) ≡ some end)
              × ((runs end ≡ false)
                  × ((end.servers ≡ 0) × ((end.handlers ≡ 0) × (end.mode ≡ sta_mode)))))))
start-stop_example = start-stop (codes "PROV") [] works 0 events fresh running refl started

abbrev driver : Driver
driver = record { set_mode = true; set_config = true; start = true; connect = false }

apply-set_config_example :
    let sent = (set_config_handler true (codes "net") (codes "pw") running).1 in
    let (err, applied) = apply_config_handler driver sent in
    (err ≡ esp_ok)
    × ((applied.sta ≡ record { ssid = codes "net"; password = codes "pw" })
        × ((apply_config_handler driver applied ≡ (esp_fail, applied))
            × (app_main (codes "PROV") [] 0 true works applied
                ≡ station (record applied { mode = sta_mode; handlers = applied.handlers + 2 }))))
apply-set_config_example =
    apply-set_config (codes "net") (codes "pw") (codes "PROV") [] driver driver works 0 running
      (omega arith, (omega arith, (omega arith, tt))) (omega arith, (omega arith, tt)) (omega arith)
      (omega arith) (omega arith) refl

abbrev waiting : Device
waiting = record running { ctx = some (record { ssid = codes "net"; password = [] }) }

abbrev once : Retry
once = record { s_retry_num = 1; connects = 1 }
