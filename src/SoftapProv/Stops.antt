-- ===== src/SoftapProv/Stops.antt =====
-- What a start leaves behind when it fails, and when it succeeds and provisioning stops.
use esp8266_rtos_projects.Prelude.{
  ℕ, ◌+◌, ◌≡◌, refl, Bool, true, false, ◌&&◌, none, some, List, [], ◌∷◌, Bytes, arith,
  if◌then◌else◌,
}
use esp8266_rtos_projects.SoftapProv.{
  AppProv, sta_mode, Device, Event, app_prov_event_handler, handle_events,
}
use esp8266_rtos_projects.SoftapProv.Service.{
  esp_ok, esp_fail, is_ok, Works, start_wifi_ap, app_prov_start_service, new_prov,
  start_ap_and_service, start_timer_and_handlers, app_prov_start_softap_provisioning,
  app_prov_stop_service, stop_prov_task,
}
use esp8266_rtos_projects.SoftapProv.Told.{runs}

-- Everything after `calloc` succeeds.
abbrev pub all_work : Works → Bool
all_work w =
    w.timer
    && (w.wifi_handler
        && (w.ip_handler
            && (w.set_mode
                && (w.set_config && (w.wifi_start && (w.protocomm && (w.httpd && w.endpoint)))))))

event_kept :
    (e : Event) (d : Device)
    → let d' = app_prov_event_handler e d in
      (runs d' ≡ runs d) × ((d'.servers ≡ d.servers) × (d'.handlers ≡ d.handlers))
unfolding app_prov_event_handler
event_kept e d = ground arith

events_kept :
    (es : List Event) (d : Device)
    → let d' = handle_events es d in
      (runs d' ≡ runs d) × ((d'.servers ≡ d.servers) × (d'.handlers ≡ d.handlers))
unfolding handle_events
events_kept [] d = (refl, (refl, refl))
events_kept (e ∷ es) d = ground (arith, event_kept e d, events_kept es (app_prov_event_handler e d))

module _ (ssid pass : Bytes) where
  wifi_ap-result :
      (w : Works) (d : Device)
      → let (err, d') = start_wifi_ap ssid pass w d in
        (is_ok err ≡ (w.set_mode && (w.set_config && w.wifi_start)))
        × ((d'.g_prov ≡ d.g_prov) × ((d'.servers ≡ d.servers) × (d'.handlers ≡ d.handlers)))
  unfolding start_wifi_ap
  wifi_ap-result w d = ground arith

  service-result :
      (w : Works) (p : AppProv) (d : Device)
      → let (err, d') = app_prov_start_service w p d in
        (is_ok err ≡ (w.protocomm && (w.httpd && w.endpoint)))
        × ((runs d' ≡ true)
            × ((d'.servers ≡ d.servers + (if is_ok err then 1 else 0))
                × (d'.handlers ≡ d.handlers)))
  unfolding app_prov_start_service
  service-result w p d = ground arith

  ap_and_service-result :
      (w : Works) (p : AppProv) (d : Device)
      → runs d ≡ true
      → let (err, d') = start_ap_and_service ssid pass w p d in
        (is_ok err ≡ (
          w.set_mode
          && (w.set_config && (w.wifi_start && (w.protocomm && (w.httpd && w.endpoint))))))
        × ((runs d' ≡ true)
            × ((d'.servers ≡ d.servers + (if is_ok err then 1 else 0))
                × (d'.handlers ≡ d.handlers)))
  unfolding start_ap_and_service
  ap_and_service-result w p d h =
      ground (arith, wifi_ap-result w d, service-result w p (start_wifi_ap ssid pass w d).1)

  start-result :
      (w : Works) (security : ℕ) (d : Device)
      → runs d ≡ false
      → w.memory ≡ true
      → let (err, d') = app_prov_start_softap_provisioning ssid pass security w d in
        (is_ok err ≡ all_work w)
        × ((runs d' ≡ true)
            × ((d'.servers ≡ d.servers + (if is_ok err then 1 else 0))
                × (d'.handlers
                    ≡ d.handlers
                      + (if w.timer && w.wifi_handler then if w.ip_handler then 2 else 1 else 0))))
  unfolding app_prov_start_softap_provisioning start_timer_and_handlers
  start-result w security d h m =
      let timed = record (new_prov security) { timer = true } in
      ground (
        arith,
        ap_and_service-result w timed (record d { g_prov = some timed; handlers = d.handlers + 2 })
            refl,
      )

  refused-while_on :
      (w : Works) (security : ℕ) (d : Device)
      → runs d ≡ true
      → app_prov_start_softap_provisioning ssid pass security w d ≡ (esp_fail, d)
  unfolding app_prov_start_softap_provisioning
  refused-while_on w security d h = ground arith

-- A start that fails after `calloc`, whatever it is that fails, leaves `g_prov` set, which nothing but a
-- stop clears: every later start is refused, though no server runs.
pub start_failed-refuses :
    (ssid pass : Bytes) (works later : Works) (security : ℕ) (es : List Event) (d : Device)
    → runs d ≡ false
    → works.memory ≡ true
    → all_work works ≡ false
    → let (err, d') = app_prov_start_softap_provisioning ssid pass security works d in
      let left = handle_events es d' in
      (is_ok err ≡ false)
      × ((left.servers ≡ d.servers)
          × (app_prov_start_softap_provisioning ssid pass security later left ≡ (esp_fail, left)))
start_failed-refuses ssid pass works later security es d off m fails =
    let d' = (app_prov_start_softap_provisioning ssid pass security works d).1 in
    let (err, (on, (servers, _))) = start-result ssid pass works security d off m in
    let (still, (same, _)) = events_kept es d' in
    (
      ground arith,
      (
        ground arith,
        refused-while_on ssid pass later security (handle_events es d') (ground arith),
      ),
    )

stopped_end : Device → Device
stopped_end d = record (app_prov_stop_service d) { mode = sta_mode; g_prov = none }

stop-runs : (d : Device) → runs d ≡ true → stop_prov_task d ≡ some (stopped_end d)
unfolding stop_prov_task stopped_end
stop-runs d h = ground arith

start-memory :
    (ssid pass : Bytes) (works : Works) (security : ℕ) (d d' : Device)
    → runs d ≡ false
    → app_prov_start_softap_provisioning ssid pass security works d ≡ (esp_ok, d')
    → works.memory ≡ true
unfolding app_prov_start_softap_provisioning
start-memory ssid pass works security d d' off h = ground arith

-- A start that succeeds runs one server more and two handlers of events; after any events, the task that
-- the timer creates finds `g_prov` set, and leaves as many servers and handlers as there were, no `g_prov`
-- and the station's mode.
pub start-stop :
    (ssid pass : Bytes) (works : Works) (security : ℕ) (es : List Event) (d d' : Device)
    → runs d ≡ false
    → app_prov_start_softap_provisioning ssid pass security works d ≡ (esp_ok, d')
    → (d'.servers ≡ d.servers + 1)
      × ((d'.handlers ≡ d.handlers + 2)
          × ((end : Device) × ((stop_prov_task (handle_events es d') ≡ some end)
                × ((runs end ≡ false)
                    × ((end.servers ≡ d.servers)
                        × ((end.handlers ≡ d.handlers) × (end.mode ≡ sta_mode)))))))
unfolding stopped_end app_prov_stop_service
start-stop ssid pass works security es d d' off h =
    let m = start-memory ssid pass works security d d' off h in
    let (ok, (on, (servers, handlers))) = start-result ssid pass works security d off m in
    let (still, (same, kept)) = events_kept es d' in
    let more : d'.servers ≡ d.servers + 1 = ground arith in
    let two : d'.handlers ≡ d.handlers + 2 = ground arith in
    (
      more,
      (
        two,
        (
          stopped_end (handle_events es d'),
          (
            stop-runs (handle_events es d') (ground arith),
            (refl, (omega arith, (omega arith, refl))),
          ),
        ),
      ),
    )
