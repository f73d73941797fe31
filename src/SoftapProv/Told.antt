-- ===== src/SoftapProv/Told.antt =====
-- What the phone is told of the station.
use esp8266_rtos_projects.Prelude.{
  ℕ, ◌+◌, ◌≡◌, Bool, true, false, none, some, List, [], ◌∷◌, ◌++◌, arith,
}
use esp8266_rtos_projects.SoftapProv.{
  connecting, connected, disconnected, auth_error, ap_not_found, Reason, no_ap_found,
  basic_rate_not_support, other_reason, Device, Event, sta_start, got_ip, sta_disconnected,
  on_reason, on_prov, app_prov_event_handler, handle_events, app_prov_get_wifi_state,
  app_prov_get_wifi_disconnect_reason,
}
use esp8266_rtos_projects.SoftapProv.Handlers.{StatusData, get_status_handler}

abbrev pub runs : Device → Bool
runs d = elim d.g_prov [ none ↦ false | some p ↦ true ]

abbrev pub lost : Reason → StatusData
lost no_ap_found = record { wifi_state = disconnected; fail_reason = ap_not_found }
lost basic_rate_not_support = record { wifi_state = connecting; fail_reason = auth_error }
lost (other_reason n) = record { wifi_state = connecting; fail_reason = auth_error }
lost _ = record { wifi_state = disconnected; fail_reason = auth_error }

-- What there is to tell after an event.
abbrev pub told : Event → StatusData
told sta_start = record { wifi_state = connecting; fail_reason = auth_error }
told got_ip = record { wifi_state = connected; fail_reason = auth_error }
told (sta_disconnected reason) = lost reason

-- The losses after which the station connects again.
abbrev pub again : List Event → ℕ
again [] = 0
again (sta_disconnected basic_rate_not_support ∷ es) = 1 + again es
again (sta_disconnected (other_reason n) ∷ es) = 1 + again es
again (_ ∷ es) = again es

reason-told :
    (reason : Reason) (d : Device)
    → runs d ≡ true
    → let d' = app_prov_event_handler (sta_disconnected reason) d in
      (get_status_handler d' ≡ some (lost reason))
      × ((runs d' ≡ true) × (d'.connects ≡ d.connects + again (sta_disconnected reason ∷ [])))
unfolding app_prov_event_handler on_prov on_reason get_status_handler app_prov_get_wifi_state
    app_prov_get_wifi_disconnect_reason
reason-told reason d h = ground arith

event-told :
    (e : Event) (d : Device)
    → runs d ≡ true
    → let d' = app_prov_event_handler e d in
      (get_status_handler d' ≡ some (told e))
      × ((runs d' ≡ true) × (d'.connects ≡ d.connects + again (e ∷ [])))
unfolding app_prov_event_handler on_prov get_status_handler app_prov_get_wifi_state
    app_prov_get_wifi_disconnect_reason
event-told sta_start d h = ground arith
event-told got_ip d h = ground arith
event-told (sta_disconnected reason) d h = reason-told reason d h

again-event : (e : Event) (es : List Event) → again (e ∷ es) ≡ again (e ∷ []) + again es
again-event e es = ground arith

-- While provisioning runs, the phone is told what the last event says, whatever came before: a reason
-- of an earlier loss is never told for a later one. And the station connects again just once for each
-- loss whose reason is neither of authentication nor a missing access point.
pub handle_events-told :
    (es : List Event) (e : Event) (d : Device)
    → runs d ≡ true
    → let d' = handle_events (es ++ e ∷ []) d in
      (get_status_handler d' ≡ some (told e)) × (d'.connects ≡ d.connects + again (es ++ e ∷ []))
unfolding handle_events
handle_events-told [] e d h = let (now, (on, same)) = event-told e d h in (now, same)
handle_events-told (x ∷ es) e d h =
    let (_, (on, same)) = event-told x d h in
    let (now, later) = handle_events-told es e (app_prov_event_handler x d) on in
    (now, omega (arith, again-event x (es ++ e ∷ [])))
