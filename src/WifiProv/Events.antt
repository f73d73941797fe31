-- ===== src/WifiProv/Events.antt =====
-- `wifi_event_handler`: the reconnection policy.
pub mod Backoff
use esp8266_rtos_projects.Prelude.{
  ℕ, ◌+◌, ◌*◌, Bool, true, false, List, [], ◌∷◌, ◌++◌, ltb, if◌then◌else◌,
}
use esp8266_rtos_projects.WifiProv.State.{Prov, Action, delay, connect, restart}

abbrev pub max_retry : ℕ
max_retry = 5

-- The pairs of event base and id that the handler tells apart; `other` is any other.
pub data Event : Type 0 where
  ap_staconnected ap_stadisconnected sta_got_ip sta_disconnected other : Event

pub wifi_event_handler : Event → Prov → Prov × List Action
wifi_event_handler ap_staconnected s = (s, [])
wifi_event_handler ap_stadisconnected s = (s, [])
wifi_event_handler sta_got_ip s =
    (record s { retry_num = 0 }, if s.server then delay 1000 ∷ restart ∷ [] else [])
wifi_event_handler sta_disconnected s =
    if ltb s.retry_num max_retry
    then (record s { retry_num = s.retry_num + 1 }, delay ((s.retry_num + 1) * 1500) ∷ connect ∷ [])
    else (s, [])
wifi_event_handler other s = (s, [])

-- The event loop calls the handler for each event in turn.
pub run : List Event → Prov → Prov × List Action
run [] s = (s, [])
run (e ∷ es) s =
    let (s', now) = wifi_event_handler e s in let (t, later) = run es s' in (t, now ++ later)
