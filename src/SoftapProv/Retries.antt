-- ===== src/SoftapProv/Retries.antt =====
-- How often a station that loses its network connects again.
use esp8266_rtos_projects.Prelude.{ℕ, ◌+◌, ◌-◌, ◌≤◌, ◌≡◌, List, [], ◌∷◌, map, length, arith, min}
use esp8266_rtos_projects.SoftapProv.{Reason, got_ip, sta_disconnected}
use esp8266_rtos_projects.SoftapProv.Station.{Retry, event_handler, station_events}

-- Losses in a row, from any state whose count is in bounds: the station connects again for each until
-- the attempts are used up, and then no more; an address makes the count start anew.
pub station_events-retries :
    (attempts : ℕ) (reasons : List Reason) (r : Retry)
    → r.s_retry_num ≤ attempts
    → let r' = station_events attempts (map sta_disconnected reasons) r in
      (r'.connects ≡ r.connects + min (length reasons) (attempts - r.s_retry_num))
      × ((r'.s_retry_num ≤ attempts) × ((event_handler attempts got_ip r').s_retry_num ≡ 0))
unfolding station_events event_handler
station_events-retries attempts [] r h = ground arith
station_events-retries attempts (reason ∷ reasons) r h =
    let next = event_handler attempts (sta_disconnected reason) r in
    ground (arith, station_events-retries attempts reasons next)
