-- ===== src/WifiCommand/Joining.antt =====
-- Joining a network, leaving it, and being an access point.
use esp8266_rtos_projects.Prelude.{
  ℕ, ◌+◌, ◌≤◌, ◌<◌, ◌≡◌, ◌≢◌, ◌⊎◌, refl, Bool, true, false, Option, some, List, [], ◌∷◌, ◌++◌,
  Bytes, All, length, take, c_string_text, arith, if◌then◌else◌,
}
use esp8266_rtos_projects.Libc.Copy.{strlcpy}
use esp8266_rtos_projects.WifiCommand.{
  auth_open, auth_wpa_wpa2_psk, Station, NetEvent, got_ip, sta_disconnected, got_ip_handler,
  disconnect_handler, on_event, on_events, leave_network, join_network, wifi_cmd_sta_join, returned,
  wifi_cmd_ap_set, shown_ap, shown_sta, wifi_cmd_query,
}

abbrev pub losses : List NetEvent → ℕ
losses [] = 0
losses (got_ip ∷ es) = losses es
losses (sta_disconnected ∷ es) = 1 + losses es

-- What the handlers leave alone, and how often they connect again.
on_events-connects :
    (es : List NetEvent) (s : Station)
    → let s' = on_events es s in
      (s'.connects ≡ s.connects + (if s.reconnect then losses es else 0))
      × ((s'.reconnect ≡ s.reconnect) × ((s'.mode ≡ s.mode) × ((s'.sta ≡ s.sta) × (s'.ap ≡ s.ap))))
unfolding on_events on_event got_ip_handler disconnect_handler
on_events-connects [] s = ground arith
on_events-connects (got_ip ∷ es) s = on_events-connects es (on_event got_ip s)
on_events-connects (sta_disconnected ∷ es) s =
    ground (arith, on_events-connects es (on_event sta_disconnected s))

-- A join connects once, and again for each loss while it waits for the new network: the loss of the old
-- network, which the join itself leaves, is not taken for one, if it comes in the wait that follows.
pub sta_join-connects :
    (ssid : Bytes) (pass : Option Bytes) (leaving joining : List NetEvent) (s : Station)
    → s.connected_bit ≡ true
    → (wifi_cmd_sta_join ssid pass leaving joining s).connects ≡ s.connects + 1 + losses joining
unfolding wifi_cmd_sta_join leave_network join_network
sta_join-connects ssid pass leaving joining s h =
    let left = record s { reconnect = false; connected_bit = false } in
    ground (
      arith,
      on_events-connects leaving left,
      on_events-connects joining (join_network ssid pass (leave_network leaving s)),
    )

on_events-got_ip :
    (es : List NetEvent) (s : Station) → (on_events (es ++ got_ip ∷ []) s).connected_bit ≡ true
unfolding on_events on_event got_ip_handler
on_events-got_ip [] s = refl
on_events-got_ip (e ∷ es) s = on_events-got_ip es (on_event e s)

-- The query after a join that got an address shows the network's name, cut after 31 bytes, though a name
-- may have 32.
pub query-sta_join :
    (ssid : Bytes) (pass : Option Bytes) (leaving joining : List NetEvent) (s : Station)
    → All (λ c. c ≢ 0) ssid
    → wifi_cmd_query (wifi_cmd_sta_join ssid pass leaving (joining ++ got_ip ∷ []) s)
      ≡ shown_sta (take 31 ssid)
unfolding wifi_cmd_query wifi_cmd_sta_join join_network strlcpy
query-sta_join ssid pass leaving joining s h =
    let before = join_network ssid pass (leave_network leaving s) in
    ground (
      arith,
      on_events-connects (joining ++ got_ip ∷ []) before,
      on_events-got_ip joining before,
      c_string_text ssid h,
    )

-- An access point's password, if it has one, has at least 8 bytes, and one that has none is open: a
-- shorter password is refused and leaves the driver as it is. After that, whatever the handlers see, they
-- do not connect to a network, and the query shows the access point's name and password.
pub ap_set-safe :
    (ssid pass : Bytes) (es : List NetEvent) (s s' : Station) (ok : Bool)
    → wifi_cmd_ap_set ssid (some pass) s ≡ returned ok s'
    → ((ok ≡ false)
        × ((0 < length pass) × ((length pass < 8) × ((s'.ap ≡ s.ap) × (s'.mode ≡ s.mode)))))
      ⊎ ((ok ≡ true)
          × (((length pass ≡ 0) × (s'.ap.authmode ≡ auth_open))
              ⊎ ((8 ≤ length pass) × (s'.ap.authmode ≡ auth_wpa_wpa2_psk)))
          × (((on_events es s').connects ≡ s.connects)
              × (wifi_cmd_query (on_events es s') ≡ shown_ap (strlcpy 32 ssid) (strlcpy 64 pass))))
unfolding wifi_cmd_query wifi_cmd_ap_set
ap_set-safe ssid pass es s s' ok h = ground (arith, on_events-connects es s')
