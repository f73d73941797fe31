-- ===== src/WifiProv/Start/Modes.antt =====
-- Which mode the device comes up in.
use esp8266_rtos_projects.Prelude.{
  ◌≡◌, refl, Bool, true, false, List, [], ◌∷◌, ◌++◌, Bytes, ◌==◌, if◌then◌else◌, get_or, arith,
  Bool-cases, inl, inr,
}
use esp8266_rtos_projects.WifiProv.Start.{
  sta, apsta, Call, netif_init, event_loop_create, wifi_init, register_wifi_events,
  register_ip_events, get_config, set_mode, set_ap_config, wifi_start, wifi_connect, ap_config, Ran,
  check_then, start_webserver, start_mode, wifi_init_softap_sta,
}

abbrev common : List Call
common =
    netif_init ∷ event_loop_create ∷ wifi_init ∷ register_wifi_events ∷ register_ip_events
    ∷ get_config ∷ []

-- The calls that `ESP_ERROR_CHECK` guards, for the name that is stored.
abbrev pub checked : Bytes → List Call
checked ssid =
    common
    ++ (if get_or ssid 0 0 == 0
        then set_mode apsta ∷ set_ap_config ap_config ∷ wifi_start ∷ []
        else set_mode sta ∷ wifi_start ∷ wifi_connect ∷ [])

-- The calls up to the first that fails, that one included.
abbrev pub up_to_failure : (Call → Bool) → List Call → List Call
up_to_failure ok [] = []
up_to_failure ok (c ∷ cs) = c ∷ (if ok c then up_to_failure ok cs else [])

abbrev pub all_succeed : (Call → Bool) → List Call → Bool
all_succeed ok [] = true
all_succeed ok (c ∷ cs) = if ok c then all_succeed ok cs else false

module _ (succeeds : Call → Bool) where
  chain : List Call → Ran → Ran
  chain [] r = r
  chain (c ∷ cs) r = check_then succeeds c (chain cs r)

  chain-up_to_failure :
      (cs : List Call) (last : List Call)
      → chain cs (record { calls = last; alive = true }) ≡ record {
        calls = up_to_failure succeeds cs ++ (if all_succeed succeeds cs then last else []);
        alive = all_succeed succeeds cs;
      }
  unfolding chain check_then
  chain-up_to_failure [] last = refl
  chain-up_to_failure (c ∷ cs) last = ground (arith, chain-up_to_failure cs last)

  -- The device makes the calls of its mode in order and stops at the first that fails. With no name
  -- stored it comes up as an access point of its own and, if all of them succeed, starts the web
  -- server; with a name stored it connects to it and starts none.
  pub wifi_init_softap_sta-checked :
      (ssid : Bytes)
      → wifi_init_softap_sta succeeds ssid ≡ record {
        calls =
            up_to_failure succeeds (checked ssid)
            ++ (if all_succeed succeeds (checked ssid)
                then (if get_or ssid 0 0 == 0 then (start_webserver succeeds).0 else [])
                else []);
        alive = all_succeed succeeds (checked ssid);
      }
  unfolding wifi_init_softap_sta start_mode chain
  wifi_init_softap_sta-checked ssid = elim (Bool-cases (get_or ssid 0 0 == 0)) [
    | inl fresh ↦ rw fresh (
        chain-up_to_failure (common ++ (set_mode apsta ∷ set_ap_config ap_config ∷ wifi_start ∷ []))
          (start_webserver succeeds).0)
    | inr stored ↦
        rw stored
          (chain-up_to_failure (common ++ (set_mode sta ∷ wifi_start ∷ wifi_connect ∷ [])) [])
  ]
