-- ===== src/SoftapProv/Applies.antt =====
-- From the network that the phone sends to the one that the driver has.
use esp8266_rtos_projects.Prelude.{
  ℕ, ◌+◌, ◌-◌, ◌≤◌, ◌<◌, ◌≡◌, ◌≢◌, refl, ap₂, ◌∙◌, Bool, true, false, ◌&&◌, none, some, Bytes, All,
  length, take_all, c_string_text, arith,
}
use esp8266_rtos_projects.Libc.Copy.{strlcpy, strncpy}
use esp8266_rtos_projects.SoftapProv.{Credentials, Device, sta_mode}
use esp8266_rtos_projects.SoftapProv.Service.{esp_ok, esp_fail, Works}
use esp8266_rtos_projects.SoftapProv.Handlers.{
  Driver, now_connecting, app_prov_configure_sta, app_prov_is_provisioned, set_config_handler,
  apply_config_handler,
}
use esp8266_rtos_projects.SoftapProv.Station.{station, app_main}

strncpy-fits : (n : ℕ) (s : Bytes) → All (λ c. c ≢ 0) s → length s ≤ n → strncpy n s ≡ s
unfolding strncpy
strncpy-fits n s h fits = rw (c_string_text s h) (take_all n s fits)

strlcpy-fits : (n : ℕ) (s : Bytes) → All (λ c. c ≢ 0) s → length s < n → strlcpy n s ≡ s
unfolding strlcpy
strlcpy-fits n s h fits = rw (c_string_text s h) (take_all (n - 1) s (omega arith))

-- The calls that let the driver have the configuration.
abbrev pub takes : Driver → Bool
takes driver = driver.set_mode && driver.set_config

apply-driver :
    (driver : Driver) (cfg : Credentials) (d : Device)
    → d.ctx ≡ some cfg
    → takes driver ≡ true
    → let (err, d') = apply_config_handler driver d in
      (err ≡ esp_ok) × ((d'.ctx ≡ none) × (d'.sta ≡ cfg))
unfolding apply_config_handler app_prov_configure_sta now_connecting
apply-driver driver cfg d h t = ground arith

apply-none :
    (driver : Driver) (d : Device) → d.ctx ≡ none → apply_config_handler driver d ≡ (esp_fail, d)
unfolding apply_config_handler
apply-none driver d h = ground arith

main-station :
    (ssid pass : Bytes) (works : Works) (security : ℕ) (d : Device)
    → 0 < length d.sta.ssid
    → app_main ssid pass security true works d
      ≡ station (record d { mode = sta_mode; handlers = d.handlers + 2 })
unfolding app_main app_prov_is_provisioned
main-station ssid pass works security d h = ground arith

-- A network whose name has 1 to 32 bytes and whose password has at most 63 is what the driver has, byte
-- for byte, once it has been sent and applied, whatever was sent before; it can be applied once; and the
-- device, when it boots next, is a station of it.
pub apply-set_config :
    (ssid password ap_ssid ap_pass : Bytes) (driver again : Driver) (works : Works) (security : ℕ)
    (d : Device)
    → All (λ c. c ≢ 0) ssid
    → All (λ c. c ≢ 0) password
    → 0 < length ssid
    → length ssid ≤ 32
    → length password ≤ 63
    → takes driver ≡ true
    → let sent = (set_config_handler true ssid password d).1 in
      let (err, applied) = apply_config_handler driver sent in
      (err ≡ esp_ok)
      × ((applied.sta ≡ record { ssid = ssid; password = password })
          × ((apply_config_handler again applied ≡ (esp_fail, applied))
              × (app_main ap_ssid ap_pass security true works applied
                  ≡ station (record applied { mode = sta_mode; handlers = applied.handlers + 2 }))))
unfolding set_config_handler
apply-set_config ssid password ap_ssid ap_pass driver again works security d hs hp pos fs fp t =
    let sent = (set_config_handler true ssid password d).1 in
    let applied = (apply_config_handler driver sent).1 in
    let (ok, (used, now)) = apply-driver driver _ sent refl t in
    let same : applied.sta ≡ record { ssid = ssid; password = password } =
      now
      ∙ ap₂ (λ s p. record { ssid = s; password = p }) (strncpy-fits 32 ssid hs fs)
          (strlcpy-fits 64 password hp (omega arith)) in
    (
      ok,
      (
        same,
        (
          apply-none again applied used,
          main-station ap_ssid ap_pass works security applied (ground (arith, same)),
        ),
      ),
    )

-- What the driver refuses is not told: the answer is ESP_OK, the configuration is forgotten, and the
-- driver has none of it.
pub apply_config-silent :
    (driver : Driver) (cfg : Credentials) (d : Device)
    → d.ctx ≡ some cfg
    → takes driver ≡ false
    → let (err, d') = apply_config_handler driver d in
      (err ≡ esp_ok) × ((d'.ctx ≡ none) × (d'.sta ≡ d.sta))
unfolding apply_config_handler app_prov_configure_sta now_connecting
apply_config-silent driver cfg d h t = ground arith
