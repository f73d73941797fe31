-- ===== src/WifiProv/Config.antt =====
-- `wifi_config_post_handler`: a new configuration from the form of the page.
pub mod Saves
pub mod Receive
use esp8266_rtos_projects.Prelude.{
  ℕ, zero, suc, ◌+◌, ◌-◌, Bool, true, false, Option, none, some, List, [], ◌∷◌, ◌++◌, Bytes, codes,
  ltb, leb, if◌then◌else◌, length, take, replicate, c_string, str_eq, ◌>>=◌,
}
use esp8266_rtos_projects.Utils.UrlDecode.{url_decode}
use esp8266_rtos_projects.Utils.MacAddress.{parse_mac_address}
use esp8266_rtos_projects.WifiProv.State.{
  Prov, StaConfig, Action, connect, set_config, send, send_500, send_408, Outcome, esp_ok, esp_fail,
  aborted,
}

-- What a call of `httpd_req_recv` returns: some bytes, a timeout, or another failure.
pub data Recv : Type 0 where
  chunk : Bytes → Recv
  timeout : Recv
  failed : Recv

-- How the loop of lines 287 to 295 ends; `waiting` while the body is not complete.
pub data Received : Type 0 where
  complete : Bytes → Received
  stopped : List Action → Received
  waiting : Received

-- The loop, with `buf[0 .. cur_len)` received. A call returns at most the bytes that it is asked
-- for; no bytes are a failure.
unfoldable pub receive : ℕ → List Recv → Bytes → Received
receive total_len [] buf = if ltb (length buf) total_len then waiting else complete buf
receive total_len (r ∷ rest) buf =
    let next : Received = elim r [
      | chunk bytes ↦ elim (take (total_len - length buf) bytes) [
        | [] ↦ stopped []
        | c ∷ cs ↦ receive total_len rest (buf ++ c ∷ cs)
      ]
      | timeout ↦ stopped (send_408 ∷ [])
      | failed ↦ stopped []
    ] in
    if ltb (length buf) total_len then next else complete buf

-- `strncpy` into a zeroed array of `n` bytes.
abbrev pub copy_to : ℕ → Bytes → Bytes
copy_to n s = take n (s ++ replicate n 0)

-- `httpd_query_key_value(buf, key, val, size)`: the value, if the call returns `ESP_OK`; and whether
-- `esp_wifi_set_config` succeeds.
module _ (query : Bytes → Bytes → ℕ → Option Bytes) (set_config_ok : StaConfig → Bool) where
  -- Lines 316 to 326: the address to lock to, if there is one.
  pub bssid_of : Bytes → Option (List ℕ)
  bssid_of buf = do
    enable ← query buf (codes "bssid_enable") 10
    bssid_encoded ← (if str_eq enable (codes "on") then query buf (codes "bssid") 64 else none)
    parse_mac_address (c_string (url_decode bssid_encoded 20))

  -- Lines 306 to 326.
  pub sta_config : Bytes → Bytes → Bytes → StaConfig
  sta_config buf ssid_encoded password_encoded =
      let named : StaConfig = record {
        ssid = copy_to 32 (c_string (url_decode ssid_encoded 33));
        password = copy_to 64 (c_string (url_decode password_encoded 65));
        bssid = replicate 6 0;
        bssid_set = false;
      } in
      elim (bssid_of buf) [
        | none ↦ named
        | some mac ↦ record named { bssid = mac; bssid_set = true }
      ]

  -- Lines 298 to 342.
  pub save_config : Bytes → Prov → Outcome × Prov × List Action
  save_config buf s =
      elim (do
        ssid_encoded ← query buf (codes "ssid") 128
        password_encoded ← query buf (codes "password") 128
        some (sta_config buf ssid_encoded password_encoded)) [
          | none ↦ (esp_ok, s, send_500 ∷ [])
          | some config ↦
              if set_config_ok config
              then (
                esp_ok,
                record s { retry_num = 0 },
                set_config config
                    ∷ connect
                    ∷ send (codes "Connecting... Please check device status.")
                    ∷ [],
              )
              else (aborted, s, set_config config ∷ [])
        ]

  -- The handler; `none` while it waits for the rest of the body. The second argument is whether
  -- `malloc` gives a buffer.
  pub wifi_config_post_handler : ℕ → Bool → List Recv → Prov → Option (Outcome × Prov × List Action)
  wifi_config_post_handler content_len block recvs s =
      if block
      then elim (receive content_len recvs []) [
        | complete buf ↦ some (save_config (c_string buf) s)
        | stopped calls ↦ some (esp_fail, s, calls)
        | waiting ↦ none
      ]
      else some (esp_fail, s, send_500 ∷ [])
