-- ===== src/WifiProv/Scan.antt =====
-- `scan_get_handler`: a scan, and its results as JSON.
pub mod Json
pub mod Fits
use mathlib.Core.Option
use esp8266_rtos_projects.Prelude.{
  ℕ, zero, suc, ◌+◌, ◌-◌, ◌*◌, Bool, true, false, Option, none, some, List, [], ◌∷◌, ◌++◌, Bytes,
  codes, ltb, ◌==◌, if◌then◌else◌, length, take, min,
}
use esp8266_rtos_projects.Libc.Decimal.{ℤ, pos, negsuc, print_int}
use esp8266_rtos_projects.Utils.MacAddress.{format_mac}
use esp8266_rtos_projects.WifiProv.State.{
  Action, set_type, send, send_500, Outcome, esp_ok, esp_fail, aborted,
}

-- The fields of `wifi_ap_record_t` that are read. `ssid` is the string in its array.
pub record ApRecord : Type 0 where
  pub ssid : Bytes
  pub rssi : ℤ
  pub authmode : ℕ
  pub bssid : List ℕ

-- Lines 250 to 253: one object.
pub ap_object : ApRecord → Bytes
ap_object ap =
    codes "{\"ssid\":\""
    ++ (ap.ssid
        ++ (codes "\",\"rssi\":"
            ++ (print_int ap.rssi
                ++ (codes ",\"auth\":"
                    ++ (print_int (pos ap.authmode)
                        ++ (codes ",\"bssid\":\"" ++ (format_mac ap.bssid ++ codes "\"}")))))))

-- The loop of lines 246 to 258 from index `i` on; `buf` is the text between `json_buf` and `ptr`.
pub json_loop : ℕ → ℕ → List ApRecord → Bytes → Bytes
json_loop ap_count i [] buf = buf
json_loop ap_count i (ap ∷ rest) buf = json_loop ap_count (i + 1) rest (
    if length ap.ssid == 0
    then buf
    else let written = buf ++ ap_object ap in
      if ltb (i + 1) ap_count then written ++ b',' ∷ [] else written)

-- `*(ptr - 1)`, and `ptr--`.
abbrev pub last_or : ℕ → Bytes → ℕ
last_or d [] = d
last_or d (c ∷ s) = last_or c s

abbrev pub drop_last : Bytes → Bytes
drop_last [] = []
drop_last (c ∷ []) = []
drop_last (c ∷ d ∷ s) = c ∷ drop_last (d ∷ s)

-- Lines 259 to 264.
pub close_list : Bytes → Bytes
close_list buf =
    let kept = if last_or 0 buf == b',' then drop_last buf else buf in kept ++ b']' ∷ []

-- The text of `json_buf` for the records in `ap_list[0 .. ap_count)`.
unfoldable pub scan_json : List ApRecord → Bytes
unfolding json_loop close_list
scan_json ap_list = close_list (json_loop (length ap_list) 0 ap_list (b'[' ∷ []))

-- What the SDK answers: whether the scan starts, how many stations it found, whether the two calls
-- of `malloc` succeed, and the records that it fills in, or a failure.
pub record ScanEnv : Type 0 where
  pub scan_ok : Bool
  pub ap_num : ℕ
  pub list_block : Bool
  pub records : Option (List ApRecord)
  pub json_block : Bool

-- `esp_wifi_scan_get_ap_records` is given room for `ap_count` records, and sets `ap_count` to the
-- number that it fills in. `ESP_ERROR_CHECK` aborts.
pub scan_get_handler : ScanEnv → Outcome × List Action
scan_get_handler env =
    if env.scan_ok
    then (if env.ap_num == 0
        then (esp_ok, send (codes "[]") ∷ [])
        else if env.list_block
        then elim env.records [
          | none ↦ (aborted, [])
          | some found ↦
              if env.json_block
              then (
                esp_ok,
                set_type (codes "application/json")
                    ∷ send (scan_json (take (if ltb 20 env.ap_num then 20 else env.ap_num) found))
                    ∷ [],
              )
              else (esp_fail, send_500 ∷ [])
        ]
        else (esp_fail, send_500 ∷ []))
    else (esp_fail, send_500 ∷ [])
