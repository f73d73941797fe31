-- ===== src/WifiProv/Config/Saves.antt =====
-- What the configuration handler stores for a form that it accepts, and what it refuses.
use esp8266_rtos_projects.Prelude.{
  ℕ, zero, suc, ◌+◌, ◌*◌, ◌==◌, ◌&&◌, ◌||◌, ◌<◌, ◌≡◌, ◌≢◌, refl, ap, ap₂, ◌∙◌, Bool, true, false,
  Option, none, some, List, [], ◌∷◌, ◌++◌, Bytes, codes, if◌then◌else◌, length, take, take_all,
  replicate, c_string, c_string-append, All, arith, inl, inr, Option-cases,
}
use esp8266_rtos_projects.Libc.Hex.{is_xdigit}
use esp8266_rtos_projects.Utils.UrlDecode.{url_decode}
use esp8266_rtos_projects.Utils.UrlDecode.Encode.{url_encode, IsChar, url_decode-url_encode}
use esp8266_rtos_projects.Utils.MacAddress.{parse_mac_address}
use esp8266_rtos_projects.Utils.MacAddress.Accepts.{
  Pair, spell, IsMacText, all_colons, values, parse_mac_address-spell,
}
use esp8266_rtos_projects.WifiProv.State.{
  Prov, StaConfig, connect, set_config, send, send_500, esp_ok, aborted,
}
use esp8266_rtos_projects.WifiProv.Config.{copy_to, bssid_of, sta_config, save_config}

take-take_append : (n : ℕ) (s t : Bytes) → take n (take n s ++ t) ≡ take n (s ++ t)
take-take_append zero s t = refl
take-take_append (suc n) [] t = refl
take-take_append (suc n) (c ∷ s) t = ap (λ r. c ∷ r) (take-take_append n s t)

All-take : (P : ℕ → Type 0) (n : ℕ) (s : Bytes) → All P s → All P (take n s)
All-take P zero s h = tt
All-take P (suc n) [] h = tt
All-take P (suc n) (c ∷ s) (hc, hs) = (hc, All-take P n s hs)

chars-nonzero : (s : Bytes) → All IsChar s → All (λ c. c ≢ 0) s
chars-nonzero [] h = tt
chars-nonzero (c ∷ s) (hc, hs) = (hc.0, chars-nonzero s hs)

-- A field through the decoder and its buffer.
decoded :
    (s : Bytes) (n : ℕ)
    → All IsChar s
    → n < 1000
    → c_string (url_decode (url_encode s) (n + 1)) ≡ take n s
decoded s n h small =
    ap c_string (url_decode-url_encode s (n + 1) h (omega arith) (omega arith))
    ∙ ap (λ k. c_string (take k s ++ 0 ∷ [])) (omega arith)
    ∙ c_string-append (take n s) [] (All-take (λ c. c ≢ 0) n s (chars-nonzero s h))

xdigit-IsChar : (c : ℕ) → is_xdigit c ≡ true → IsChar c
xdigit-IsChar c h = (ground arith, ground arith)

-- The separators that the script of the page lets through.
abbrev pub page_separators : List (ℕ × Pair) → Bool
page_separators [] = true
page_separators ((sep, q) ∷ rest) = (sep == b':' || sep == b'-') && page_separators rest

separator-IsChar : (c : ℕ) → (c == b':' || c == b'-') ≡ true → IsChar c
separator-IsChar c h = (ground arith, ground arith)

spell-IsChar :
    (p : Pair) (rest : List (ℕ × Pair))
    → IsMacText p rest
    → page_separators rest ≡ true
    → All IsChar (spell p rest)
spell-IsChar (hi, lo) [] ((h, l), _) seps = (xdigit-IsChar hi h, (xdigit-IsChar lo l, tt))
spell-IsChar (hi, lo) ((sep, q) ∷ rest) ((h, l), ((hs, hq), hr)) seps = (
  xdigit-IsChar hi h,
  (
    xdigit-IsChar lo l,
    (separator-IsChar sep (ground arith), spell-IsChar q rest (hq, hr) (ground arith)),
  ),
)

length-spell : (p : Pair) (rest : List (ℕ × Pair)) → length (spell p rest) ≡ 2 + 3 * length rest
length-spell p [] = refl
length-spell p ((sep, q) ∷ rest) = omega (arith, length-spell q rest)

-- An address as it is typed, and what the firmware is to lock to: the bytes that it spells, where all
-- separators are `:`.
abbrev pub Typed : Type 0
Typed = Pair × List (ℕ × Pair)

abbrev pub lock_of : Option Typed → Option (List ℕ)
lock_of none = none
lock_of (some (p, rest)) = if all_colons rest then some (values p rest) else none

decoded_mac :
    (p : Pair) (rest : List (ℕ × Pair))
    → IsMacText p rest
    → page_separators rest ≡ true
    → length rest ≡ 5
    → parse_mac_address (c_string (url_decode (url_encode (spell p rest)) 20))
      ≡ lock_of (some (p, rest))
decoded_mac p rest h seps five =
    ap parse_mac_address (
      decoded (spell p rest) 19 (spell-IsChar p rest h seps) (omega arith)
      ∙ take_all 19 (spell p rest) (omega (arith, length-spell p rest)))
    ∙ parse_mac_address-spell p rest h five

-- A name, a password, and the address to lock to, if any.
abbrev pub wanted : Bytes → Bytes → Option (List ℕ) → StaConfig
wanted s p none = record {
  ssid = copy_to 32 s;
  password = copy_to 64 p;
  bssid = replicate 6 0;
  bssid_set = false;
}
wanted s p (some mac) = record {
  ssid = copy_to 32 s;
  password = copy_to 64 p;
  bssid = mac;
  bssid_set = true;
}

wanted-take :
    (s p : Bytes) (lock : Option (List ℕ)) → wanted (take 32 s) (take 64 p) lock ≡ wanted s p lock
wanted-take s p none =
    ap₂ (λ a b. record { ssid = a; password = b; bssid = replicate 6 0; bssid_set = false })
      (take-take_append 32 s (replicate 32 0)) (take-take_append 64 p (replicate 64 0))
wanted-take s p (some mac) =
    ap₂ (λ a b. record { ssid = a; password = b; bssid = mac; bssid_set = true })
      (take-take_append 32 s (replicate 32 0)) (take-take_append 64 p (replicate 64 0))

-- An address that the page accepts: six pairs of digits of either case, with `:` or `-` between.
abbrev pub IsLock : Option Typed → Type 0
IsLock none = Unit
IsLock (some (p, rest)) = IsMacText p rest × ((page_separators rest ≡ true) × (length rest ≡ 5))

module _ (query : Bytes → Bytes → ℕ → Option Bytes) (set_config_ok : StaConfig → Bool) where
  -- How the fields of a submitted form are found in its body: each encoded as the browser does it,
  -- and the checkbox left out where it is not set.
  abbrev pub LockFields : Bytes → Option Typed → Type 0
  LockFields buf none = query buf (codes "bssid_enable") 10 ≡ none
  LockFields buf (some (p, rest)) =
      (query buf (codes "bssid_enable") 10 ≡ some (codes "on"))
      × (query buf (codes "bssid") 64 ≡ some (url_encode (spell p rest)))

  pub record Form (buf s p : Bytes) (lock : Option Typed) : Type 0 where
    pub ssid : query buf (codes "ssid") 128 ≡ some (url_encode s)
    pub password : query buf (codes "password") 128 ≡ some (url_encode p)
    pub locked : LockFields buf lock

  bssid_of-Form :
      (buf : Bytes) (lock : Option Typed)
      → IsLock lock
      → LockFields buf lock
      → bssid_of query set_config_ok buf ≡ lock_of lock
  unfolding bssid_of
  bssid_of-Form buf none h f = rw f
  bssid_of-Form buf (some (p, rest)) (h, (seps, five)) (on, address) =
      rw (on, address) (decoded_mac p rest h seps five)

  sta_config-decoded :
      (buf ssid password : Bytes) (lock : Option (List ℕ))
      → bssid_of query set_config_ok buf ≡ lock
      → sta_config query set_config_ok buf ssid password
        ≡ wanted (c_string (url_decode ssid 33)) (c_string (url_decode password 65)) lock
  unfolding sta_config
  sta_config-decoded buf ssid password none e = rw (e, sta_config)
  sta_config-decoded buf ssid password (some mac) e = rw (e, sta_config)

  sta_config-wanted :
      (buf s p : Bytes) (lock : Option (List ℕ))
      → All IsChar s
      → All IsChar p
      → bssid_of query set_config_ok buf ≡ lock
      → sta_config query set_config_ok buf (url_encode s) (url_encode p) ≡ wanted s p lock
  sta_config-wanted buf s p lock hs hp e =
      sta_config-decoded buf (url_encode s) (url_encode p) lock e
      ∙ ap₂ (λ a b. wanted a b lock) (decoded s 32 hs (omega arith)) (decoded p 64 hp (omega arith))
      ∙ wanted-take s p lock

  -- A form whose fields are found as the browser encoded them, with no address or one that the page
  -- accepts: the name is set, cut to 32 bytes, the password, cut to 64, and the address as the lock, in
  -- digits of either case, where its separators are all `:`; with a `-` in the address, no lock is
  -- set. If the setting succeeds the retries start anew, the station connects and the page is answered,
  -- and if it fails the firmware aborts.
  pub save_config-Form :
      (buf s p : Bytes) (lock : Option Typed) (state : Prov)
      → All IsChar s
      → All IsChar p
      → IsLock lock
      → Form buf s p lock
      → save_config query set_config_ok buf state ≡ (
          if set_config_ok (wanted s p (lock_of lock))
          then (
            esp_ok,
            record state { retry_num = 0 },
            set_config (wanted s p (lock_of lock))
                ∷ connect
                ∷ send (codes "Connecting... Please check device status.")
                ∷ [],
          )
          else (aborted, state, set_config (wanted s p (lock_of lock)) ∷ []))
  unfolding save_config
  save_config-Form buf s p lock state hs hp hl f =
      rw
        (
          f.ssid,
          f.password,
          sta_config-wanted buf s p (lock_of lock) hs hp (bssid_of-Form buf lock hl f.locked),
          save_config,
        )
        refl

  pub save_config_refuses :
      (buf : Bytes) (state : Prov)
      → query buf (codes "password") 128 ≡ none
      → save_config query set_config_ok buf state ≡ (esp_ok, state, send_500 ∷ [])
  unfolding save_config
  save_config_refuses buf state h = elim (Option-cases (query buf (codes "ssid") 128)) [
    | inl e ↦ rw (e, save_config)
    | inr (v, e) ↦ rw (e, h, save_config)
  ]
