-- ===== src/Utils/Tests.antt =====
-- The theorems on utils.c at concrete texts.
use esp8266_rtos_projects.Prelude.{
  ℕ, ◌≡◌, ◌≤◌, refl, none, some, List, [], ◌∷◌, ◌++◌, codes, length, take, if◌then◌else◌, arith,
}
use esp8266_rtos_projects.Utils.UrlDecode.{url_decode, length-url_decode}
use esp8266_rtos_projects.Utils.UrlDecode.Encode.{url_encode, url_decode-url_encode}
use esp8266_rtos_projects.Utils.MacAddress.{parse_mac_address}
use esp8266_rtos_projects.Utils.MacAddress.Accepts.{
  Pair, spell, all_colons, values, parse_mac_address-spell,
}

url_decode-url_encode_example :
    url_decode (url_encode (codes "a b/%")) 5 ≡ take 4 (codes "a b/%") ++ 0 ∷ []
url_decode-url_encode_example =
    url_decode-url_encode (codes "a b/%") 5 (omega arith) (omega arith) (omega arith)

length-url_decode_example : length (url_decode (codes "%41%4") 3) ≤ 3
length-url_decode_example = length-url_decode (codes "%41%4") 3 (omega arith) (omega arith)

-- "aB:01:02:03:04-05"
abbrev first : Pair
first = (b'a', b'B')

abbrev rest : List (ℕ × Pair)
rest =
    (b':', (b'0', b'1'))
    ∷ (b':', (b'0', b'2'))
    ∷ (b':', (b'0', b'3'))
    ∷ (b':', (b'0', b'4'))
    ∷ (b'-', (b'0', b'5'))
    ∷ []

parse_mac_address-spell_example :
    parse_mac_address (spell first rest)
    ≡ (if all_colons rest then some (values first rest) else none)
parse_mac_address-spell_example =
    parse_mac_address-spell first rest
      (
        (refl, refl),
        (
          (refl, (refl, refl)),
          (
            (refl, (refl, refl)),
            ((refl, (refl, refl)), ((refl, (refl, refl)), ((refl, (refl, refl)), tt))),
          ),
        ),
      )
      refl
