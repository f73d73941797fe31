-- ===== src/Modbus/Offers.antt =====
-- The addresses that are on offer for a slave in the results of a query.
use esp8266_rtos_projects.Prelude.{
  ℕ, ◌/◌, ◌%◌, ◌≡◌, refl, ◌&&◌, Option, none, some, List, [], ◌∷◌, ◌++◌, Bytes, codes, str_eq, ◌==◌,
  if◌then◌else◌, ap, arith,
}
use esp8266_rtos_projects.Libc.Decimal.{pos, print_int}
use esp8266_rtos_projects.Libc.Hex.{upper_digit, hex4}
use esp8266_rtos_projects.Modbus.{
  Family, ipv4, ipv6, Address, v4, v6, MdnsResult, colon_words, ip_text, master_get_slave_ip_str,
  same_family, master_resolve_slave, slave_name,
}

-- Four numbers with dots between, and words of four digits with colons between.
abbrev pub dotted : (a b c d : ℕ) → Bytes
dotted a b c d =
    print_int (pos a)
    ++ b'.' ∷ print_int (pos b)
    ++ b'.' ∷ print_int (pos c)
    ++ b'.' ∷ print_int (pos d)

abbrev pub more_words : List ℕ → Bytes
more_words [] = []
more_words (w ∷ ws) = b':' ∷ hex4 w ++ more_words ws

-- The texts of the addresses of a family, in their order.
abbrev pub of_family : Family → List Address → List Bytes
of_family t [] = []
of_family ipv4 (v4 a b c d ∷ more) = dotted a b c d ∷ of_family ipv4 more
of_family ipv4 (v6 w ws ∷ more) = of_family ipv4 more
of_family ipv6 (v4 a b c d ∷ more) = of_family ipv6 more
of_family ipv6 (v6 w ws ∷ more) = (hex4 w ++ more_words ws) ∷ of_family ipv6 more

abbrev pub version : Family → ℕ
version ipv4 = 4
version ipv6 = 6

-- The addresses of the results that are named for slave `a`, over the protocol asked for and with the
-- port of Modbus.
abbrev pub offers : ℕ → Family → List MdnsResult → List Bytes
offers a t [] = []
offers a t (r ∷ rs) =
    if version r.ip_protocol == version t
      && (str_eq r.instance_name
            (codes "mb_slave_tcp_" ++ upper_digit (a / 16) ∷ upper_digit (a % 16) ∷ [])
          && r.port == 502)
    then of_family t r.addr ++ offers a t rs
    else offers a t rs

abbrev pub first : List Bytes → Option Bytes
first [] = none
first (x ∷ xs) = some x

first-append :
    (xs ys : List Bytes) → first (xs ++ ys) ≡ elim (first xs) [ none ↦ first ys | some x ↦ some x ]
first-append [] ys = refl
first-append (x ∷ xs) ys = refl

more_words-colon_words : (ws : List ℕ) → more_words ws ≡ colon_words ws
unfolding colon_words
more_words-colon_words [] = refl
more_words-colon_words (w ∷ ws) = ap (λ t. b':' ∷ hex4 w ++ t) (more_words-colon_words ws)

get_slave_ip_str-first :
    (t : Family) (addrs : List Address)
    → master_get_slave_ip_str t addrs ≡ first (of_family t addrs)
unfolding master_get_slave_ip_str ip_text
get_slave_ip_str-first t [] = refl
get_slave_ip_str-first ipv4 (v4 a b c d ∷ more) = refl
get_slave_ip_str-first ipv4 (v6 w ws ∷ more) = get_slave_ip_str-first ipv4 more
get_slave_ip_str-first ipv6 (v4 a b c d ∷ more) = get_slave_ip_str-first ipv6 more
get_slave_ip_str-first ipv6 (v6 w ws ∷ more) = ground (arith, more_words-colon_words ws)

version-same_family : (p t : Family) → (version p == version t) ≡ same_family p t
version-same_family ipv4 ipv4 = refl
version-same_family ipv4 ipv6 = refl
version-same_family ipv6 ipv4 = refl
version-same_family ipv6 ipv6 = refl

pub resolve_slave-first :
    (a : ℕ) (rs : List MdnsResult) (t : Family)
    → master_resolve_slave (slave_name a) rs t ≡ first (offers a t rs)
unfolding master_resolve_slave
resolve_slave-first a [] t = refl
resolve_slave-first a (r ∷ rs) t = ground (
  arith,
  version-same_family r.ip_protocol t,
  get_slave_ip_str-first t r.addr,
  first-append (of_family t r.addr) (offers a t rs),
  resolve_slave-first a rs t,
)
