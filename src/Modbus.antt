-- ===== src/Modbus.antt =====
-- examples/protocols/modbus/tcp/mb_tcp_master/main/tcp_master.c: the table of the parameters that are
-- read, and the addresses of the slaves, resolved by mDNS.
pub mod Operation
pub mod Init
mod Alarm
mod Offers
mod Resolved
mod Tests
use esp8266_rtos_projects.Prelude.{
  ℕ, zero, suc, ◌+◌, ◌-◌, ◌/◌, ◌%◌, Bool, true, false, ◌&&◌, Option, none, some, List, [], ◌∷◌,
  ◌++◌, Bytes, codes, str_eq, ltb, ◌==◌, if◌then◌else◌, get_or, set,
}
use esp8266_rtos_projects.Libc.Decimal.{ℤ, pos, negsuc, print_int}
use esp8266_rtos_projects.Libc.Hex.{upper_digit, hex4}

-- The kind of register: MB_PARAM_HOLDING and so on.
pub data Kind : Type 0 where
  holding input coil discrete : Kind

-- What the program reads of a descriptor; opt1 and opt2 are also named min and max.
pub record Descriptor : Type 0 where
  pub cid : ℕ
  pub param_key : Bytes
  pub mb_slave_addr : ℕ
  pub mb_param_type : Kind
  pub mb_reg_start : ℕ
  pub mb_size : ℕ
  pub param_offset : ℕ
  pub opt1 : ℤ
  pub opt2 : ℤ

-- A row of the table; the offset is that in the structure of its kind, and 1 more.
abbrev row : ℕ → Bytes → Kind → (start size offset : ℕ) → ℤ → ℤ → Descriptor
row cid key kind start size offset low high = record {
  cid = cid;
  param_key = key;
  mb_slave_addr = 1;
  mb_param_type = kind;
  mb_reg_start = start;
  mb_size = size;
  param_offset = offset + 1;
  opt1 = low;
  opt2 = high;
}

abbrev pub device_parameters : List Descriptor
device_parameters =
    row 0 (codes "Data_channel_0") input 0 2 0 (negsuc 9) (pos 10)
    ∷ row 1 (codes "Humidity_1") holding 0 2 0 (pos 0) (pos 100)
    ∷ row 2 (codes "Temperature_1") input 2 2 4 (negsuc 39) (pos 100)
    ∷ row 3 (codes "Humidity_2") holding 2 2 4 (pos 0) (pos 100)
    ∷ row 4 (codes "Temperature_2") input 4 2 8 (negsuc 39) (pos 100)
    ∷ row 5 (codes "Humidity_3") holding 4 2 8 (pos 0) (pos 100)
    ∷ row 6 (codes "RelayP1") coil 0 8 0 (pos 2) (pos 0)
    ∷ row 7 (codes "RelayP2") coil 8 8 1 (pos 1) (pos 0)
    ∷ []

-- `num_device_parameters`, which is also MASTER_MAX_CIDS.
abbrev pub num_device_parameters : ℕ
num_device_parameters = 8

-- `mb_tcp_addr_type_t`, and the protocol of a result.
pub data Family : Type 0 where
  ipv4 ipv6 : Family

-- The four bytes, or the eight words.
pub data Address : Type 0 where
  v4 : (a b c d : ℕ) → Address
  v6 : (first : ℕ) → (rest : List ℕ) → Address

pub record MdnsResult : Type 0 where
  pub ip_protocol : Family
  pub instance_name : Bytes
  pub port : ℕ
  pub addr : List Address

unfoldable pub colon_words : List ℕ → Bytes
colon_words [] = []
colon_words (w ∷ ws) = b':' ∷ hex4 w ++ colon_words ws

-- IPSTR and IPV6STR.
unfoldable pub ip_text : Address → Bytes
ip_text (v4 a b c d) =
    print_int (pos a)
    ++ b'.' ∷ print_int (pos b)
    ++ b'.' ∷ print_int (pos c)
    ++ b'.' ∷ print_int (pos d)
ip_text (v6 w ws) = hex4 w ++ colon_words ws

abbrev pub is_family : Family → Address → Bool
is_family ipv4 (v4 a b c d) = true
is_family ipv4 (v6 w ws) = false
is_family ipv6 (v4 a b c d) = false
is_family ipv6 (v6 w ws) = true

unfoldable pub master_get_slave_ip_str : Family → List Address → Option Bytes
master_get_slave_ip_str t [] = none
master_get_slave_ip_str t (a ∷ as') =
    let later = master_get_slave_ip_str t as' in if is_family t a then some (ip_text a) else later

abbrev pub same_family : Family → Family → Bool
same_family ipv4 ipv4 = true
same_family ipv6 ipv6 = true
same_family _ _ = false

-- CONFIG_FMB_TCP_PORT_DEFAULT
abbrev pub tcp_port_default : ℕ
tcp_port_default = 502

-- `none` is ESP_ERR_NOT_FOUND.
unfoldable pub master_resolve_slave : Bytes → List MdnsResult → Family → Option Bytes
master_resolve_slave name [] t = none
master_resolve_slave name (r ∷ rs) t =
    let later = master_resolve_slave name rs t in
    if same_family r.ip_protocol t
    then if str_eq r.instance_name name && r.port == tcp_port_default
      then elim (master_get_slave_ip_str t r.addr) [ none ↦ later | some ip ↦ some ip ]
      else later
    else later

-- "mb_slave_tcp_%02X"
abbrev pub slave_name : ℕ → Bytes
slave_name addr = codes "mb_slave_tcp_" ++ upper_digit (addr / 16) ∷ upper_digit (addr % 16) ∷ []

-- The table of addresses behind a descriptor, and whether it counts as resolved.
unfoldable pub resolve_one :
    List MdnsResult → Family → ℕ → List (Option Bytes) → List (Option Bytes) × Bool
resolve_one results t addr table = elim (get_or table (addr - 1) none) [
  | none ↦ elim (master_resolve_slave (slave_name addr) results t) [
    | none ↦ (set table (addr - 1) none, false)
    | some ip ↦ (set table (addr - 1) (some ip), true)
  ]
  | some ip ↦ (table, true)
]

-- The loop over the descriptors, by the addresses of their slaves; `n` are resolved before.
unfoldable pub create_loop :
    List MdnsResult → Family → List ℕ → List (Option Bytes) → ℕ → List (Option Bytes) × ℕ
create_loop results t [] table n = (table, n)
create_loop results t (addr ∷ addrs) table n =
    let (table', resolved) = resolve_one results t addr table in
    create_loop results t addrs table' (if resolved then n + 1 else n)

abbrev pub slave_addrs : List Descriptor → List ℕ
slave_addrs [] = []
slave_addrs (d ∷ ds) = d.mb_slave_addr ∷ slave_addrs ds

unfoldable pub master_create_slave_list :
    List MdnsResult → Family → List (Option Bytes) → List (Option Bytes) × ℕ
master_create_slave_list results t table =
    create_loop results t (slave_addrs device_parameters) table 0

-- The answer of the query: `none` where it fails; no results leave the table.
unfoldable pub master_query_slave_service :
    Option (List MdnsResult) → Family → List (Option Bytes) → List (Option Bytes) × ℕ
master_query_slave_service none t table = (table, 0)
master_query_slave_service (some []) t table = (table, 0)
master_query_slave_service (some (r ∷ rs)) t table = master_create_slave_list (r ∷ rs) t table

-- The retries of `master_init`, with the answers of their queries; `res` are resolved.
unfoldable pub resolve_retries :
    List (Option (List MdnsResult)) → Family → List (Option Bytes) → ℕ → List (Option Bytes) × ℕ
resolve_retries [] t table res = (table, res)
resolve_retries (q ∷ qs) t table res =
    let (table', res') = master_query_slave_service q t table in
    let later = resolve_retries qs t table' res' in
    if ltb res num_device_parameters then later else (table, res)
