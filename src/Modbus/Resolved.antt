-- ===== src/Modbus/Resolved.antt =====
-- What is in the table of addresses after the slaves have been looked for.
use esp8266_rtos_projects.Prelude.{
  ℕ, ◌+◌, ◌-◌, ◌≤◌, ◌<◌, ◌≡◌, ◌≢◌, refl, sym, ap, ◌∙◌, Bool, true, false, ◌&&◌, ◌||◌, Option, none,
  some, inl, inr, Option-cases, Bool-cases, List, [], ◌∷◌, Bytes, ltb, leb, ◌==◌, if◌then◌else◌,
  get_or, take, length, length-set, get_or-set_self, get_or-set_ne, arith,
}
use esp8266_rtos_projects.Modbus.Init.{Calls, slave_not_found, max_queries, master_init}
use esp8266_rtos_projects.Modbus.Offers.{offers, first, resolve_slave-first}
use esp8266_rtos_projects.Modbus.{
  Family, MdnsResult, master_resolve_slave, slave_name, resolve_one, create_loop, slave_addrs,
  device_parameters, num_device_parameters, master_create_slave_list, master_query_slave_service,
  resolve_retries,
}

-- Every address has its place in a table of so many.
abbrev pub have_place : ℕ → List ℕ → Bool
have_place n [] = true
have_place n (addr ∷ addrs) = leb 1 addr && (leb addr n && have_place n addrs)

abbrev pub among : ℕ → List ℕ → Bool
among a [] = false
among a (b ∷ bs) = a == b || among a bs

-- What was there, or what the code finds, where a parameter asks for the slave.
abbrev looked_up : List MdnsResult → Family → List ℕ → ℕ → Option Bytes → Option Bytes
looked_up results t addrs addr old = elim old [
  | none ↦ if among addr addrs then master_resolve_slave (slave_name addr) results t else none
  | some ip ↦ some ip
]

abbrev pub is_set : Option Bytes → Bool
is_set none = false
is_set (some ip) = true

-- How many of the parameters have an address.
abbrev pub with_ip : List (Option Bytes) → List ℕ → ℕ
with_ip table [] = 0
with_ip table (addr ∷ addrs) =
    if is_set (get_or table (addr - 1) none) then with_ip table addrs + 1 else with_ip table addrs

length-resolve_one :
    (rs : List MdnsResult) (t : Family) (a : ℕ) (table : List (Option Bytes))
    → length (resolve_one rs t a table).0 ≡ length table
unfolding resolve_one
length-resolve_one rs t a table = elim (Option-cases (get_or table (a - 1) none)) [
  | inl e ↦ elim (Option-cases (master_resolve_slave (slave_name a) rs t)) [
    | inl f ↦ ground (arith, length-set table (a - 1) none)
    | inr (ip, f) ↦ ground (arith, length-set table (a - 1) (some ip))
  ]
  | inr (ip, e) ↦ ground arith
]

-- The entry of the slave that is looked for.
get_or-resolve_one_self :
    (rs : List MdnsResult) (t : Family) (a : ℕ) (table : List (Option Bytes))
    → a - 1 < length table
    → get_or (resolve_one rs t a table).0 (a - 1) none
      ≡ looked_up rs t (a ∷ []) a (get_or table (a - 1) none)
unfolding resolve_one
get_or-resolve_one_self rs t a table h = elim (Option-cases (get_or table (a - 1) none)) [
  | inl e ↦ elim (Option-cases (master_resolve_slave (slave_name a) rs t)) [
    | inl f ↦ ground (arith, get_or-set_self table (a - 1) none none h)
    | inr (ip, f) ↦ ground (arith, get_or-set_self table (a - 1) (some ip) none h)
  ]
  | inr (ip, e) ↦ ground arith
]

get_or-resolve_one_ne :
    (rs : List MdnsResult) (t : Family) (a j : ℕ) (table : List (Option Bytes))
    → a - 1 ≢ j
    → get_or (resolve_one rs t a table).0 j none ≡ get_or table j none
unfolding resolve_one
get_or-resolve_one_ne rs t a j table h = elim (Option-cases (get_or table (a - 1) none)) [
  | inl e ↦ elim (Option-cases (master_resolve_slave (slave_name a) rs t)) [
    | inl f ↦ ground (arith, get_or-set_ne table {i = a - 1} {j = j} none none h)
    | inr (ip, f) ↦ ground (arith, get_or-set_ne table {i = a - 1} {j = j} (some ip) none h)
  ]
  | inr (ip, e) ↦ ground arith
]

length-create_loop :
    (rs : List MdnsResult) (t : Family) (addrs : List ℕ) (table : List (Option Bytes)) (n : ℕ)
    → length (create_loop rs t addrs table n).0 ≡ length table
unfolding create_loop
length-create_loop rs t [] table n = refl
length-create_loop rs t (a ∷ addrs) table n =
    length-create_loop rs t addrs (resolve_one rs t a table).0 _ ∙ length-resolve_one rs t a table

-- Whoever is looked for first, the entry of each slave is the same.
get_or-create_loop :
    (rs : List MdnsResult) (t : Family) (addrs : List ℕ) (table : List (Option Bytes)) (n a : ℕ)
    → have_place (length table) addrs ≡ true
    → 1 ≤ a
    → get_or (create_loop rs t addrs table n).0 (a - 1) none
      ≡ looked_up rs t addrs a (get_or table (a - 1) none)
unfolding create_loop
get_or-create_loop rs t [] table n a h ha = ground arith
get_or-create_loop rs t (b ∷ addrs) table n a h ha = elim (Bool-cases (a == b)) [
  | inl same ↦ ground (
    arith,
    length-resolve_one rs t b table,
    get_or-resolve_one_self rs t b table (ground arith),
    get_or-create_loop rs t addrs (resolve_one rs t b table).0
        (if (resolve_one rs t b table).1 then n + 1 else n) b,
  )
  | inr other ↦ ground (
    arith,
    length-resolve_one rs t b table,
    get_or-resolve_one_ne rs t b (a - 1) table (ground arith),
    get_or-create_loop rs t addrs (resolve_one rs t b table).0
        (if (resolve_one rs t b table).1 then n + 1 else n) a,
  )
]

resolve_one-is_set :
    (rs : List MdnsResult) (t : Family) (a : ℕ) (table : List (Option Bytes))
    → a - 1 < length table
    → is_set (get_or (resolve_one rs t a table).0 (a - 1) none) ≡ (resolve_one rs t a table).1
unfolding resolve_one
resolve_one-is_set rs t a table h = elim (Option-cases (get_or table (a - 1) none)) [
  | inl e ↦ elim (Option-cases (master_resolve_slave (slave_name a) rs t)) [
    | inl f ↦ ground (arith, get_or-set_self table (a - 1) none none h)
    | inr (ip, f) ↦ ground (arith, get_or-set_self table (a - 1) (some ip) none h)
  ]
  | inr (ip, e) ↦ ground arith
]

create_loop-counts :
    (rs : List MdnsResult) (t : Family) (addrs : List ℕ) (table : List (Option Bytes)) (n : ℕ)
    → have_place (length table) addrs ≡ true
    → (create_loop rs t addrs table n).1 ≡ n + with_ip (create_loop rs t addrs table n).0 addrs
unfolding create_loop
create_loop-counts rs t [] table n h = omega arith
create_loop-counts rs t (a ∷ addrs) table n h = ground (
  arith,
  length-resolve_one rs t a table,
  resolve_one-is_set rs t a table (ground arith),
  get_or-resolve_one_self rs t a table (ground arith),
  get_or-create_loop rs t addrs (resolve_one rs t a table).0
      (if (resolve_one rs t a table).1 then n + 1 else n) a,
  create_loop-counts rs t addrs (resolve_one rs t a table).0
      (if (resolve_one rs t a table).1 then n + 1 else n),
)

-- The entry that a slave is to have: what was there or, where a parameter asks for the slave, the first
-- address on offer for it.
abbrev pub entry : List MdnsResult → Family → List ℕ → ℕ → Option Bytes → Option Bytes
entry results t addrs addr none = if among addr addrs then first (offers addr t results) else none
entry results t addrs addr (some ip) = some ip

looked_up-entry :
    (rs : List MdnsResult) (t : Family) (addrs : List ℕ) (a : ℕ) (old : Option Bytes)
    → looked_up rs t addrs a old ≡ entry rs t addrs a old
looked_up-entry rs t addrs a none = ground (arith, resolve_slave-first a rs t)
looked_up-entry rs t addrs a (some ip) = refl

-- Where every slave of the parameters has its place in the table: an entry that was set is left; the
-- entry of a slave that some parameter asks for becomes the first address of the family that is asked
-- for among the results named "mb_slave_tcp_" and the slave's number, over the protocol of that family
-- and with port 502, if there is one; no other entry changes; and the number that is returned is
-- that of the parameters whose slave then has an address.
pub create_loop-resolves :
    (rs : List MdnsResult) (t : Family) (addrs : List ℕ) (table : List (Option Bytes))
    → have_place (length table) addrs ≡ true
    → ((i : ℕ)
        → get_or (create_loop rs t addrs table 0).0 i none
          ≡ entry rs t addrs (i + 1) (get_or table i none))
      × ((create_loop rs t addrs table 0).1 ≡ with_ip (create_loop rs t addrs table 0).0 addrs)
create_loop-resolves rs t addrs table h = (
  λ i.
      let back : i + 1 - 1 ≡ i = omega arith in
      ap (λ k. get_or (create_loop rs t addrs table 0).0 k none) (sym back)
      ∙ get_or-create_loop rs t addrs table 0 (i + 1) h (omega arith)
      ∙ looked_up-entry rs t addrs (i + 1) (get_or table (i + 1 - 1) none)
      ∙ ap (λ k. entry rs t addrs (i + 1) (get_or table k none)) back,
  omega (arith, create_loop-counts rs t addrs table 0 h),
)

-- What a query leaves: where it counts every parameter, the slave has its address.
abbrev complete : List (Option Bytes) × ℕ → Bool
complete (table, res) =
    leb 1 (length table) && (ltb res num_device_parameters || is_set (get_or table 0 none))

query-complete :
    (q : Option (List MdnsResult)) (t : Family) (table : List (Option Bytes))
    → 1 ≤ length table
    → complete (master_query_slave_service q t table) ≡ true
unfolding master_query_slave_service master_create_slave_list
query-complete none t table h = ground arith
query-complete (some []) t table h = ground arith
query-complete (some (r ∷ rs)) t table h = ground (
  arith,
  length-create_loop (r ∷ rs) t (slave_addrs device_parameters) table 0,
  create_loop-counts (r ∷ rs) t (slave_addrs device_parameters) table 0,
)

retries-complete :
    (qs : List (Option (List MdnsResult))) (t : Family) (table : List (Option Bytes)) (res : ℕ)
    → complete (table, res) ≡ true
    → complete (resolve_retries qs t table res) ≡ true
unfolding resolve_retries
retries-complete [] t table res h = h
retries-complete (q ∷ qs) t table res h = ground (
  arith,
  query-complete q t table,
  retries-complete qs t (master_query_slave_service q t table).0
      (master_query_slave_service q t table).1,
)

-- Whatever the queries answer: where `master_init` returns ESP_OK, or fails later than at the
-- resolution, the slave of the parameters has an address in the table.
pub is_set-master_init :
    (qs : List (Option (List MdnsResult))) (t : Family) (calls : Calls)
    (table : List (Option Bytes))
    → 1 ≤ length table
    → (master_init qs t calls table).0 ≢ slave_not_found
    → is_set (get_or (master_init qs t calls table).1 0 none) ≡ true
unfolding master_init
is_set-master_init qs t calls table h e =
    ground (arith, retries-complete (take max_queries qs) t table 0 (ground arith))
