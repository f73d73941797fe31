-- ===== src/Modbus/Init.antt =====
-- `master_init`, from the resolution of the slaves on.
use esp8266_rtos_projects.Prelude.{ℕ, Bool, Option, List, Bytes, ltb, if◌then◌else◌, take}
use esp8266_rtos_projects.Modbus.{Family, MdnsResult, num_device_parameters, resolve_retries}

-- Whether the calls of the library succeed, and whether `master_handler` is set.
pub record Calls : Type 0 where
  pub handler_set : Bool
  pub init_tcp : Bool
  pub setup : Bool
  pub set_descriptor : Bool
  pub start : Bool

-- What is returned: ESP_OK, ESP_ERR_NOT_FOUND or ESP_ERR_INVALID_STATE.
pub data Started : Type 0 where
  started slave_not_found invalid_state : Started

abbrev pub max_queries : ℕ
max_queries = 10

-- With the answers of the queries: the result, and the table of addresses.
unfoldable pub master_init :
    List (Option (List MdnsResult))
    → Family
    → Calls
    → List (Option Bytes)
    → Started × List (Option Bytes)
master_init queries t calls table =
    let (table', res) = resolve_retries (take max_queries queries) t table 0 in
    if ltb res num_device_parameters
    then (slave_not_found, table')
    else if calls.handler_set
    then if calls.init_tcp
      then if calls.setup
        then if calls.set_descriptor
          then if calls.start then (started, table') else (invalid_state, table')
          else (invalid_state, table')
        else (invalid_state, table')
      else (invalid_state, table')
    else (invalid_state, table')
