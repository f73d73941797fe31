-- ===== src/Modbus/Tests.antt =====
-- Concrete runs of the Modbus master.
use esp8266_rtos_projects.Prelude.{
  codes, ℕ, ◌+◌, ◌≡◌, refl, true, Option, none, some, List, [], ◌∷◌, Bytes, get_or,
}
use esp8266_rtos_projects.Libc.Decimal.{pos, digits, print_int}
use esp8266_rtos_projects.Libc.Float.{float_of, float_bits, float_order, int_order}
use esp8266_rtos_projects.Modbus.{
  Descriptor, holding, ipv4, ipv6, v4, MdnsResult, create_loop, resolve_one, master_resolve_slave,
  master_get_slave_ip_str, ip_text, resolve_retries, master_query_slave_service,
  master_create_slave_list,
}
use esp8266_rtos_projects.Modbus.Init.{Calls, started, master_init}
use esp8266_rtos_projects.Modbus.Operation.{
  Poll, esp_ok, esp_fail, esp_err_not_found, master_operation_func, retry_loop, cid_loop, read_cid,
  is_alarm, bit_and, master_get_param_data, master_max_retry,
}
use esp8266_rtos_projects.Modbus.Alarm.{reported, first_alarm, polls, operation-reported}
use esp8266_rtos_projects.Modbus.Resolved.{entry, with_ip, create_loop-resolves}

abbrev humidity : Descriptor
humidity = record {
  cid = 1;
  param_key = codes "Humidity_1";
  mb_slave_addr = 1;
  mb_param_type = holding;
  mb_reg_start = 0;
  mb_size = 2;
  param_offset = 1;
  opt1 = pos 0;
  opt2 = pos 100;
}

-- 100.0, and 100.5.
abbrev good : Poll
good = record { info = esp_ok; descriptor = some humidity; parameter = esp_ok; value = 1120403456 }

abbrev bad : Poll
bad = record { info = esp_ok; descriptor = some humidity; parameter = esp_ok; value = 1120468992 }

abbrev unread : Poll
unread = record {
  info = esp_ok;
  descriptor = some humidity;
  parameter = esp_fail;
  value = 1120468992;
}

abbrev rounds : List (List Poll)
rounds = (good ∷ unread ∷ []) ∷ (good ∷ bad ∷ good ∷ []) ∷ (bad ∷ []) ∷ []

test_reported : reported (master_operation_func rounds) ≡ some humidity
unfolding master_operation_func retry_loop cid_loop read_cid is_alarm bit_and master_get_param_data
    float_of float_bits float_order int_order
test_reported = refl

-- A read that answers ESP_ERR_NOT_FOUND: the alarm of the next round is not seen.
test_stuck :
    reported (
      master_operation_func
        ((record good { parameter = esp_err_not_found } ∷ []) ∷ (bad ∷ []) ∷ []))
    ≡ none
unfolding master_operation_func retry_loop cid_loop read_cid is_alarm bit_and master_get_param_data
test_stuck = refl

operation-reported_example :
    reported (master_operation_func rounds) ≡ first_alarm (polls (master_max_retry + 1) rounds)
operation-reported_example = operation-reported rounds refl

abbrev other : MdnsResult
other = record {
  ip_protocol = ipv6;
  instance_name = codes "mb_slave_tcp_01";
  port = 502;
  addr = [];
}

abbrev slave : MdnsResult
slave = record {
  ip_protocol = ipv4;
  instance_name = codes "mb_slave_tcp_01";
  port = 502;
  addr = v4 192 168 4 2 ∷ [];
}

abbrev unset : List (Option Bytes)
unset = none ∷ none ∷ []

test_create :
    create_loop (other ∷ slave ∷ []) ipv4 (1 ∷ 1 ∷ 2 ∷ []) unset 0
    ≡ (some (codes "192.168.4.2") ∷ none ∷ [], 2)
unfolding create_loop resolve_one master_resolve_slave master_get_slave_ip_str ip_text print_int
    digits
test_create = refl

create_loop-resolves_example :
    ((i : ℕ)
      → get_or (create_loop (other ∷ slave ∷ []) ipv4 (1 ∷ 1 ∷ 2 ∷ []) unset 0).0 i none
        ≡ entry (other ∷ slave ∷ []) ipv4 (1 ∷ 1 ∷ 2 ∷ []) (i + 1) (get_or unset i none))
    × ((create_loop (other ∷ slave ∷ []) ipv4 (1 ∷ 1 ∷ 2 ∷ []) unset 0).1
        ≡ with_ip
            (create_loop (other ∷ slave ∷ []) ipv4 (1 ∷ 1 ∷ 2 ∷ []) unset 0).0
            (1 ∷ 1 ∷ 2 ∷ []))
create_loop-resolves_example =
    create_loop-resolves (other ∷ slave ∷ []) ipv4 (1 ∷ 1 ∷ 2 ∷ []) unset refl

-- A query that fails, one that finds no slave, and one that does.
abbrev queries : List (Option (List MdnsResult))
queries = none ∷ some (other ∷ []) ∷ some (slave ∷ []) ∷ []

abbrev calls : Calls
calls = record {
  handler_set = true;
  init_tcp = true;
  setup = true;
  set_descriptor = true;
  start = true;
}

test_started :
    master_init queries ipv4 calls unset ≡ (started, some (codes "192.168.4.2") ∷ none ∷ [])
unfolding master_init resolve_retries master_query_slave_service master_create_slave_list
    create_loop resolve_one master_resolve_slave master_get_slave_ip_str ip_text print_int digits
test_started = refl
