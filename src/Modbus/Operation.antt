-- ===== src/Modbus/Operation.antt =====
-- `master_operation_func`: the parameters are read in turn until one of them is an alarm.
use esp8266_rtos_projects.Prelude.{
  ℕ, zero, suc, ◌+◌, ◌-◌, ◌*◌, ◌/◌, ◌%◌, Bool, true, false, not, ◌&&◌, ◌||◌, Option, none, some,
  List, [], ◌∷◌, ◌==◌, if◌then◌else◌, take,
}
use esp8266_rtos_projects.Libc.Decimal.{ℤ, pos, negsuc}
use esp8266_rtos_projects.Libc.Float.{float_gt, float_lt}
use esp8266_rtos_projects.Modbus.{
  Kind, holding, input, coil, discrete, Descriptor, num_device_parameters,
}

-- What the calls of the library return.
pub data Err : Type 0 where
  esp_ok esp_err_not_found esp_fail : Err

-- The answers for one parameter: of mbc_master_get_cid_info, with what `param_descriptor` then points
-- to, and of mbc_master_get_parameter, with the 32 bits that `value` then has.
pub record Poll : Type 0 where
  pub info : Err
  pub descriptor : Option Descriptor
  pub parameter : Err
  pub value : ℕ

-- The variables of the function; `aborted` where an assertion has failed.
pub record Operation : Type 0 where
  pub err : Err
  pub alarm_state : Bool
  pub param_descriptor : Option Descriptor
  pub aborted : Bool

-- The structure that the parameter is kept in, and the place in it.
unfoldable pub master_get_param_data : Descriptor → Option (Kind × ℕ)
master_get_param_data d =
    if d.param_offset == 0 then none else some (d.mb_param_type, d.param_offset - 1)

-- `a & b` on so many bits.
unfoldable pub bit_and : ℕ → ℕ → ℕ → ℕ
bit_and zero a b = 0
bit_and (suc w) a b = (a % 2) * (b % 2) + 2 * bit_and w (a / 2) (b / 2)

-- The low 16 bits of an `int`.
abbrev low_half : ℤ → ℕ
low_half (pos n) = n % 65536
low_half (negsuc k) = 65535 - k % 65536

-- A register outside its limits, or a relay that is on.
unfoldable pub is_alarm : Descriptor → ℕ → Bool
is_alarm d value =
    let on = not (bit_and 16 (value % 65536) (low_half d.opt1) == 0) in
    elim d.mb_param_type [
      | holding ↦ float_gt value d.opt2 || float_lt value d.opt1
      | input ↦ float_gt value d.opt2 || float_lt value d.opt1
      | coil ↦ on
      | discrete ↦ on
    ]

abbrev pub is_ok : Err → Bool
is_ok esp_ok = true
is_ok _ = false

abbrev pub not_found : Err → Bool
not_found esp_err_not_found = true
not_found _ = false

-- The body for one cid.
unfoldable pub read_cid : Poll → Operation → Operation
read_cid p o =
    let asked = record o { err = p.info; param_descriptor = p.descriptor } in
    if not_found p.info then asked else elim p.descriptor [
      | none ↦ asked
      | some d ↦ elim (master_get_param_data d) [
        | none ↦ record asked { aborted = true }
        | some instance_ptr ↦ record asked {
          err = p.parameter;
          alarm_state = o.alarm_state || (is_ok p.parameter && is_alarm d p.value);
        }
      ]
    ]

abbrev pub ended : Operation → Bool
ended o = o.alarm_state || o.aborted

-- The loop over the cids, with the answers that it gets.
unfoldable pub cid_loop : List Poll → Operation → Operation
cid_loop [] o = o
cid_loop (p ∷ ps) o =
    let read = read_cid p o in
    let later = cid_loop ps read in
    if not_found o.err then o else if ended read then read else later

-- The loop over the retries.
unfoldable pub retry_loop : List (List Poll) → Operation → Operation
retry_loop [] o = o
retry_loop (ps ∷ rounds) o =
    let later = retry_loop rounds (cid_loop (take num_device_parameters ps) o) in
    if ended o then o else later

abbrev pub master_max_retry : ℕ
master_max_retry = 30

unfoldable pub master_operation_func : List (List Poll) → Operation
master_operation_func rounds =
    retry_loop (take (master_max_retry + 1) rounds)
      (record { err = esp_ok; alarm_state = false; param_descriptor = none; aborted = false })
