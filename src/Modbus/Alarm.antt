-- ===== src/Modbus/Alarm.antt =====
-- Which alarm the program reports.
use esp8266_rtos_projects.Prelude.{
  ℕ, zero, suc, ◌+◌, ◌≡◌, refl, Bool, true, false, not, ◌&&◌, Option, none, some, inl, inr,
  Option-cases, List, [], ◌∷◌, ◌++◌, ◌==◌, if◌then◌else◌, take, arith,
}
use esp8266_rtos_projects.Modbus.{Descriptor, num_device_parameters}
use esp8266_rtos_projects.Modbus.Operation.{
  Poll, Operation, master_get_param_data, is_alarm, is_ok, not_found, read_cid, ended, cid_loop,
  retry_loop, master_max_retry, master_operation_func,
}

-- Both calls answer with something else than ESP_ERR_NOT_FOUND, for a descriptor with an offset.
abbrev pub is_found : Poll → Bool
is_found p =
    not (not_found p.info)
    && (not (not_found p.parameter)
        && elim p.descriptor [ none ↦ false | some d ↦ not (d.param_offset == 0) ])

abbrev pub all_found : List Poll → Bool
all_found [] = true
all_found (p ∷ ps) = is_found p && all_found ps

abbrev pub rounds_found : List (List Poll) → Bool
rounds_found [] = true
rounds_found (ps ∷ rounds) = all_found ps && rounds_found rounds

-- The first of the polls that reads an alarm.
abbrev pub first_alarm : List Poll → Option Descriptor
first_alarm [] = none
first_alarm (p ∷ ps) = elim p.descriptor [
  | none ↦ first_alarm ps
  | some d ↦ if is_ok p.parameter && is_alarm d p.value then some d else first_alarm ps
]

-- The polls of so many rounds, at most one for each parameter.
abbrev pub polls : ℕ → List (List Poll) → List Poll
polls zero rounds = []
polls (suc n) [] = []
polls (suc n) (ps ∷ rounds) = take num_device_parameters ps ++ polls n rounds

-- The parameter whose alarm is reported, if one is.
abbrev pub reported : Operation → Option Descriptor
reported o = if o.alarm_state then o.param_descriptor else none

-- A state before the alarm: nothing has ended the loops.
abbrev pub going : Operation → Bool
going o = not (not_found o.err) && not (ended o)

cid_loop-reported :
    (ps : List Poll) (o : Operation)
    → going o ≡ true
    → all_found ps ≡ true
    → reported (cid_loop ps o) ≡ first_alarm ps
unfolding cid_loop read_cid master_get_param_data
cid_loop-reported [] o h f = ground arith
cid_loop-reported (p ∷ ps) o h f = ground (arith, cid_loop-reported ps (read_cid p o))

cid_loop-ended :
    (ps : List Poll) (o : Operation)
    → going o ≡ true
    → all_found ps ≡ true
    → first_alarm ps ≡ none
    → going (cid_loop ps o) ≡ true
unfolding cid_loop read_cid master_get_param_data
cid_loop-ended [] o h f e = ground arith
cid_loop-ended (p ∷ ps) o h f e = ground (arith, cid_loop-ended ps (read_cid p o))

all_found-take : (n : ℕ) (ps : List Poll) → all_found ps ≡ true → all_found (take n ps) ≡ true
all_found-take zero ps h = refl
all_found-take (suc n) [] h = refl
all_found-take (suc n) (p ∷ ps) h = ground (arith, all_found-take n ps)

first_alarm-append :
    (ps qs : List Poll)
    → first_alarm (ps ++ qs) ≡ elim (first_alarm ps) [ none ↦ first_alarm qs | some d ↦ some d ]
first_alarm-append [] qs = refl
first_alarm-append (p ∷ ps) qs = ground (arith, first_alarm-append ps qs)

retry_loop-ended :
    (rounds : List (List Poll)) (o : Operation) → ended o ≡ true → retry_loop rounds o ≡ o
unfolding retry_loop
retry_loop-ended [] o h = refl
retry_loop-ended (ps ∷ rounds) o h = ground arith

cid_loop-alarm :
    (ps : List Poll) (o : Operation) (d : Descriptor)
    → going o ≡ true
    → all_found ps ≡ true
    → first_alarm ps ≡ some d
    → ended (cid_loop ps o) ≡ true
cid_loop-alarm ps o d h f e = ground (arith, cid_loop-reported ps o h f)

retry_loop-reported :
    (n : ℕ) (rounds : List (List Poll)) (o : Operation)
    → going o ≡ true
    → rounds_found rounds ≡ true
    → reported (retry_loop (take n rounds) o) ≡ first_alarm (polls n rounds)
unfolding retry_loop
retry_loop-reported zero rounds o h f = ground arith
retry_loop-reported (suc n) [] o h f = ground arith
retry_loop-reported (suc n) (ps ∷ rounds) o h f =
    elim (Option-cases (first_alarm (take num_device_parameters ps))) [
      | inl quiet ↦ ground (
        arith,
        all_found-take num_device_parameters ps,
        first_alarm-append (take num_device_parameters ps) (polls n rounds),
        cid_loop-ended (take num_device_parameters ps) o,
        retry_loop-reported n rounds (cid_loop (take num_device_parameters ps) o),
      )
      | inr (d, e) ↦ ground (
        arith,
        all_found-take num_device_parameters ps,
        first_alarm-append (take num_device_parameters ps) (polls n rounds),
        cid_loop-alarm (take num_device_parameters ps) o d,
        cid_loop-reported (take num_device_parameters ps) o,
        retry_loop-ended (take n rounds) (cid_loop (take num_device_parameters ps) o),
      )
    ]

-- Where no call answers ESP_ERR_NOT_FOUND, and every descriptor has an offset, the alarm that
-- the program reports is the first one that is read in 31 rounds of the parameters; it reports none where
-- none is read.
pub operation-reported :
    (rounds : List (List Poll))
    → rounds_found rounds ≡ true
    → reported (master_operation_func rounds) ≡ first_alarm (polls (master_max_retry + 1) rounds)
unfolding master_operation_func
operation-reported rounds f = retry_loop-reported (master_max_retry + 1) rounds _ refl f

cid_loop-stuck : (ps : List Poll) (o : Operation) → not_found o.err ≡ true → cid_loop ps o ≡ o
unfolding cid_loop
cid_loop-stuck [] o h = refl
cid_loop-stuck (p ∷ ps) o h = ground arith

-- Once a call has answered ESP_ERR_NOT_FOUND, nothing is read in any later round.
pub retry_loop-stuck :
    (rounds : List (List Poll)) (o : Operation) → not_found o.err ≡ true → retry_loop rounds o ≡ o
unfolding retry_loop
retry_loop-stuck [] o h = refl
retry_loop-stuck (ps ∷ rounds) o h =
    ground (arith, cid_loop-stuck (take num_device_parameters ps) o, retry_loop-stuck rounds o)
