-- ===== src/FactoryTest.antt =====
-- examples/system/factory-test/components/rf_test/rftest_command.c: the commands of the radio test,
-- and the tests that run in tasks of their own.
pub mod Commands
mod Ranges
mod Exclusion
mod Tests
use esp8266_rtos_projects.Prelude.{
  ℕ, zero, suc, Bool, true, false, ◌&&◌, ◌||◌, Option, none, some, List, [], ◌∷◌, ◌++◌, Bytes, leb,
  ◌==◌, if◌then◌else◌,
}

-- A function of the radio library, with its arguments; an `int` is the number of its 32 bits.
pub data RfCall : Type 0 where
  rftest_init : RfCall
  tx_contin_func : (mode : ℕ) → RfCall
  esp_tx_func : (channel rate attenuation : ℕ) → RfCall
  esp_rx_func : (channel rate : ℕ) → RfCall
  wifiscwout_func : (en channel attenuation : ℕ) → RfCall

-- `s_cmdstop`, the tests that run in tasks, and what the commands have called themselves.
pub record Radio : Type 0 where
  pub s_cmdstop : ℕ
  pub threads : List RfCall
  pub called : List RfCall

-- What a command returns.
pub data Ret : Type 0 where
  ok einval einprogress enomem : Ret

-- Whether the work can be taken up, and the state.
unfoldable pub set_wifi_work : Radio → Bool × Radio
set_wifi_work r = if r.s_cmdstop == 0 then (true, record r { s_cmdstop = 3 }) else (false, r)

unfoldable pub set_wifi_free : Radio → Radio
set_wifi_free r = record r { s_cmdstop = 0 }

-- A call from the command itself: rftest_init and tx_contin_func.
unfoldable pub call_now : RfCall → Radio → Ret × Radio
call_now call r =
    let (free, held) = set_wifi_work r in
    if free
    then (ok, set_wifi_free (record held { called = held.called ++ call ∷ [] }))
    else (einprogress, held)

-- A call in a task, with whether `malloc` and `xTaskCreate` succeed.
unfoldable pub start_thread : Bool → Bool → RfCall → Radio → Ret × Radio
start_thread malloc_ok task_ok call r =
    let (free, held) = set_wifi_work r in
    if free
    then if malloc_ok
      then if task_ok
        then (ok, record held { threads = held.threads ++ call ∷ [] })
        else (enomem, held)
      else (enomem, held)
    else (enomem, held)

-- The task whose call is the `k`-th returns from it.
unfoldable pub remove : ℕ → List RfCall → Option (List RfCall)
remove k [] = none
remove zero (c ∷ cs) = some cs
remove (suc k) (c ∷ cs) = elim (remove k cs) [ none ↦ none | some rest ↦ some (c ∷ rest) ]

unfoldable pub thread_ends : ℕ → Radio → Radio
thread_ends k r = elim (remove k r.threads) [
  | none ↦ r
  | some rest ↦ set_wifi_free (record r { threads = rest })
]
