-- ===== src/Iperf/Control.antt =====
-- `iperf_start`, `iperf_stop`, and the steps of all tasks in any order.
use esp8266_rtos_projects.Prelude.{
  ℕ, Bool, true, false, Option, none, some, List, [], ◌∷◌, if◌then◌else◌,
}
use esp8266_rtos_projects.Iperf.{Config, Iperf, opening, iperf_get_buffer_len}
use esp8266_rtos_projects.Iperf.ReportTask.{on_report}
use esp8266_rtos_projects.Iperf.TrafficTask.{Answer, iperf_task_traffic}

-- `iperf_start`, with `none` for a NULL `cfg`, whether `malloc` succeeds, and whether the task can
-- be created: whether it returns ESP_OK, and the state.
unfoldable pub iperf_start : Option Config → Bool → Bool → Iperf → Bool × Iperf
iperf_start none malloc_ok task_ok s = (false, s)
iperf_start (some cfg) malloc_ok task_ok s =
    if s.is_running
    then (false, s)
    else let cleared = record s {
      cfg = cfg;
      is_running = true;
      finish = false;
      total_len = 0;
      buffer_len = iperf_get_buffer_len cfg;
      buffer = false;
    } in
      if malloc_ok
      then if task_ok
        then (true, record cleared { buffer = true; traffic = opening })
        else (false, cleared)
      else (false, cleared)

-- The first part of `iperf_stop`; it returns once `is_running` is read as false.
unfoldable pub iperf_stop : Iperf → Iperf
iperf_stop s = if s.is_running then record s { finish = true } else s

pub data Step : Type 0 where
  start : (cfg : Option Config) → (malloc_ok task_ok : Bool) → Step
  stop : Step
  traffic_turn : Answer → Step
  report_turn_of : ℕ → Step

unfoldable pub step : Step → Iperf → Iperf
step (start cfg malloc_ok task_ok) s = (iperf_start cfg malloc_ok task_ok s).1
step stop s = iperf_stop s
step (traffic_turn a) s = iperf_task_traffic a s.traffic s
step (report_turn_of k) s = on_report k s

unfoldable pub steps : List Step → Iperf → Iperf
steps [] s = s
steps (t ∷ ts) s = steps ts (step t s)
