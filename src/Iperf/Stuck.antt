-- ===== src/Iperf/Stuck.antt =====
-- Starts that fail, and starts while a report task of an earlier run is left.
use esp8266_rtos_projects.Prelude.{
  ℕ, ◌+◌, ◌%◌, ◌≤◌, ◌≡◌, refl, Bool, true, false, not, ◌&&◌, some, List, [], ◌∷◌, map, arith, ◌∙◌,
  size_mod,
}
use esp8266_rtos_projects.Iperf.{Config, Iperf, Report, delaying, Traffic, opening}
use esp8266_rtos_projects.Iperf.ReportTask.{
  report_turn, pick, keep_report, on_report, iperf_start_report,
}
use esp8266_rtos_projects.Iperf.TrafficTask.{
  Answer, leave, udp_client_open, udp_client_turn, udp_server_open, udp_server_turn,
  tcp_client_open, tcp_client_turn, tcp_server_open, tcp_server_accept, tcp_server_receive,
  run_open, iperf_task_traffic,
}
use esp8266_rtos_projects.Iperf.Control.{
  iperf_start, iperf_stop, Step, start, stop, traffic_turn, report_turn_of, step, steps,
}
use esp8266_rtos_projects.Iperf.Ends.{some_stopped, has_task}

-- Running, with no task that could end it.
abbrev stuck : Iperf → Bool
stuck s = s.is_running && not (has_task s.traffic)

absent-stuck :
    (a : Answer) (t : Traffic) (s : Iperf)
    → s.traffic ≡ t
    → stuck s ≡ true
    → stuck (iperf_task_traffic a t s) ≡ true
unfolding iperf_task_traffic
absent-stuck a t s e h = ground arith

step-stuck : (t : Step) (s : Iperf) → stuck s ≡ true → stuck (step t s) ≡ true
unfolding step iperf_stop iperf_start on_report keep_report
step-stuck (start cfg m c) s h = ground arith
step-stuck stop s h = ground arith
step-stuck (traffic_turn a) s h = absent-stuck a s.traffic s refl h
step-stuck (report_turn_of k) s h = ground arith

stuck-forever : (ts : List Step) (s : Iperf) → stuck s ≡ true → some_stopped ts s ≡ false
unfolding some_stopped
stuck-forever [] s h = ground arith
stuck-forever (t ∷ ts) s h = ground (arith, stuck-forever ts (step t s) (step-stuck t s h))

-- After a start that fails, for want of memory or of a task, while nothing is running, `is_running`
-- is set and stays set through all steps whatever: no later start succeeds, and `iperf_stop`, which
-- waits for it, does not return.
pub iperf_start-stuck :
    (cfg : Config) (malloc_ok task_ok : Bool) (ts : List Step) (s : Iperf)
    → s.is_running ≡ false
    → has_task s.traffic ≡ false
    → malloc_ok && task_ok ≡ false
    → let (ok, s') = iperf_start (some cfg) malloc_ok task_ok s in
      (ok ≡ false) × (some_stopped ts s' ≡ false)
unfolding iperf_start
iperf_start-stuck cfg m c ts s h gone failed =
    (ground arith, stuck-forever ts (iperf_start (some cfg) m c s).1 (ground arith))

opened_still :
    (a : Answer) (s : Iperf)
    → let s' = run_open a s in (s'.finish ≡ s.finish) × (s'.total_len ≡ s.total_len)
unfolding run_open udp_client_open udp_server_open tcp_client_open tcp_server_open
    iperf_start_report
opened_still a s = ground arith

turn_still :
    (a : Answer) (t : Traffic) (s : Iperf)
    → s.finish ≡ true
    → let s' = iperf_task_traffic a t s in (s'.finish ≡ true) × (s'.total_len ≡ s.total_len)
unfolding iperf_task_traffic udp_client_turn udp_server_turn tcp_client_turn tcp_server_accept
    tcp_server_receive leave
turn_still a opening s h = ground (arith, opened_still a s)
turn_still a t s h = ground arith

turns_still :
    (answers : List Answer) (s : Iperf)
    → s.finish ≡ true
    → let s' = steps (map traffic_turn answers) s in
      (s'.finish ≡ true) × (s'.total_len ≡ s.total_len)
unfolding steps step
turns_still [] s h = (h, refl)
turns_still (a ∷ answers) s h =
    let (h', same) = turn_still a s.traffic s h in
    let (h'', still) = turns_still answers (step (traffic_turn a) s) h' in (h'', still ∙ same)

stale-woken :
    (cfg : Config) (k interval time last_len cur : ℕ) (rest : List Report) (s : Iperf)
    → s.is_running ≡ false
    → pick k s.reports ≡ some (delaying interval time last_len cur, rest)
    → time ≤ (cur + interval) % size_mod
    → let s' = step (report_turn_of k) (step (start (some cfg) true true) s) in
      (s'.finish ≡ true) × (s'.total_len ≡ 0)
unfolding step iperf_start on_report keep_report report_turn
stale-woken cfg k interval time last_len cur rest s h p late = ground arith

-- A new run, with a report task that an earlier run has left, whose time is up when it wakes: if it
-- wakes first, then it finishes the new run, and the traffic task moves nothing in all its turns.
pub stale_report-finish :
    (cfg : Config) (k interval time last_len cur : ℕ) (rest : List Report) (answers : List Answer)
    (s : Iperf)
    → s.is_running ≡ false
    → pick k s.reports ≡ some (delaying interval time last_len cur, rest)
    → time ≤ (cur + interval) % size_mod
    → let s' = steps (start (some cfg) true true ∷ report_turn_of k ∷ map traffic_turn answers) s in
      (s'.finish ≡ true) × (s'.total_len ≡ 0)
unfolding steps
stale_report-finish cfg k interval time last_len cur rest answers s h p late =
    let s' = step (report_turn_of k) (step (start (some cfg) true true) s) in
    let (done, zero_yet) = stale-woken cfg k interval time last_len cur rest s h p late in
    let (done', still) = turns_still answers s' done in (done', still ∙ zero_yet)
