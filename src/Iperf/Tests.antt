-- ===== src/Iperf/Tests.antt =====
-- The theorems on the measurements, at concrete runs.
use esp8266_rtos_projects.Prelude.{
  ℕ, ◌+◌, ◌*◌, ◌/◌, ◌-◌, ◌≡◌, refl, true, false, none, some, List, [], ◌∷◌, map, arith, size_mod,
}
use esp8266_rtos_projects.Iperf.Flag.{has_flag}
use esp8266_rtos_projects.Iperf.{
  Config, Iperf, delaying, absent, tcp_sending, iperf_is_udp_client, iperf_is_udp_server,
  iperf_is_tcp_client, iperf_get_buffer_len,
}
use esp8266_rtos_projects.Iperf.ReportTask.{
  report_loop, report_turn, pick, keep_report, on_report, iperf_start_report,
}
use esp8266_rtos_projects.Iperf.TrafficTask.{
  Answer, opened, connect_failed, add_total, leave, udp_client_open, next_delay, udp_client_sent,
  udp_client_turn, tcp_client_open, run_open, iperf_task_traffic,
}
use esp8266_rtos_projects.Iperf.Control.{
  iperf_start, iperf_stop, Step, start, stop, traffic_turn, report_turn_of, step, steps,
}
use esp8266_rtos_projects.Iperf.Ends.{some_stopped, iperf_stop-ends}
use esp8266_rtos_projects.Iperf.Moves.{valid, held, leaks, steps-valid}
use esp8266_rtos_projects.Iperf.Figures.{bits_of, report_turn-bits}
use esp8266_rtos_projects.Iperf.Stuck.{iperf_start-stuck, stale_report-finish}

abbrev config : ℕ → Config
config flag = record {
  flag = flag;
  dip = 0;
  sip = 1;
  dport = 5001;
  sport = 5001;
  interval = 3;
  time = 6;
}

abbrev boot : Iperf
boot = record {
  is_running = false;
  cfg = config 0;
  finish = false;
  total_len = 0;
  buffer_len = 0;
  buffer = false;
  traffic = absent;
  reports = [];
  sockets = 0;
}

abbrev gives : ℕ → Answer
gives n = record { open_result = opened; result = some n; enomem = false; task_ok = true }

abbrev no_memory : Answer
no_memory = record { open_result = opened; result = none; enomem = true; task_ok = true }

abbrev refused : Answer
refused = record { open_result = connect_failed; result = none; enomem = false; task_ok = true }

-- A UDP client sends a datagram, fails once, and sends the next one.
abbrev udp_steps : List Step
udp_steps =
    start (some (config 9)) true true
    ∷ traffic_turn (gives 0)
    ∷ traffic_turn (gives 1472)
    ∷ report_turn_of 0
    ∷ traffic_turn no_memory
    ∷ traffic_turn (gives 1472)
    ∷ []

test_udp : (steps udp_steps boot).total_len ≡ 2944
unfolding steps step iperf_start iperf_get_buffer_len iperf_is_udp_client iperf_is_udp_server
    iperf_is_tcp_client has_flag iperf_task_traffic run_open udp_client_open udp_client_turn
    udp_client_sent add_total next_delay on_report pick report_turn report_loop keep_report
    iperf_start_report
test_udp = refl

-- A TCP client that is not answered.
abbrev lost_steps : List Step
lost_steps = start (some (config 5)) true true ∷ traffic_turn refused ∷ traffic_turn refused ∷ []

test_lost : (steps lost_steps boot).sockets ≡ 1
unfolding steps step iperf_start iperf_is_udp_client iperf_is_udp_server iperf_is_tcp_client
    has_flag iperf_task_traffic run_open tcp_client_open
test_lost = refl

steps-valid_example :
    let s' = steps lost_steps boot in
    (valid s'.traffic s' ≡ true) × (s'.sockets + 0 ≡ 0 + held s'.traffic + leaks lost_steps boot)
steps-valid_example = steps-valid lost_steps boot refl

abbrev sending : Iperf
sending = record boot {
  is_running = true;
  cfg = config 5;
  buffer_len = 16384;
  buffer = true;
  traffic = tcp_sending;
  sockets = 1;
}

abbrev stop_steps : List Step
stop_steps =
    traffic_turn (gives 100)
    ∷ start (some (config 5)) true true
    ∷ traffic_turn (gives 5)
    ∷ traffic_turn no_memory
    ∷ []

iperf_stop-ends_example : some_stopped stop_steps (iperf_stop sending) ≡ true
iperf_stop-ends_example = iperf_stop-ends stop_steps sending refl (omega arith)

abbrev at_total : ℕ → Iperf
at_total n = record sending { total_len = n }

past_4g :
    (report_turn (at_total 5000000000) (delaying 3 30 0 3)).1 ≡ some (delaying 3 30 705032704 6)
unfolding report_turn report_loop
past_4g = refl

report_turn-bits_example :
    bits_of (report_turn (at_total 5000000100) (delaying 3 30 705032704 6)).0
    ≡ some ((5000000100 - 5000000000) * 8 + 5000000000 / size_mod * size_mod * 8)
report_turn-bits_example =
    report_turn-bits (at_total 5000000000) (at_total 5000000100) 3 30 0 3 3 30 705032704 6 past_4g
      (omega arith) (omega arith)

iperf_start-stuck_example :
    let (ok, s') = iperf_start (some (config 5)) true false boot in
    (ok ≡ false) × (some_stopped stop_steps s' ≡ false)
iperf_start-stuck_example = iperf_start-stuck (config 5) true false stop_steps boot refl refl refl

-- A run of a UDP client is stopped while its report task waits.
abbrev stopped : Iperf
stopped =
    steps
      (start (some (config 9)) true true
        ∷ traffic_turn (gives 0)
        ∷ report_turn_of 0
        ∷ report_turn_of 0
        ∷ stop
        ∷ traffic_turn (gives 0)
        ∷ traffic_turn (gives 0)
        ∷ [])
      boot

left_behind : (stopped.is_running ≡ false) × (pick 0 stopped.reports ≡ some (delaying 3 6 0 3, []))
unfolding steps step iperf_start iperf_stop iperf_get_buffer_len iperf_is_udp_client
    iperf_is_udp_server iperf_is_tcp_client has_flag iperf_task_traffic run_open udp_client_open
    udp_client_turn leave on_report pick report_turn report_loop keep_report iperf_start_report
left_behind = (refl, refl)

stale_report-finish_example :
    let s' =
      steps
        (start (some (config 5)) true true
          ∷ report_turn_of 0
          ∷ map traffic_turn (gives 100 ∷ gives 100 ∷ []))
        stopped in
    (s'.finish ≡ true) × (s'.total_len ≡ 0)
stale_report-finish_example =
    stale_report-finish (config 5) 0 3 6 0 3 [] (gives 100 ∷ gives 100 ∷ []) stopped left_behind.0
      left_behind.1 (omega arith)
