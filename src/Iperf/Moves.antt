-- ===== src/Iperf/Moves.antt =====
-- What holds after any steps of the tasks: the variables, and the sockets that stay open.
use esp8266_rtos_projects.Prelude.{
  ℕ, ◌+◌, ◌≡◌, refl, Bool, true, not, ◌||◌, ◌&&◌, Option, List, [], ◌∷◌, arith, ltb, leb, ◌==◌,
  if◌then◌else◌,
}
use esp8266_rtos_projects.Iperf.{
  Config, Iperf, Traffic, absent, opening, accepting, receiving, tcp_sending, leaving,
  udp_receiving, udp_sending, total_mod, max_delay, iperf_is_udp_client, iperf_is_udp_server,
  iperf_is_tcp_client,
}
use esp8266_rtos_projects.Iperf.ReportTask.{keep_report, on_report, iperf_start_report}
use esp8266_rtos_projects.Iperf.TrafficTask.{
  Open, bind_failed, connect_failed, Answer, leave, add_total, udp_client_open, udp_client_turn,
  udp_client_sent, next_delay, udp_server_open, udp_server_turn, tcp_client_open, tcp_client_turn,
  tcp_server_open, tcp_server_accept, tcp_server_receive, run_open, iperf_task_traffic,
}
use esp8266_rtos_projects.Iperf.Control.{
  iperf_start, iperf_stop, Step, start, stop, traffic_turn, report_turn_of, step, steps,
}
use esp8266_rtos_projects.Iperf.Ends.{has_task}

-- The sockets that the traffic task has open at each place.
abbrev pub held : Traffic → ℕ
held absent = 0
held opening = 0
held accepting = 1
held receiving = 2
held tcp_sending = 1
held leaving = 0
held (udp_receiving udp_recv_start) = 1
held (udp_sending retry delay id) = 1

abbrev pub delay_ok : Traffic → Bool
delay_ok (udp_sending retry delay id) =
    (delay == 1)
    || ((delay == 2)
        || ((delay == 4)
            || ((delay == 8) || ((delay == 16) || ((delay == 32) || (delay == max_delay))))))
delay_ok _ = true

-- A traffic task belongs to a run and has a buffer, its sockets are open, and its delay is a power of two
-- up to the limit.
abbrev pub valid : Traffic → Iperf → Bool
valid t s =
    (not (has_task t) || s.is_running && s.buffer)
    && (leb (held t) s.sockets && (delay_ok t && ltb s.total_len total_mod))

-- The call that fails after `socket` where nothing closes it.
abbrev pub leak_open : Open → Config → ℕ
leak_open bind_failed cfg =
    if iperf_is_udp_client cfg then 0 else if iperf_is_udp_server cfg then 1 else 0
leak_open connect_failed cfg =
    if iperf_is_udp_client cfg
    then 0
    else if iperf_is_udp_server cfg
    then 0
    else if iperf_is_tcp_client cfg
    then 1
    else 0
leak_open _ cfg = 0

abbrev pub leak : Step → Traffic → Config → ℕ
leak (traffic_turn a) opening cfg = leak_open a.open_result cfg
leak _ t cfg = 0

abbrev pub leaks : List Step → Iperf → ℕ
leaks [] s = 0
leaks (t ∷ ts) s = leak t s.traffic s.cfg + leaks ts (step t s)

-- What a step does: it keeps the state valid and the sockets are those held and those leaked.
abbrev Kept : Step → Traffic → Iperf → Iperf → Type 0
Kept t before s s' =
    (valid s'.traffic s' ≡ true)
    × (s'.sockets + held before ≡ s.sockets + held s'.traffic + leak t before s.cfg)

open-Kept :
    (a : Answer) (s : Iperf)
    → valid opening s ≡ true
    → Kept (traffic_turn a) opening s (run_open a s)
unfolding run_open udp_client_open udp_server_open tcp_client_open tcp_server_open
    iperf_start_report
open-Kept a s v = ground arith

turn-Kept :
    (a : Answer) (t : Traffic) (s : Iperf)
    → s.traffic ≡ t
    → valid t s ≡ true
    → Kept (traffic_turn a) t s (iperf_task_traffic a t s)
unfolding iperf_task_traffic udp_client_turn udp_client_sent next_delay udp_server_turn
    tcp_client_turn tcp_server_accept tcp_server_receive leave add_total iperf_start_report
turn-Kept a absent s e v = ground arith
turn-Kept a opening s e v = open-Kept a s v
turn-Kept a accepting s e v = ground arith
turn-Kept a receiving s e v = ground arith
turn-Kept a tcp_sending s e v = ground arith
turn-Kept a leaving s e v = ground arith
turn-Kept a (udp_receiving b) s e v = ground arith
turn-Kept a (udp_sending b d i) s e v = ground arith

report-Kept :
    (k : ℕ) (s : Iperf)
    → valid s.traffic s ≡ true
    → Kept (report_turn_of k) s.traffic s (on_report k s)
unfolding on_report keep_report
report-Kept k s v = ground arith

start-Kept :
    (cfg : Option Config) (m c : Bool) (s : Iperf)
    → valid s.traffic s ≡ true
    → Kept (start cfg m c) s.traffic s (iperf_start cfg m c s).1
unfolding iperf_start
start-Kept cfg m c s v = ground arith

step-Kept : (t : Step) (s : Iperf) → valid s.traffic s ≡ true → Kept t s.traffic s (step t s)
unfolding step iperf_stop
step-Kept (start cfg m c) s v = start-Kept cfg m c s v
step-Kept stop s v = ground arith
step-Kept (traffic_turn a) s v = turn-Kept a s.traffic s refl v
step-Kept (report_turn_of k) s v = report-Kept k s v

-- From a state that is valid, any steps of all tasks in any order lead to one that is: a traffic task
-- belongs to a run, has its buffer and its sockets, and the delay of the UDP client is a power of two
-- of at most 64; and the sockets that are open are those that the traffic task holds and, for each
-- failure of `bind` in the UDP server and of `connect` in the TCP client, one more that is never closed.
pub steps-valid :
    (ts : List Step) (s : Iperf)
    → valid s.traffic s ≡ true
    → let s' = steps ts s in
      (valid s'.traffic s' ≡ true)
      × (s'.sockets + held s.traffic ≡ s.sockets + held s'.traffic + leaks ts s)
unfolding steps
steps-valid [] s v = (v, omega arith)
steps-valid (t ∷ ts) s v =
    let (v', here) = step-Kept t s v in
    let (v'', later) = steps-valid ts (step t s) v' in (v'', omega arith)
