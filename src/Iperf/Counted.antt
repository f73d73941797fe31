-- ===== src/Iperf/Counted.antt =====
-- What the UDP client has counted, at any point of any run.
use esp8266_rtos_projects.Prelude.{
  ℕ, ◌+◌, ◌*◌, ◌<◌, ◌≡◌, refl, Bool, true, not, ◌||◌, ◌&&◌, Option, List, [], ◌∷◌, arith, leb, ◌==◌,
  if◌then◌else◌, size_mod,
}
use esp8266_rtos_projects.Iperf.{
  Config, Iperf, Traffic, absent, opening, accepting, receiving, tcp_sending, leaving,
  udp_receiving, udp_sending, udp_tx_len, iperf_get_buffer_len,
}
use esp8266_rtos_projects.Iperf.ReportTask.{keep_report, on_report, iperf_start_report}
use esp8266_rtos_projects.Iperf.TrafficTask.{
  Answer, leave, add_total, udp_client_open, udp_client_turn, udp_client_sent, udp_server_open,
  udp_server_turn, tcp_client_open, tcp_client_turn, tcp_server_open, tcp_server_accept,
  tcp_server_receive, run_open, iperf_task_traffic,
}
use esp8266_rtos_projects.Iperf.Control.{
  iperf_start, iperf_stop, Step, start, stop, traffic_turn, report_turn_of, step, steps,
}
use esp8266_rtos_projects.Iperf.Ends.{has_task, turns, turns-step}

-- The total is a datagram for each `id` that has been taken, but the one that is still to be sent
-- again; `n` is how many turns there have been at most.
abbrev pub counted_at : ℕ → Traffic → Iperf → Bool
counted_at n opening s = (s.total_len == 0) && (s.buffer_len == iperf_get_buffer_len s.cfg)
counted_at n (udp_sending retry delay id) s =
    (s.buffer_len == udp_tx_len)
    && ((s.total_len + (if retry then udp_tx_len else 0) == udp_tx_len * id) && leb id n)
counted_at n _ s = true

abbrev pub counted : ℕ → Traffic → Iperf → Bool
counted n t s = (not (has_task t) || s.is_running) && counted_at n t s

open-counted :
    (a : Answer) (n : ℕ) (s : Iperf)
    → counted n opening s ≡ true
    → let s' = run_open a s in counted (n + 1) s'.traffic s' ≡ true
unfolding run_open udp_client_open udp_server_open tcp_client_open tcp_server_open
    iperf_start_report iperf_get_buffer_len
open-counted a n s v = ground arith

turn-counted :
    (a : Answer) (n : ℕ) (t : Traffic) (s : Iperf)
    → s.traffic ≡ t
    → n + 1 < size_mod
    → counted n t s ≡ true
    → let s' = iperf_task_traffic a t s in counted (n + 1) s'.traffic s' ≡ true
unfolding iperf_task_traffic udp_client_turn udp_client_sent udp_server_turn tcp_client_turn
    tcp_server_accept tcp_server_receive leave add_total iperf_start_report
turn-counted a n absent s e m v = ground arith
turn-counted a n opening s e m v = open-counted a n s v
turn-counted a n accepting s e m v = ground arith
turn-counted a n receiving s e m v = ground arith
turn-counted a n tcp_sending s e m v = ground arith
turn-counted a n leaving s e m v = ground arith
turn-counted a n (udp_receiving b) s e m v = ground arith
turn-counted a n (udp_sending b d i) s e m v = ground arith

report-counted :
    (k n : ℕ) (s : Iperf)
    → counted n s.traffic s ≡ true
    → let s' = on_report k s in counted n s'.traffic s' ≡ true
unfolding on_report keep_report
report-counted k n s v = ground arith

start-counted :
    (cfg : Option Config) (m c : Bool) (n : ℕ) (s : Iperf)
    → counted n s.traffic s ≡ true
    → let s' = (iperf_start cfg m c s).1 in counted n s'.traffic s' ≡ true
unfolding iperf_start
start-counted cfg m c n s v = ground arith

step-counted :
    (t : Step) (n : ℕ) (s : Iperf)
    → n + turns (t ∷ []) < size_mod
    → counted n s.traffic s ≡ true
    → let s' = step t s in counted (n + turns (t ∷ [])) s'.traffic s' ≡ true
unfolding step iperf_stop
step-counted (start cfg m c) n s b v = ground (arith, start-counted cfg m c n s v)
step-counted stop n s b v = ground arith
step-counted (traffic_turn a) n s b v = turn-counted a n s.traffic s refl b v
step-counted (report_turn_of k) n s b v = ground (arith, report-counted k n s v)

-- Through any steps of all tasks in any order, with fewer turns of the traffic task than the packet's
-- number can count, and whatever datagrams fail for want of memory and are tried again: a UDP client
-- has counted exactly one datagram of 1472 bytes for each `id`, but the one that it will send again.
pub steps-counted :
    (ts : List Step) (n : ℕ) (s : Iperf)
    → n + turns ts < size_mod
    → counted n s.traffic s ≡ true
    → let s' = steps ts s in counted (n + turns ts) s'.traffic s' ≡ true
unfolding steps
steps-counted [] n s b v = ground arith
steps-counted (t ∷ ts) n s b v =
    let whole : n + turns (t ∷ ts) ≡ n + turns (t ∷ []) + turns ts =
      omega (arith, turns-step t ts) in
    rw whole (
      steps-counted ts (n + turns (t ∷ [])) (step t s) (omega arith)
        (step-counted t n s (omega arith) v))
