-- ===== src/Iperf/Ends.antt =====
-- How a run ends once `finish` is set.
use esp8266_rtos_projects.Prelude.{
  ℕ, ◌+◌, ◌≤◌, ◌≡◌, refl, Bool, true, false, not, ◌||◌, Option, none, some, List, [], ◌∷◌, arith,
  Bool-cases, inl, inr,
}
use esp8266_rtos_projects.Iperf.{
  Config, Iperf, Traffic, absent, opening, accepting, receiving, tcp_sending, leaving,
  udp_receiving, udp_sending,
}
use esp8266_rtos_projects.Iperf.ReportTask.{keep_report, on_report, iperf_start_report}
use esp8266_rtos_projects.Iperf.TrafficTask.{
  Answer, leave, udp_client_open, udp_client_turn, udp_server_open, udp_server_turn,
  tcp_client_open, tcp_client_turn, tcp_server_open, tcp_server_accept, tcp_server_receive,
  run_open, iperf_task_traffic,
}
use esp8266_rtos_projects.Iperf.Control.{
  iperf_start, iperf_stop, Step, start, stop, traffic_turn, report_turn_of, step,
}

-- The turns that are left once `finish` is set.
abbrev pub rank : Traffic → ℕ
rank absent = 0
rank opening = 3
rank accepting = 2
rank receiving = 3
rank tcp_sending = 2
rank leaving = 1
rank (udp_receiving udp_recv_start) = 2
rank (udp_sending retry delay id) = 2

abbrev pub has_task : Traffic → Bool
has_task absent = false
has_task _ = true

abbrev pub turns : List Step → ℕ
turns [] = 0
turns (traffic_turn a ∷ ts) = 1 + turns ts
turns (_ ∷ ts) = turns ts

-- Whether `is_running` is false at some point of the run, its ends included.
unfoldable pub some_stopped : List Step → Iperf → Bool
some_stopped [] s = not s.is_running
some_stopped (t ∷ ts) s = not s.is_running || some_stopped ts (step t s)

opened_finishing :
    (a : Answer) (s : Iperf)
    → let s' = run_open a s in
      (s'.finish ≡ s.finish)
      × ((rank s'.traffic ≤ 2) × ((has_task s'.traffic ≡ true) × (s'.is_running ≡ s.is_running)))
unfolding run_open udp_client_open udp_server_open tcp_client_open tcp_server_open
    iperf_start_report
opened_finishing a s = ground arith

-- A turn with `finish` set comes nearer to the end.
turn-nearer :
    (a : Answer) (t : Traffic) (s : Iperf)
    → s.traffic ≡ t
    → s.finish ≡ true
    → has_task t ≡ true
    → s.is_running ≡ true
    → let s' = iperf_task_traffic a t s in
      (s'.finish ≡ true) × ((rank s'.traffic + 1 ≤ rank t) × (s'.is_running ≡ has_task s'.traffic))
unfolding iperf_task_traffic udp_client_turn udp_server_turn tcp_client_turn tcp_server_accept
    tcp_server_receive leave
turn-nearer a absent s e h task r = ground arith
turn-nearer a opening s e h task r = ground (arith, opened_finishing a s)
turn-nearer a accepting s e h task r = ground arith
turn-nearer a receiving s e h task r = ground arith
turn-nearer a tcp_sending s e h task r = ground arith
turn-nearer a leaving s e h task r = ground arith
turn-nearer a (udp_receiving b) s e h task r = ground arith
turn-nearer a (udp_sending b d i) s e h task r = ground arith

-- The other steps leave a run that is ending as it is.
report-kept :
    (k : ℕ) (s : Iperf)
    → s.finish ≡ true
    → let s' = on_report k s in
      (s'.finish ≡ true) × ((s'.traffic ≡ s.traffic) × (s'.is_running ≡ s.is_running))
unfolding on_report keep_report
report-kept k s h = ground arith

start-kept :
    (cfg : Option Config) (m c : Bool) (s : Iperf)
    → s.is_running ≡ true
    → (iperf_start cfg m c s).1 ≡ s
unfolding iperf_start
start-kept none m c s h = refl
start-kept (some cfg) m c s h = rw h refl

step-nearer :
    (t : Step) (s : Iperf)
    → s.finish ≡ true
    → s.is_running ≡ true
    → has_task s.traffic ≡ true
    → let s' = step t s in
      (s'.finish ≡ true)
      × ((rank s'.traffic + turns (t ∷ []) ≤ rank s.traffic)
          × (s'.is_running ≡ has_task s'.traffic))
unfolding step iperf_stop
step-nearer (start cfg m c) s h r task = ground (arith, start-kept cfg m c s r)
step-nearer stop s h r task = ground arith
step-nearer (traffic_turn a) s h r task = turn-nearer a s.traffic s refl h task r
step-nearer (report_turn_of k) s h r task = ground (arith, report-kept k s h)

pub turns-step : (t : Step) (ts : List Step) → turns (t ∷ ts) ≡ turns (t ∷ []) + turns ts
turns-step (traffic_turn a) ts = omega arith
turns-step (start cfg m c) ts = omega arith
turns-step stop ts = omega arith
turns-step (report_turn_of k) ts = omega arith

ending-stopped :
    (ts : List Step) (s : Iperf)
    → s.finish ≡ true
    → s.is_running ≡ has_task s.traffic
    → rank s.traffic ≤ turns ts
    → some_stopped ts s ≡ true
unfolding some_stopped
ending-stopped [] s h r m = ground arith
ending-stopped (t ∷ ts) s h r m = elim (Bool-cases s.is_running) [
  | inl running ↦
      let (h', (m', r')) = step-nearer t s h running (ground arith) in
      let later = ending-stopped ts (step t s) h' r' (omega (arith, turns-step t ts)) in
      ground arith
  | inr over ↦ ground arith
]

stopped-now : (ts : List Step) (s : Iperf) → s.is_running ≡ false → some_stopped ts s ≡ true
unfolding some_stopped
stopped-now [] s h = ground arith
stopped-now (t ∷ ts) s h = ground arith

rank_bound : (t : Traffic) → rank t ≤ 3
rank_bound t = ground arith

-- Where `is_running` is set just while there is a traffic task, `iperf_stop` makes the run end: in any
-- order of the steps of all tasks, with any answers of the sockets and any tries to start another run,
-- `is_running` is false, which is what `iperf_stop` waits for, by the time the traffic task has had
-- three turns.
pub iperf_stop-ends :
    (ts : List Step) (s : Iperf)
    → s.is_running ≡ has_task s.traffic
    → 3 ≤ turns ts
    → some_stopped ts (iperf_stop s) ≡ true
unfolding iperf_stop
iperf_stop-ends ts s r m = ground (
  arith,
  rank_bound s.traffic,
  ending-stopped ts (record s { finish = true }) refl r,
  stopped-now ts s,
)
