-- ===== src/Iperf/TrafficTask.antt =====
-- `iperf_run_tcp_server`, `iperf_run_udp_server`, `iperf_run_udp_client`, `iperf_run_tcp_client` and
-- `iperf_task_traffic`, one test of a loop and what follows it for each turn.
use esp8266_rtos_projects.Prelude.{
  ℕ, ◌+◌, ◌-◌, ◌*◌, ◌%◌, Bool, true, false, Option, none, some, ltb, ◌==◌, size_mod, if◌then◌else◌,
}
use esp8266_rtos_projects.Iperf.{
  Iperf, Traffic, absent, opening, accepting, receiving, tcp_sending, leaving, udp_receiving,
  udp_sending, total_mod, max_delay, iperf_is_udp_client, iperf_is_udp_server, iperf_is_tcp_client,
}
use esp8266_rtos_projects.Iperf.ReportTask.{iperf_start_report}

-- How the sockets are opened: the first call that fails, if one does.
pub data Open : Type 0 where
  opened socket_failed bind_failed listen_failed connect_failed : Open

-- What the calls of a turn give: how the sockets are opened; the result of `accept`, `recv`,
-- `recvfrom`, `send` or `sendto`, `none` for a negative one; whether `errno` is ENOMEM then; and
-- whether the report task can be created.
pub record Answer : Type 0 where
  pub open_result : Open
  pub result : Option ℕ
  pub enomem : Bool
  pub task_ok : Bool

unfoldable pub add_total : ℕ → Iperf → Iperf
add_total n s = record s { total_len = (s.total_len + n) % total_mod }

-- `close`, `finish` and the way out of `iperf_run_…`.
unfoldable pub leave : Iperf → Iperf
leave s = record s { finish = true; traffic = leaving; sockets = s.sockets - 1 }

unfoldable pub udp_client_open : Answer → Iperf → Iperf
udp_client_open a s = elim a.open_result [
  | socket_failed ↦ record s { traffic = leaving }
  | _ ↦
      iperf_start_report a.task_ok
        (record s { traffic = udp_sending false 1 0; sockets = s.sockets + 1 })
]

-- The delay after an ENOMEM.
unfoldable pub next_delay : ℕ → ℕ
next_delay delay = if ltb delay max_delay then delay * 2 else delay

-- After `sendto`, with the `id` in the packet and the delay.
unfoldable pub udp_client_sent : Answer → ℕ → ℕ → Iperf → Iperf
udp_client_sent a delay id s = elim a.result [
  | none ↦
      if a.enomem then record s { traffic = udp_sending true (next_delay delay) id } else leave s
  | some n ↦
      if n == s.buffer_len
      then add_total n (record s { traffic = udp_sending false delay id })
      else if a.enomem
      then record s { traffic = udp_sending true (next_delay delay) id }
      else leave s
]

unfoldable pub udp_client_turn : Answer → Bool → ℕ → ℕ → Iperf → Iperf
udp_client_turn a retry delay id s =
    if s.finish
    then leave s
    else if retry
    then udp_client_sent a delay id s
    else udp_client_sent a 1 ((id + 1) % size_mod) s

-- A socket that cannot be bound is not closed.
unfoldable pub udp_server_open : Answer → Iperf → Iperf
udp_server_open a s = elim a.open_result [
  | socket_failed ↦ record s { traffic = leaving }
  | bind_failed ↦ record s { traffic = leaving; sockets = s.sockets + 1 }
  | _ ↦ record s { traffic = udp_receiving true; sockets = s.sockets + 1 }
]

unfoldable pub udp_server_turn : Answer → Bool → Iperf → Iperf
udp_server_turn a udp_recv_start s = if s.finish then leave s else elim a.result [
  | none ↦ s
  | some n ↦ add_total n (
      if udp_recv_start
      then iperf_start_report a.task_ok (record s { traffic = udp_receiving false })
      else s)
]

-- A socket that cannot be connected is not closed.
unfoldable pub tcp_client_open : Answer → Iperf → Iperf
tcp_client_open a s = elim a.open_result [
  | socket_failed ↦ record s { traffic = leaving }
  | connect_failed ↦ record s { traffic = leaving; sockets = s.sockets + 1 }
  | _ ↦ iperf_start_report a.task_ok (record s { traffic = tcp_sending; sockets = s.sockets + 1 })
]

unfoldable pub tcp_client_turn : Answer → Iperf → Iperf
tcp_client_turn a s =
    if s.finish
    then leave s
    else elim a.result [ none ↦ leave s | some n ↦ if n == 0 then leave s else add_total n s ]

-- `close(listen_socket)` follows a failure.
unfoldable pub tcp_server_open : Answer → Iperf → Iperf
tcp_server_open a s = elim a.open_result [
  | socket_failed ↦ record s { traffic = leaving }
  | bind_failed ↦ record s { traffic = leaving }
  | listen_failed ↦ record s { traffic = leaving }
  | _ ↦ record s { traffic = accepting; sockets = s.sockets + 1 }
]

-- The outer loop: when `accept` fails, the listening socket is closed and `finish` is not set.
unfoldable pub tcp_server_accept : Answer → Iperf → Iperf
tcp_server_accept a s = if s.finish then leave s else elim a.result [
  | none ↦ record s { traffic = leaving; sockets = s.sockets - 1 }
  | some _ ↦
      iperf_start_report a.task_ok (record s { traffic = receiving; sockets = s.sockets + 1 })
]

-- The inner loop; after it `sockfd` is closed.
unfoldable pub tcp_server_receive : Answer → Iperf → Iperf
tcp_server_receive a s =
    if s.finish then record s { traffic = accepting; sockets = s.sockets - 1 } else elim a.result [
      | none ↦ record s { finish = true; traffic = accepting; sockets = s.sockets - 1 }
      | some n ↦ add_total n s
    ]

unfoldable pub run_open : Answer → Iperf → Iperf
run_open a s =
    if iperf_is_udp_client s.cfg
    then udp_client_open a s
    else if iperf_is_udp_server s.cfg
    then udp_server_open a s
    else if iperf_is_tcp_client s.cfg
    then tcp_client_open a s
    else tcp_server_open a s

-- `iperf_task_traffic`.
unfoldable pub iperf_task_traffic : Answer → Traffic → Iperf → Iperf
iperf_task_traffic a absent s = s
iperf_task_traffic a opening s = run_open a s
iperf_task_traffic a accepting s = tcp_server_accept a s
iperf_task_traffic a receiving s = tcp_server_receive a s
iperf_task_traffic a tcp_sending s = tcp_client_turn a s
iperf_task_traffic a (udp_receiving udp_recv_start) s = udp_server_turn a udp_recv_start s
iperf_task_traffic a (udp_sending retry delay id) s = udp_client_turn a retry delay id s
iperf_task_traffic a leaving s = record s { buffer = false; is_running = false; traffic = absent }
