-- ===== src/TcpBridge/Tests.antt =====
-- Runs of the model of tcp_bridge.c, and its theorems at concrete states.
use esp8266_rtos_projects.Prelude.{
  ℕ, ◌+◌, ◌≡◌, ◌≤◌, refl, inl, true, false, none, some, List, [], ◌∷◌, ◌++◌, Bytes, codes, length,
  replicate, arith, length-replicate,
}
use esp8266_rtos_projects.TcpBridge.LossyQueue
use esp8266_rtos_projects.TcpBridge.LossyQueue.{Op, put, get}
use esp8266_rtos_projects.TcpBridge.Ring.{RingBuf, rb_write, rb_read, uart_cache_size}
use esp8266_rtos_projects.TcpBridge.Ring
use esp8266_rtos_projects.TcpBridge.Ring.Valid.{IsValid}
use esp8266_rtos_projects.TcpBridge.Ring.Read.{run_refines}
use esp8266_rtos_projects.TcpBridge.Session
use esp8266_rtos_projects.TcpBridge.Session.{
  Worker, gone, net_loop, net_recv, net_write, net_stop, Shared, Answer, worker_step, Server,
  accepting, waiting, closing, World, the_net, the_buf, the_server, the_daemon, a_stale, Choice,
  booted,
}
use esp8266_rtos_projects.TcpBridge.Session.Protocol.{Balanced}
use esp8266_rtos_projects.TcpBridge.Session.Protocol.Safe.{session_protocol}
use esp8266_rtos_projects.TcpBridge.Session.Traffic.{pending}
use esp8266_rtos_projects.TcpBridge.Session.Traffic.Order.{
  downlink_in_order, uplink_conserved, uplink_in_order,
}
use esp8266_rtos_projects.TcpBridge.Session.Stale.{takeover, stale_task_ends_session}

-- A ring of four bytes that holds 8, 9, 7, with its read index at the last byte.
abbrev block : Bytes
block = 9 ∷ 7 ∷ 0 ∷ 8 ∷ []

abbrev ring : RingBuf
ring = record { buffer = some block; size = 4; head = 2; tail = 3; count = 3 }

ring-IsValid : IsValid block ring
ring-IsValid = omega arith

abbrev ops : List Op
ops = put (1 ∷ 2 ∷ 3 ∷ []) ∷ get 3 ∷ get 5 ∷ []

abbrev zeros : ℕ → Bytes
zeros n = replicate n 0

zeros_roomy : (n : ℕ) → n ≤ length (zeros n)
zeros_roomy n = omega (arith, length-replicate {A = ℕ} n 0)

test_run : Ring.run zeros ring ops ≡ (7 ∷ 1 ∷ 2 ∷ []) ∷ (3 ∷ []) ∷ []
unfolding Ring.run rb_write rb_read Ring.write_loop Ring.read_loop Ring.advance LossyQueue.run
test_run = refl

run_refines_example : Ring.run zeros ring ops ≡ LossyQueue.run 4 (8 ∷ 9 ∷ 7 ∷ []) ops
run_refines_example = run_refines zeros zeros_roomy ops refl ring-IsValid

abbrev fine : Answer
fine = record {
  ok = true;
  net_created = true;
  buf_created = true;
  bytes = codes "hi";
  sent = some 2;
}

abbrev broken : Answer
broken = record { ok = false; net_created = false; buf_created = false; bytes = []; sent = none }

abbrev no_tasks : Answer
no_tasks = record fine { net_created = false; buf_created = false }

-- A client connects, its bytes go to the UART, bytes of the UART go to it, and it hangs up.
abbrev one_session : List Choice
one_session =
    (the_daemon, fine)
    ∷ (the_daemon, fine)
    ∷ (the_server, fine)
    ∷ (the_server, fine)
    ∷ (the_net, fine)
    ∷ (the_net, fine)
    ∷ (the_net, fine)
    ∷ (the_buf, fine)
    ∷ (the_buf, fine)
    ∷ (the_net, fine)
    ∷ (the_buf, fine)
    ∷ (the_buf, fine)
    ∷ (the_net, fine)
    ∷ (the_net, broken)
    ∷ []

one_session-Timely : Session.Protocol.Timely one_session booted
unfolding Session.step Session.worker_step Session.server_step Session.open_session
    Session.daemon_step
one_session-Timely =
    (tt, (tt, (λ e. cc, (λ e. cc, (tt, (tt, (tt, (tt, (tt, (tt, (tt, (tt, (tt, (tt, tt))))))))))))))

test_session :
    let w = Session.run one_session booted in
    (w.shared.uart_tx ≡ codes "hi") × (w.shared.to_client ≡ codes "hi") × (w.net ≡ net_stop)
unfolding Session.run Session.step Session.worker_step Session.server_step Session.open_session
    Session.daemon_step
test_session = (refl, refl, refl)

session_protocol_example :
    let w = Session.run one_session booted in
    (w.shared.fault ≡ false) × (w.stale ≡ []) × Balanced w.server w.shared w.net w.buf
session_protocol_example = session_protocol one_session one_session-Timely

downlink_in_order_example :
    let w = Session.run one_session booted in
    w.shared.from_client ≡ w.shared.uart_tx ++ pending w.net
downlink_in_order_example = downlink_in_order one_session one_session-Timely

uplink_conserved_example :
    let w = Session.run one_session booted in
    let s = w.shared in
    length s.captured
    ≡ length s.to_client + s.unsent + length (pending w.buf) + length s.cache + s.forgotten
uplink_conserved_example = uplink_conserved one_session one_session-Timely

nothing_lost :
    ((Session.run one_session booted).shared.forgotten ≡ 0)
    × ((Session.run one_session booted).shared.unsent ≡ 0)
unfolding Session.run Session.step Session.worker_step Session.give Session.server_step
    Session.open_session Session.daemon_step
nothing_lost = (refl, refl)

uplink_in_order_example :
    let w = Session.run one_session booted in
    let s = w.shared in s.captured ≡ s.to_client ++ (pending w.buf ++ s.cache)
uplink_in_order_example =
    uplink_in_order one_session one_session-Timely nothing_lost.0 nothing_lost.1

-- The sending task fails to start, the receiving task is still in `recv` when the server's pause is
-- over, a second client connects, and then the old `recv` returns.
abbrev late : List Choice
late =
    (the_server, fine)
    ∷ (the_server, fine)
    ∷ (the_net, fine)
    ∷ (the_net, fine)
    ∷ (the_buf, broken)
    ∷ (the_server, fine)
    ∷ (the_server, fine)
    ∷ (the_server, fine)
    ∷ (the_server, fine)
    ∷ (a_stale 0, broken)
    ∷ []

abbrev after_late : World
after_late = Session.run late booted

after_late_is :
    (after_late.server ≡ waiting)
    × (after_late.shared.sem ≡ 0)
    × (after_late.shared.sem_live ≡ true)
    × (after_late.stale ≡ net_stop ∷ [])
unfolding Session.run Session.step Session.worker_step Session.give Session.server_step
    Session.open_session Session.stale_step
after_late_is = (refl, refl, refl, refl)

stale_task_ends_session_example :
    let w' = Session.run (takeover fine) after_late in
    (w'.server ≡ closing)
    × (w'.shared.running ≡ false)
    × (w'.net ≡ after_late.net)
    × (w'.buf ≡ after_late.buf)
stale_task_ends_session_example =
    stale_task_ends_session fine after_late net_stop [] after_late_is.0 after_late_is.1
      after_late_is.2 after_late_is.3 (inl refl)

abbrev listening : World
listening = record booted { server = accepting }

abbrev cache_block : Bytes
cache_block = replicate uart_cache_size 0
