-- ===== src/TcpBridge/Session.antt =====
-- The tasks of tcp_bridge.c and how they interleave. A step is one action of one task; a run is the
-- scheduler's choice of who acts next, with what the SDK answers. The ring buffer stands here as the
-- queue of LossyQueue.
pub mod Tasks
pub mod Protocol
pub mod Traffic
pub mod Stale
use esp8266_rtos_projects.Prelude.{
  ℕ, zero, suc, ◌+◌, ◌-◌, Bool, true, false, Option, none, some, List, [], ◌∷◌, ◌++◌, Bytes,
  if◌then◌else◌, ltb, length, take, drop,
}
use esp8266_rtos_projects.TcpBridge.LossyQueue
use esp8266_rtos_projects.TcpBridge.Ring.{uart_cache_size}

abbrev pub buf_size : ℕ
buf_size = 512

-- Where a task stands: `tcp_to_uart_task` in the states `net_…`, `buffer_to_tcp_task` in `buf_…`.
-- In `loop` it is about to test `running`, in `stop` it has left the loop, and in `give` only the
-- semaphore is left to give. `gone`: there is no such task, or it has deleted itself.
pub data Worker : Type 0 where
  gone : Worker
  net_start net_loop net_recv : Worker
  net_write : Bytes → Worker
  net_stop net_give : Worker
  buf_start buf_loop buf_read : Worker
  buf_send : Bytes → Worker
  buf_stop buf_give : Worker

-- What the tasks share: `ctx.running`, the count of `ctx.exit_sem` and whether that semaphore
-- exists, and the cache. The rest is a record of what happened: a use of a deleted semaphore, the
-- bytes read from the UART, overwritten in the cache, sent to the client and not sent, and the bytes
-- received from the client and written to the UART.
pub record Shared : Type 0 where
  pub running : Bool
  pub sem : ℕ
  pub sem_live : Bool
  pub fault : Bool
  pub cache : Bytes
  pub captured : Bytes
  pub forgotten : ℕ
  pub to_client : Bytes
  pub unsent : ℕ
  pub from_client : Bytes
  pub uart_tx : Bytes

-- What the SDK answers to the call that a step makes.
pub record Answer : Type 0 where
  pub ok : Bool  -- `malloc`, `socket`, `accept`
  pub net_created : Bool  -- `xTaskCreate`, twice
  pub buf_created : Bool
  pub bytes : Bytes  -- `recv` and `uart_read_bytes`; none for a failure
  pub sent : Option ℕ  -- `send`; `none` for a failure

-- `xSemaphoreGive(ctx->exit_sem)`; the count stays at its maximum, 2.
unfoldable pub give : Shared → Shared
give s =
    if s.sem_live
    then record s { sem = if ltb s.sem 2 then s.sem + 1 else s.sem }
    else record s { fault = true }

-- One action of a task.
unfoldable pub worker_step : Answer → Shared → Worker → Shared × Worker
worker_step a s gone = (s, gone)
worker_step a s net_start = if a.ok then (s, net_loop) else (give s, gone)
worker_step a s net_loop = if s.running then (s, net_recv) else (s, net_stop)
worker_step a s net_recv = elim a.bytes [
  | [] ↦ (s, net_stop)
  | c ∷ cs ↦ (record s { from_client = s.from_client ++ c ∷ cs }, net_write (c ∷ cs))
]
worker_step a s (net_write bytes) = (record s { uart_tx = s.uart_tx ++ bytes }, net_loop)
worker_step a s net_stop = (record s { running = false }, net_give)
worker_step a s net_give = (give s, gone)
worker_step a s buf_start = if a.ok then (s, buf_loop) else (give s, gone)
worker_step a s buf_loop = if s.running then (s, buf_read) else (s, buf_stop)
worker_step a s buf_read = elim (LossyQueue.read buf_size s.cache).0 [
  | [] ↦ (s, buf_loop)
  | c ∷ cs ↦ (record s { cache = (LossyQueue.read buf_size s.cache).1 }, buf_send (c ∷ cs))
]
worker_step a s (buf_send bytes) = elim a.sent [
  | none ↦ (record s { unsent = s.unsent + length bytes }, buf_stop)
  | some n ↦ (
    record s { to_client = s.to_client ++ take n bytes; unsent = s.unsent + (length bytes - n) },
    buf_loop,
  )
]
worker_step a s buf_stop = (record s { running = false }, buf_give)
worker_step a s buf_give = (give s, gone)

-- `tcp_server_task`: before `socket`, before `accept`, before the semaphore is taken, before the
-- session is closed, in the pause before the semaphore is deleted, or ended.
pub data Server : Type 0 where
  opening accepting waiting closing pausing ended : Server

-- `uart_rx_daemon_task`: before `malloc`, in its loop, or ended.
pub data Daemon : Type 0 where
  starting capturing dead : Daemon

-- `stale` are the tasks of earlier sessions that still live when a new one begins; `ctx` is one
-- variable of the server's stack frame, so they share it with the new session.
pub record World : Type 0 where
  pub shared : Shared
  pub net : Worker
  pub buf : Worker
  pub stale : List Worker
  pub server : Server
  pub daemon : Daemon

abbrev pub survivors : Worker → List Worker → List Worker
survivors gone rest = rest
survivors w rest = w ∷ rest

unfoldable pub open_session : Answer → World → World
open_session a w = record {
  shared = record (w.shared) { running = true; sem = 0; sem_live = true };
  net = if a.net_created then net_start else gone;
  buf = if a.buf_created then buf_start else gone;
  stale = survivors w.net (survivors w.buf w.stale);
  server = waiting;
  daemon = w.daemon;
}

-- One action of `tcp_server_task`; it blocks on the semaphore while its count is 0.
unfoldable pub server_step : Server → Answer → World → World
server_step opening a w =
    if a.ok then record w { server = accepting } else record w { server = ended }
server_step accepting a w = if a.ok then open_session a w else w
server_step waiting a w = elim w.shared.sem [
  | zero ↦ w
  | suc n ↦ record w { shared = record (w.shared) { sem = n }; server = closing }
]
server_step closing a w = record w {
  shared = record (w.shared) { running = false };
  server = pausing;
}
server_step pausing a w = record w {
  shared = record (w.shared) { sem_live = false };
  server = accepting;
}
server_step ended a w = w

unfoldable pub daemon_step : Daemon → Answer → World → World
daemon_step starting a w = record w { daemon = if a.ok then capturing else dead }
daemon_step capturing a w =
    let s = w.shared in
    record w {
      shared = record s {
        cache = LossyQueue.write uart_cache_size s.cache a.bytes;
        captured = s.captured ++ a.bytes;
        forgotten = s.forgotten + (length (s.cache ++ a.bytes) - uart_cache_size);
      };
    }
daemon_step dead a w = w

-- Who acts next.
pub data Actor : Type 0 where
  the_net the_buf the_server the_daemon : Actor
  a_stale : ℕ → Actor

unfoldable pub stale_step : ℕ → Answer → Shared → List Worker → Shared × List Worker
stale_step i a s [] = (s, [])
stale_step zero a s (w ∷ ws) = let (s', w') = worker_step a s w in (s', w' ∷ ws)
stale_step (suc i) a s (w ∷ ws) = let (s', ws') = stale_step i a s ws in (s', w ∷ ws')

unfoldable pub step : Actor → Answer → World → World
step the_net a w = let (s, net) = worker_step a w.shared w.net in record w { shared = s; net = net }
step the_buf a w = let (s, buf) = worker_step a w.shared w.buf in record w { shared = s; buf = buf }
step the_server a w = server_step w.server a w
step the_daemon a w = daemon_step w.daemon a w
step (a_stale i) a w =
    let (s, stale) = stale_step i a w.shared w.stale in record w { shared = s; stale = stale }

abbrev pub Choice : Type 0
Choice = Actor × Answer

unfoldable pub run : List Choice → World → World
run [] w = w
run ((actor, a) ∷ rest) w = run rest (step actor a w)

-- The state after `tcp_bridge_init` has created the two tasks.
abbrev pub booted : World
booted = record {
  shared = record {
    running = false;
    sem = 0;
    sem_live = false;
    fault = false;
    cache = [];
    captured = [];
    forgotten = 0;
    to_client = [];
    unsent = 0;
    from_client = [];
    uart_tx = [];
  };
  net = gone;
  buf = gone;
  stale = [];
  server = opening;
  daemon = starting;
}
