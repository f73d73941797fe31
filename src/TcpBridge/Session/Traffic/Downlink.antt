-- ===== src/TcpBridge/Session/Traffic/Downlink.antt =====
-- The bytes from the client to the UART.
use esp8266_rtos_projects.Prelude.{◌≡◌, refl, true, append-nil, arith}
use esp8266_rtos_projects.TcpBridge.Session.{
  Worker, net_start, net_loop, net_recv, net_write, buf_read, buf_send, Shared, Answer, give,
  worker_step, capturing, World, daemon_step,
}
use esp8266_rtos_projects.TcpBridge.Session.Traffic.{is_net, is_buf, Down, SameUp, SameDown}

-- The receiving task passes on what it received, and leaves the other direction alone.
pub net_step-Down :
    (a : Answer) (s : Shared) (w : Worker)
    → is_net w ≡ true
    → Down s w
    → let (s', w') = worker_step a s w in (is_net w' ≡ true) × Down s' w'
unfolding worker_step give
net_step-Down a s (net_write bytes) h d = (refl, rw append-nil d)
net_step-Down a s net_recv h d = ground (arith, append-nil s.uart_tx)
net_step-Down a s net_start h d = ground arith
net_step-Down a s net_loop h d = ground arith
net_step-Down a s _ h d = ground arith

pub net_step-SameUp :
    (a : Answer) (s : Shared) (w : Worker) → is_net w ≡ true → SameUp s (worker_step a s w).0
unfolding worker_step give
net_step-SameUp a s net_recv h = ground arith
net_step-SameUp a s _ h = ground arith

pub buf_step-SameDown :
    (a : Answer) (s : Shared) (w : Worker) → is_buf w ≡ true → SameDown s (worker_step a s w).0
unfolding worker_step give
buf_step-SameDown a s buf_read h = ground arith
buf_step-SameDown a s (buf_send bytes) h = ground arith
buf_step-SameDown a s _ h = ground arith

pub capture-SameDown :
    (a : Answer) (w : World) → SameDown w.shared (daemon_step capturing a w).shared
unfolding daemon_step
capture-SameDown a w = record { from_client = refl; uart_tx = refl }
