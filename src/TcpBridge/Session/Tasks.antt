-- ===== src/TcpBridge/Session/Tasks.antt =====
-- A task whose session is over comes to its end.
use esp8266_rtos_projects.Prelude.{ℕ, ◌≤◌, ◌<◌, ◌≡◌, ◌≢◌, refl, false, arith}
use esp8266_rtos_projects.TcpBridge.Session.{
  Worker, gone, net_start, net_loop, net_recv, net_write, net_stop, net_give, buf_start, buf_loop,
  buf_read, buf_send, buf_stop, buf_give, Shared, Answer, give, worker_step,
}

-- The actions that a task has left when `running` is false.
abbrev pub rank : Worker → ℕ
rank gone = 0
rank net_give = 1
rank buf_give = 1
rank net_stop = 2
rank buf_stop = 2
rank net_loop = 3
rank buf_loop = 3
rank net_start = 4
rank buf_start = 4
rank (net_write bytes) = 4
rank (buf_send bytes) = 4
rank net_recv = 5
rank buf_read = 5

-- Once `running` is false, no action of a task sets it again, and whatever its calls return,
-- each action of a task that has not ended brings it closer to its end, which is at most five
-- actions away.
pub worker_step-ends :
    (a : Answer) (s : Shared) (w : Worker)
    → s.running ≡ false
    → w ≢ gone
    → let (s', w') = worker_step a s w in (s'.running ≡ false) × (rank w' < rank w) × (rank w ≤ 5)
unfolding worker_step give
worker_step-ends a s gone r h = absurd (h refl)
worker_step-ends a s net_start r h = ground arith
worker_step-ends a s net_loop r h = ground arith
worker_step-ends a s net_recv r h = ground arith
worker_step-ends a s buf_read r h = ground arith
worker_step-ends a s (buf_send bytes) r h = ground arith
worker_step-ends a s _ r h = ground arith
