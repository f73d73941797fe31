-- ===== src/TcpBridge/Session/Protocol.antt =====
-- The end of a session: who has given the semaphore, and that no task outlives it, if both tasks end
-- within the pause of the server.
pub mod Safe
use mathlib.Core.Path.{subst}
use esp8266_rtos_projects.Prelude.{
  ℕ, ◌+◌, ◌≤◌, ◌≡◌, refl, ap, ◌∙◌, true, false, List, [], ◌∷◌, arith, Bool-cases, inl, inr,
}
use esp8266_rtos_projects.TcpBridge.Session.{
  Worker, gone, net_start, net_loop, net_recv, buf_read, buf_send, Shared, Answer, give,
  worker_step, Server, opening, accepting, waiting, closing, pausing, ended, Daemon, starting,
  capturing, dead, World, survivors, open_session, server_step, daemon_step, Actor, the_net,
  the_buf, the_server, the_daemon, a_stale, stale_step, step, Choice, run, booted,
}

-- The gives that a task still owes.
abbrev pub owes : Worker → ℕ
owes gone = 0
owes _ = 1

-- The server deletes the semaphore only when both tasks have ended: the 500 ms pause was enough.
abbrev pub OnTime : Actor → World → Type 0
OnTime the_server w = w.server ≡ pausing → (w.net ≡ gone) × (w.buf ≡ gone)
OnTime _ w = Unit {0}

abbrev pub Timely : List Choice → World → Type 0
Timely [] w = Unit {0}
Timely ((actor, a) ∷ rest) w = OnTime actor w × Timely rest (step actor a w)

-- The semaphore exists, and its count and the gives still owed are at most `bound` together.
abbrev pub Owing : ℕ → Shared → Worker → Worker → Type 0
Owing bound s net buf = (s.sem_live ≡ true) × (s.sem + owes net + owes buf ≤ bound)

abbrev pub AllGone : Worker → Worker → Type 0
AllGone net buf = owes net + owes buf ≡ 0

-- What holds of the semaphore and the two tasks in each state of the server.
abbrev pub Balanced : Server → Shared → Worker → Worker → Type 0
Balanced opening s net buf = AllGone net buf
Balanced accepting s net buf = AllGone net buf
Balanced waiting s net buf = Owing 2 s net buf
Balanced closing s net buf = Owing 1 s net buf
Balanced pausing s net buf = Owing 1 s net buf
Balanced ended s net buf = AllGone net buf

pub record IsSound (w : World) : Type 0 where
  pub no_stale : w.stale ≡ []
  pub no_fault : w.shared.fault ≡ false
  pub balanced : Balanced w.server w.shared w.net w.buf

-- A task's step with its semaphore alive.
record Worked (s : Shared) (w : Worker) (out : Shared × Worker) : Type 0 where
  live : out.0.sem_live ≡ true
  safe : out.0.fault ≡ false
  sum : out.0.sem + owes out.1 ≡ s.sem + owes w

worker_step-Worked :
    (a : Answer) (s : Shared) (w : Worker)
    → s.sem_live ≡ true
    → s.fault ≡ false
    → s.sem + owes w ≤ 2
    → Worked s w (worker_step a s w)
unfolding worker_step give
worker_step-Worked a s gone l f h = ground arith
worker_step-Worked a s net_start l f h = ground arith
worker_step-Worked a s net_loop l f h = ground arith
worker_step-Worked a s net_recv l f h = ground arith
worker_step-Worked a s buf_read l f h = ground arith
worker_step-Worked a s (buf_send bytes) l f h = ground arith
worker_step-Worked a s _ l f h = ground arith

-- A task that has ended does nothing.
worker_step-gone : (a : Answer) (s : Shared) (w : Worker) → owes w ≡ 0 → worker_step a s w ≡ (s, w)
unfolding worker_step
worker_step-gone a s gone h = refl
worker_step-gone a s _ h = absurd (omega arith)

module _ (a : Answer) (s : Shared) (net buf : Worker) (safe : s.fault ≡ false) where
  net-AllGone :
      AllGone net buf
      → let (s', net') = worker_step a s net in AllGone net' buf × (s'.fault ≡ false)
  net-AllGone h = rw (worker_step-gone a s net (omega arith)) (h, safe)

  net-Owing :
      (bound : ℕ)
      → bound ≤ 2
      → Owing bound s net buf
      → let (s', net') = worker_step a s net in Owing bound s' net' buf × (s'.fault ≡ false)
  net-Owing bound small h =
      let r = worker_step-Worked a s net h.0 safe (omega arith) in
      ((r.live, omega (arith, r.sum)), r.safe)

  pub net-Balanced :
      (srv : Server)
      → Balanced srv s net buf
      → let (s', net') = worker_step a s net in Balanced srv s' net' buf × (s'.fault ≡ false)
  net-Balanced opening h = net-AllGone h
  net-Balanced accepting h = net-AllGone h
  net-Balanced ended h = net-AllGone h
  net-Balanced waiting h = net-Owing 2 (omega arith) h
  net-Balanced closing h = net-Owing 1 (omega arith) h
  net-Balanced pausing h = net-Owing 1 (omega arith) h

pub Balanced-comm :
    (srv : Server) (s : Shared) (v w : Worker) → Balanced srv s v w → Balanced srv s w v
Balanced-comm opening s v w h = omega arith
Balanced-comm accepting s v w h = omega arith
Balanced-comm ended s v w h = omega arith
Balanced-comm waiting s v w h = (h.0, omega arith)
Balanced-comm closing s v w h = (h.0, omega arith)
Balanced-comm pausing s v w h = (h.0, omega arith)

-- The semaphore is all of the shared state that this is about.
pub Balanced-same :
    (srv : Server) (s s' : Shared) (v w : Worker)
    → s'.sem ≡ s.sem
    → s'.sem_live ≡ s.sem_live
    → Balanced srv s v w
    → Balanced srv s' v w
Balanced-same opening s s' v w e f h = h
Balanced-same accepting s s' v w e f h = h
Balanced-same ended s s' v w e f h = h
Balanced-same waiting s s' v w e f h = (f ∙ h.0, omega arith)
Balanced-same closing s s' v w e f h = (f ∙ h.0, omega arith)
Balanced-same pausing s s' v w e f h = (f ∙ h.0, omega arith)
