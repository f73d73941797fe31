-- ===== src/TcpBridge/Session/Protocol/Safe.antt =====
-- The protocol of a session, over every run in which its tasks end within the pause.
use mathlib.Core.Path.{subst}
use esp8266_rtos_projects.Prelude.{
  ℕ, ◌+◌, ◌≡◌, refl, ap, ◌∙◌, false, List, [], ◌∷◌, arith, Bool-cases, inl, inr,
}
use esp8266_rtos_projects.TcpBridge.Session.{
  Worker, gone, Shared, Answer, Server, opening, accepting, waiting, closing, pausing, ended,
  Daemon, starting, capturing, dead, World, survivors, open_session, server_step, daemon_step,
  Actor, the_net, the_buf, the_server, the_daemon, a_stale, stale_step, step, Choice, run, booted,
}
use esp8266_rtos_projects.TcpBridge.Session.Protocol.{
  owes, OnTime, Timely, Balanced, IsSound, net-Balanced, Balanced-comm, Balanced-same,
}

survivors-gone : (w : Worker) (rest : List Worker) → owes w ≡ 0 → survivors w rest ≡ rest
survivors-gone gone rest h = refl
survivors-gone _ rest h = absurd (omega arith)

open_session-IsSound :
    (a : Answer) (w : World)
    → w.stale ≡ []
    → w.shared.fault ≡ false
    → owes w.net + owes w.buf ≡ 0
    → IsSound (open_session a w)
unfolding open_session
open_session-IsSound a w stale safe none_left = record {
  no_stale =
      survivors-gone w.net (survivors w.buf w.stale) (omega arith)
      ∙ survivors-gone w.buf w.stale (omega arith)
      ∙ stale;
  no_fault = safe;
  balanced = ground arith;
}

server_step-IsSound :
    (srv : Server) (a : Answer) (w : World)
    → w.server ≡ srv
    → OnTime the_server w
    → w.stale ≡ []
    → w.shared.fault ≡ false
    → Balanced srv w.shared w.net w.buf
    → IsSound (server_step srv a w)
unfolding server_step open_session
server_step-IsSound opening a w e t st f b = ground arith
server_step-IsSound accepting a w e t st f b = elim (Bool-cases a.ok) [
  | inl accepted ↦ rw (accepted, server_step) (open_session-IsSound a w st f b)
  | inr failed ↦
      rw (failed, server_step) (record { no_stale = st; no_fault = f; balanced = rw e b })
]
server_step-IsSound waiting a w e t st f b = ground arith
server_step-IsSound closing a w e t st f b = record { no_stale = st; no_fault = f; balanced = b }
server_step-IsSound pausing a w e t st f b =
    let (net, buf) = t e in record { no_stale = st; no_fault = f; balanced = rw (net, buf) refl }
server_step-IsSound ended a w e t st f b = record { no_stale = st; no_fault = f; balanced = rw e b }

daemon_step-IsSound :
    (d : Daemon) (a : Answer) (w : World) → IsSound w → IsSound (daemon_step d a w)
unfolding daemon_step
daemon_step-IsSound starting a w h = record {
  no_stale = h.no_stale;
  no_fault = h.no_fault;
  balanced = h.balanced;
}
daemon_step-IsSound dead a w h = h
daemon_step-IsSound capturing a w h = record {
  no_stale = h.no_stale;
  no_fault = h.no_fault;
  balanced = Balanced-same w.server w.shared _ w.net w.buf refl refl h.balanced;
}

pub stale_step-nil :
    (i : ℕ) (a : Answer) (s : Shared) (ws : List Worker) → ws ≡ [] → stale_step i a s ws ≡ (s, [])
unfolding stale_step
stale_step-nil i a s ws e = rw (e, stale_step)

-- Every step keeps the session sound, if the pause was long enough.
pub step-IsSound :
    (actor : Actor) (a : Answer) (w : World) → OnTime actor w → IsSound w → IsSound (step actor a w)
unfolding step daemon_step stale_step
step-IsSound the_net a w t h =
    let (b, f) = net-Balanced a w.shared w.net w.buf h.no_fault w.server h.balanced in
    record { no_stale = h.no_stale; no_fault = f; balanced = b }
step-IsSound the_buf a w t h =
    let (b, f) =
      net-Balanced a w.shared w.buf w.net h.no_fault w.server
        (Balanced-comm w.server w.shared w.net w.buf h.balanced) in
    record { no_stale = h.no_stale; no_fault = f; balanced = Balanced-comm w.server _ _ w.net b }
step-IsSound the_server a w t h =
    server_step-IsSound w.server a w refl t h.no_stale h.no_fault h.balanced
step-IsSound the_daemon a w t h = daemon_step-IsSound w.daemon a w h
step-IsSound (a_stale i) a w t h =
    let e = stale_step-nil i a w.shared w.stale h.no_stale in
    record {
      no_stale = ap (λ p. p.1) e;
      no_fault = ap (λ p. p.0.fault) e ∙ h.no_fault;
      balanced =
          Balanced-same w.server w.shared _ w.net w.buf (ap (λ p. p.0.sem) e)
            (ap (λ p. p.0.sem_live) e) h.balanced;
    }

run-IsSound :
    (choices : List Choice) (w : World) → Timely choices w → IsSound w → IsSound (run choices w)
unfolding run
run-IsSound [] w t h = h
run-IsSound ((actor, a) ∷ rest) w t h =
    run-IsSound rest (step actor a w) t.1 (step-IsSound actor a w t.0 h)

pub booted-IsSound : IsSound booted
booted-IsSound = record { no_stale = refl; no_fault = refl; balanced = refl }

owes-gone : (w : Worker) → owes w ≡ 0 → w ≡ gone
owes-gone gone h = refl
owes-gone _ h = absurd (omega arith)

Balanced-at :
    (w : World) {srv : Server} → IsSound w → w.server ≡ srv → Balanced srv w.shared w.net w.buf
Balanced-at w h e = subst (λ v. Balanced v w.shared w.net w.buf) e h.balanced

-- While the server waits for a client, there is no task of an earlier session.
pub sound_gone : (w : World) → IsSound w → w.server ≡ accepting → (w.net ≡ gone) × (w.buf ≡ gone)
sound_gone w h e =
    let none_left = Balanced-at w h e in
    (owes-gone w.net (omega (arith, none_left)), owes-gone w.buf (omega (arith, none_left)))

-- From the start, in any interleaving and with any answers of the SDK in which both tasks of a
-- session end within the server's pause: no task gives a semaphore that is deleted and no task
-- outlives its session. While the server waits for the semaphore it exists, and its count and the
-- gives that the two tasks still owe are at most 2 together; from the closing of the session to
-- the end of the pause, at most 1; in every other state both tasks are gone.
pub session_protocol :
    (choices : List Choice)
    → Timely choices booted
    → let w = run choices booted in
      (w.shared.fault ≡ false) × (w.stale ≡ []) × Balanced w.server w.shared w.net w.buf
session_protocol choices t =
    let h = run-IsSound choices booted t booted-IsSound in (h.no_fault, h.no_stale, h.balanced)
