-- ===== src/TcpBridge/Session/Stale.antt =====
-- What goes wrong when the pause is too short, or no task is created.
use esp8266_rtos_projects.Prelude.{◌≡◌, true, false, ◌⊎◌, List, [], ◌∷◌, arith}
use esp8266_rtos_projects.TcpBridge.Session.{
  Worker, gone, net_stop, buf_stop, Answer, give, worker_step, accepting, waiting, open_session,
  closing, server_step, daemon_step, World, Actor, the_net, the_buf, the_server, the_daemon,
  a_stale, stale_step, step, Choice, run,
}
use esp8266_rtos_projects.TcpBridge.Session.Protocol.Safe.{stale_step-nil}

-- The two actions of a leaving task that is left over, and the server's next one.
abbrev pub takeover : Answer → List Choice
takeover a = (a_stale 0, a) ∷ (a_stale 0, a) ∷ (the_server, a) ∷ []

-- If a client is being served while a task of an earlier session is only now leaving its loop, that
-- task stops the new session: after its last two actions the server closes the new client's
-- connection, though neither of the new tasks has made a step.
pub stale_task_ends_session :
    (a : Answer) (w : World) (old : Worker) (rest : List Worker)
    → w.server ≡ waiting
    → w.shared.sem ≡ 0
    → w.shared.sem_live ≡ true
    → w.stale ≡ old ∷ rest
    → (old ≡ net_stop) ⊎ (old ≡ buf_stop)
    → let w' = run (takeover a) w in
      (w'.server ≡ closing) × (w'.shared.running ≡ false) × (w'.net ≡ w.net) × (w'.buf ≡ w.buf)
unfolding run step stale_step worker_step give server_step
stale_task_ends_session a w old rest srv sem live st leaving = ground arith

-- What keeps the server waiting for ever.
record IsStuck (w : World) : Type 0 where
  server : w.server ≡ waiting
  sem : w.shared.sem ≡ 0
  net : w.net ≡ gone
  buf : w.buf ≡ gone
  stale : w.stale ≡ []

step-IsStuck : (actor : Actor) (a : Answer) (w : World) → IsStuck w → IsStuck (step actor a w)
unfolding step worker_step server_step daemon_step
step-IsStuck the_net a w h = ground arith
step-IsStuck the_buf a w h = ground arith
step-IsStuck the_server a w h = ground arith
step-IsStuck the_daemon a w h = ground arith
step-IsStuck (a_stale i) a w h = ground (arith, stale_step-nil i a w.shared w.stale h.stale)

run-IsStuck : (choices : List Choice) (w : World) → IsStuck w → IsStuck (run choices w)
unfolding run
run-IsStuck [] w h = h
run-IsStuck ((actor, a) ∷ rest) w h = run-IsStuck rest (step actor a w) (step-IsStuck actor a w h)

-- The results of `xTaskCreate` are not looked at: if a client is accepted and neither task can be
-- created, with no task left over, the server waits for the semaphore for ever.
pub no_task_no_end :
    (a : Answer) (w : World) (choices : List Choice)
    → w.server ≡ accepting
    → w.net ≡ gone
    → w.buf ≡ gone
    → w.stale ≡ []
    → a.ok ≡ true
    → a.net_created ≡ false
    → a.buf_created ≡ false
    → (run ((the_server, a) ∷ choices) w).server ≡ waiting
unfolding run
no_task_no_end a w choices srv net buf st ok no_net no_buf =
    (run-IsStuck choices (step the_server a w) opened).server
  where
    opened : IsStuck (step the_server a w)
    opened = unfold step server_step open_session in ground arith
