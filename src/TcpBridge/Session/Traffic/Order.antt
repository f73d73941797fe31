-- ===== src/TcpBridge/Session/Traffic/Order.antt =====
-- The traffic of a whole run.
use mathlib.Core.Path.{subst}
use esp8266_rtos_projects.Prelude.{◌+◌, ◌≡◌, refl, sym, ap, List, [], ◌∷◌, ◌++◌, length}
use esp8266_rtos_projects.TcpBridge.Session.Protocol.{Timely, IsSound}
use esp8266_rtos_projects.TcpBridge.Session.Protocol.Safe.{
  sound_gone, step-IsSound, booted-IsSound, stale_step-nil,
}
use esp8266_rtos_projects.TcpBridge.Session.{
  Answer, World, Actor, the_net, the_buf, the_server, the_daemon, a_stale, step, Choice, run,
  booted,
}
use esp8266_rtos_projects.TcpBridge.Session.Traffic.{
  pending, Down, Up, Up-same, Down-same, IsFlowing,
}
use esp8266_rtos_projects.TcpBridge.Session.Traffic.Downlink.{
  net_step-Down, net_step-SameUp, buf_step-SameDown,
}
use esp8266_rtos_projects.TcpBridge.Session.Traffic.Uplink.{buf_step-Up, buf_step-is_buf}
use esp8266_rtos_projects.TcpBridge.Session.Traffic.Moves.{
  daemon_step-IsFlowing, server_step-IsFlowing,
}

step-IsFlowing :
    (actor : Actor) (a : Answer) (w : World) → IsSound w → IsFlowing w → IsFlowing (step actor a w)
unfolding step
step-IsFlowing the_net a w v h =
    let (kind, down) = net_step-Down a w.shared w.net h.net_kind h.down in
    record {
      net_kind = kind;
      buf_kind = h.buf_kind;
      down = down;
      up = Up-same w.buf (net_step-SameUp a w.shared w.net h.net_kind) h.up;
    }
step-IsFlowing the_buf a w v h = record {
  net_kind = h.net_kind;
  buf_kind = buf_step-is_buf a w.shared w.buf h.buf_kind;
  down = Down-same w.net (buf_step-SameDown a w.shared w.buf h.buf_kind) h.down;
  up = buf_step-Up a w.shared w.buf h.buf_kind h.up;
}
step-IsFlowing the_server a w v h = server_step-IsFlowing w.server a w refl (sound_gone w v) h
step-IsFlowing the_daemon a w v h = daemon_step-IsFlowing w.daemon a w h
step-IsFlowing (a_stale i) a w v h =
    let e = stale_step-nil i a w.shared w.stale v.no_stale in
    record {
      net_kind = h.net_kind;
      buf_kind = h.buf_kind;
      down = subst (λ s. Down s w.net) (ap (λ p. p.0) (sym e)) h.down;
      up = subst (λ s. Up s w.buf) (ap (λ p. p.0) (sym e)) h.up;
    }

run-IsFlowing :
    (choices : List Choice) (w : World)
    → Timely choices w
    → IsSound w
    → IsFlowing w
    → IsFlowing (run choices w)
unfolding run
run-IsFlowing [] w t v h = h
run-IsFlowing ((actor, a) ∷ rest) w t v h =
    run-IsFlowing rest (step actor a w) t.1 (step-IsSound actor a w t.0 v)
      (step-IsFlowing actor a w v h)

booted-IsFlowing : IsFlowing booted
booted-IsFlowing = record {
  net_kind = refl;
  buf_kind = refl;
  down = refl;
  up = record { count = refl; exact = λ f n. refl };
}

-- From the start, in any interleaving in which both tasks of each session end within the pause:
-- every byte received from a client has been written to the UART, in order, or is in the buffer of
-- the receiving task.
pub downlink_in_order :
    (choices : List Choice)
    → Timely choices booted
    → let w = run choices booted in w.shared.from_client ≡ w.shared.uart_tx ++ pending w.net
downlink_in_order choices t = (run-IsFlowing choices booted t booted-IsSound booted-IsFlowing).down

-- From the start, in any interleaving in which both tasks of each session end within the pause:
-- the number of bytes read from the UART is that of the bytes sent to clients, not taken by
-- `send`, in the buffer of the sending task, in the cache, and overwritten there, together.
pub uplink_conserved :
    (choices : List Choice)
    → Timely choices booted
    → let w = run choices booted in
      let s = w.shared in
      length s.captured
      ≡ length s.to_client + s.unsent + length (pending w.buf) + length s.cache + s.forgotten
uplink_conserved choices t =
    (run-IsFlowing choices booted t booted-IsSound booted-IsFlowing).up.count

-- In any interleaving in which both tasks of each session end within the pause, after which
-- nothing has been overwritten in the cache and `send` has taken all that it was given: the
-- text read from the UART is, in order, what clients were sent across sessions, then what is in
-- the buffer of the sending task, then the cache.
pub uplink_in_order :
    (choices : List Choice)
    → Timely choices booted
    → (run choices booted).shared.forgotten ≡ 0
    → (run choices booted).shared.unsent ≡ 0
    → let w = run choices booted in
      let s = w.shared in s.captured ≡ s.to_client ++ (pending w.buf ++ s.cache)
uplink_in_order choices t f n =
    (run-IsFlowing choices booted t booted-IsSound booted-IsFlowing).up.exact f n
