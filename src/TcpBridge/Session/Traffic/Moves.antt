-- ===== src/TcpBridge/Session/Traffic/Moves.antt =====
-- No step of the server or of the daemon loses track of a byte.
use mathlib.Core.Path.{subst}
use esp8266_rtos_projects.Prelude.{
  ℕ, zero, suc, ◌≡◌, refl, ap, ◌∙◌, true, false, [], ◌++◌, if◌then◌else◌, Bool-cases, inl, inr,
  arith,
}
use esp8266_rtos_projects.TcpBridge.Session.{
  gone, net_start, buf_start, Shared, Answer, Server, opening, accepting, waiting, closing, pausing,
  ended, Daemon, starting, capturing, dead, World, open_session, server_step, daemon_step,
}
use esp8266_rtos_projects.TcpBridge.Session.Traffic.{
  pending, Down, Up, SameUp, SameDown, Up-same, Down-same, IsFlowing,
}
use esp8266_rtos_projects.TcpBridge.Session.Traffic.Downlink.{capture-SameDown}
use esp8266_rtos_projects.TcpBridge.Session.Traffic.Uplink.{capture-Up, same-Up}

pub daemon_step-IsFlowing :
    (d : Daemon) (a : Answer) (w : World) → IsFlowing w → IsFlowing (daemon_step d a w)
daemon_step-IsFlowing starting a w h =
    unfold daemon_step in
    record {
      net_kind = h.net_kind;
      buf_kind = h.buf_kind;
      down = h.down;
      up =
          Up-same w.buf
            (record {
              cache = refl;
              captured = refl;
              forgotten = refl;
              to_client = refl;
              unsent = refl;
            })
            h.up;
    }
daemon_step-IsFlowing dead a w h = unfold daemon_step in h
daemon_step-IsFlowing capturing a w h =
    unfold daemon_step in
    record {
      net_kind = h.net_kind;
      buf_kind = h.buf_kind;
      down = Down-same w.net (capture-SameDown a w) h.down;
      up = capture-Up a w h.up;
    }

-- The server touches no bytes.
module _ (w : World) (h : IsFlowing w) where
  kept_by_server :
      (s : Shared) (srv : Server)
      → SameUp w.shared s
      → SameDown w.shared s
      → IsFlowing (record w { shared = s; server = srv })
  kept_by_server s srv e d = record {
    net_kind = h.net_kind;
    buf_kind = h.buf_kind;
    down = Down-same w.net d h.down;
    up = Up-same w.buf e h.up;
  }

  open_session-IsFlowing : (a : Answer) → w.net ≡ gone → w.buf ≡ gone → IsFlowing (open_session a w)
  unfolding open_session
  open_session-IsFlowing a net buf = record {
    net_kind = ground arith;
    buf_kind = ground arith;
    down =
        let d : Down w.shared gone = subst (λ v. Down w.shared v) net h.down in
        d ∙ ap (λ b. w.shared.uart_tx ++ b) none_pending_net;
    up =
        same-Up (record (w.shared) { running = true; sem = 0; sem_live = true }) gone _
          none_pending_buf
          (Up-same gone
            (record {
              cache = refl;
              captured = refl;
              forgotten = refl;
              to_client = refl;
              unsent = refl;
            })
            (subst (λ v. Up w.shared v) buf h.up));
  }
    where
      none_pending_net : [] ≡ pending (if a.net_created then net_start else gone)
      none_pending_net = ground arith

      none_pending_buf : [] ≡ pending (if a.buf_created then buf_start else gone)
      none_pending_buf = ground arith

-- The server takes the semaphore, or blocks on it.
pub take-IsFlowing :
    (n : ℕ) (a : Answer) (w : World)
    → w.shared.sem ≡ n
    → IsFlowing w
    → IsFlowing (server_step waiting a w)
unfolding server_step
take-IsFlowing zero a w e h = rw (e, server_step) h
take-IsFlowing (suc n) a w e h =
    rw (e, server_step)
      (kept_by_server w h (record (w.shared) { sem = n }) closing (ground arith) (ground arith))

pub server_step-IsFlowing :
    (srv : Server) (a : Answer) (w : World)
    → w.server ≡ srv
    → (srv ≡ accepting → (w.net ≡ gone) × (w.buf ≡ gone))
    → IsFlowing w
    → IsFlowing (server_step srv a w)
unfolding server_step
server_step-IsFlowing opening a w e g h = elim (Bool-cases a.ok) [
  | inl ok ↦
      rw (ok, server_step) (kept_by_server w h w.shared accepting (ground arith) (ground arith))
  | inr failed ↦
      rw (failed, server_step) (kept_by_server w h w.shared ended (ground arith) (ground arith))
]
server_step-IsFlowing accepting a w e g h = elim (Bool-cases a.ok) [
  | inl ok ↦
      let (net, buf) = g refl in
      rw (ok, server_step) (open_session-IsFlowing w h (record a { ok = true }) net buf)
  | inr failed ↦ rw (failed, server_step) h
]
server_step-IsFlowing waiting a w e g h = take-IsFlowing w.shared.sem a w refl h
server_step-IsFlowing closing a w e g h =
    kept_by_server w h (record (w.shared) { running = false }) pausing (ground arith) (ground arith)
server_step-IsFlowing pausing a w e g h =
    kept_by_server w h (record (w.shared) { sem_live = false }) accepting (ground arith)
      (ground arith)
server_step-IsFlowing ended a w e g h = h
