-- ===== src/TcpBridge/Session/Traffic.antt =====
-- What becomes of the bytes, in both directions.
pub mod Downlink
pub mod Uplink
pub mod Moves
pub mod Order
use mathlib.Core.Path.{subst}
use esp8266_rtos_projects.Prelude.{
  ℕ, zero, suc, ◌+◌, ◌-◌, ◌≤◌, ◌<◌, ◌≡◌, ◌≢◌, refl, sym, ap, ap₂, ◌∙◌, Bool, true, false, Option,
  none, some, List, [], ◌∷◌, ◌++◌, append_assoc, append-nil, Bytes, if◌then◌else◌, length,
  length-append, length-take, length-drop, take, drop, take_all, Option-cases, Bool-cases, inl, inr,
  take-append-drop, min, arith,
}
use esp8266_rtos_projects.TcpBridge.LossyQueue
use esp8266_rtos_projects.TcpBridge.LossyQueue.{keep_last, keep_last_all}
use esp8266_rtos_projects.TcpBridge.Ring.{uart_cache_size}
use esp8266_rtos_projects.TcpBridge.Session.Protocol.{Timely, IsSound}
use esp8266_rtos_projects.TcpBridge.Session.Protocol.Safe.{
  sound_gone, step-IsSound, booted-IsSound, stale_step-nil,
}
use esp8266_rtos_projects.TcpBridge.Session.{
  buf_size, Worker, gone, net_start, net_loop, net_recv, net_write, net_stop, net_give, buf_start,
  buf_loop, buf_read, buf_send, buf_stop, buf_give, Shared, Answer, give, worker_step, Server,
  opening, accepting, waiting, closing, pausing, ended, Daemon, starting, capturing, dead, World,
  survivors, open_session, server_step, daemon_step, Actor, the_net, the_buf, the_server,
  the_daemon, a_stale, stale_step, step, Choice, run, booted,
}

abbrev pub is_net : Worker → Bool
is_net gone = true
is_net net_start = true
is_net net_loop = true
is_net net_recv = true
is_net (net_write bytes) = true
is_net net_stop = true
is_net net_give = true
is_net _ = false

abbrev pub is_buf : Worker → Bool
is_buf gone = true
is_buf buf_start = true
is_buf buf_loop = true
is_buf buf_read = true
is_buf (buf_send bytes) = true
is_buf buf_stop = true
is_buf buf_give = true
is_buf _ = false

-- The bytes in the buffer of a task, taken from one side and not yet passed to the other.
abbrev pub pending : Worker → Bytes
pending (net_write bytes) = bytes
pending (buf_send bytes) = bytes
pending _ = []

abbrev pub Down : Shared → Worker → Type 0
Down s w = s.from_client ≡ s.uart_tx ++ pending w

pub record Up (s : Shared) (w : Worker) : Type 0 where
  pub count :
      length s.captured
      ≡ length s.to_client + s.unsent + length (pending w) + length s.cache + s.forgotten
  pub exact : s.forgotten ≡ 0 → s.unsent ≡ 0 → s.captured ≡ s.to_client ++ (pending w ++ s.cache)

-- The part of the shared state that one direction is about.
pub record SameUp (s s' : Shared) : Type 0 where
  pub cache : s'.cache ≡ s.cache
  pub captured : s'.captured ≡ s.captured
  pub forgotten : s'.forgotten ≡ s.forgotten
  pub to_client : s'.to_client ≡ s.to_client
  pub unsent : s'.unsent ≡ s.unsent

pub record SameDown (s s' : Shared) : Type 0 where
  pub from_client : s'.from_client ≡ s.from_client
  pub uart_tx : s'.uart_tx ≡ s.uart_tx

pub Up-same : {s s' : Shared} (w : Worker) → SameUp s s' → Up s w → Up s' w
Up-same w e u = record { count = ground arith; exact = λ f n. ground (arith, u.exact) }

pub Down-same : {s s' : Shared} (w : Worker) → SameDown s s' → Down s w → Down s' w
Down-same w e d = ground arith

-- All that holds of the traffic.
pub record IsFlowing (w : World) : Type 0 where
  pub net_kind : is_net w.net ≡ true
  pub buf_kind : is_buf w.buf ≡ true
  pub down : Down w.shared w.net
  pub up : Up w.shared w.buf
