-- ===== src/SimpleHttp/Server.antt =====
-- `ctrl_put_handler`, and when the server runs.
use esp8266_rtos_projects.Prelude.{
  ℕ, Bool, true, false, Option, none, some, List, [], ◌∷◌, ◌==◌, if◌then◌else◌,
}

-- The URIs that are registered with a server that runs.
pub record Uris : Type 0 where
  pub hello : Bool
  pub echo : Bool
  pub ctrl : Bool

-- What `ctrl_put_handler` receives: a byte, a timeout, or a failure.
pub data CtrlRecv : Type 0 where
  byte : ℕ → CtrlRecv
  ctrl_timeout ctrl_failed : CtrlRecv

pub data Reply : Type 0 where
  empty request_timeout closes not_found : Reply

unfoldable pub ctrl_put_handler : CtrlRecv → Uris → Reply × Uris
ctrl_put_handler ctrl_timeout u = (request_timeout, u)
ctrl_put_handler ctrl_failed u = (closes, u)
ctrl_put_handler (byte buf) u =
    if buf == b'0'
    then (empty, record u { hello = false; echo = false })
    else (empty, record u { hello = true; echo = true })

-- The argument is whether `httpd_start` succeeds.
unfoldable pub start_webserver : Bool → Option Uris
start_webserver ok = if ok then some (record { hello = true; echo = true; ctrl = true }) else none

unfoldable pub connect_handler : Bool → Option Uris → Option Uris
connect_handler ok none = start_webserver ok
connect_handler ok (some u) = some u

unfoldable pub disconnect_handler : Option Uris → Option Uris
disconnect_handler server = none

-- An address is got, the station is disconnected, or a request comes for /ctrl, which is served where
-- a server runs that has its handler.
pub data Event : Type 0 where
  got_ip : Bool → Event
  disconnected : Event
  put_ctrl : CtrlRecv → Event

unfoldable pub on_event : Event → Option Uris → Option Uris
on_event (got_ip ok) server = connect_handler ok server
on_event disconnected server = disconnect_handler server
on_event (put_ctrl r) server = elim server [
  | none ↦ none
  | some u ↦ if u.ctrl then some (ctrl_put_handler r u).1 else some u
]

unfoldable pub on_events : List Event → Option Uris → Option Uris
on_events [] server = server
on_events (e ∷ es) server = on_events es (on_event e server)
