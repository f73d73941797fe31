-- ===== src/PersistentSockets/Server.antt =====
-- `start_webserver`, `connect_handler`, `disconnect_handler` and `app_main`: when the server runs.
use esp8266_rtos_projects.Prelude.{
  ℕ, ◌+◌, ◌≡◌, refl, Bool, true, false, List, [], ◌∷◌, ◌++◌, if◌then◌else◌, arith,
}

-- The calls of `esp_http_server` that are made, with whether `httpd_start` succeeded.
pub data ServerCall : Type 0 where
  httpd_start : Bool → ServerCall
  register_get register_put register_post : ServerCall
  httpd_stop : ServerCall

-- Whether the variable `server` is set, and what has been called.
pub record WebServer : Type 0 where
  pub server : Bool
  pub calls : List ServerCall

-- The argument is whether `httpd_start` succeeds.
unfoldable pub start_webserver : Bool → List ServerCall × Bool
start_webserver ok =
    if ok
    then (httpd_start true ∷ register_get ∷ register_put ∷ register_post ∷ [], true)
    else (httpd_start false ∷ [], false)

unfoldable pub connect_handler : Bool → WebServer → WebServer
connect_handler ok w =
    if w.server
    then w
    else record { server = (start_webserver ok).1; calls = w.calls ++ (start_webserver ok).0 }

unfoldable pub disconnect_handler : WebServer → WebServer
disconnect_handler w =
    if w.server then record { server = false; calls = w.calls ++ httpd_stop ∷ [] } else w

-- The end of `app_main`: `server = start_webserver()`, whatever the handlers, which are registered
-- by then, have done.
unfoldable pub app_main_start : Bool → WebServer → WebServer
app_main_start ok w = record {
  server = (start_webserver ok).1;
  calls = w.calls ++ (start_webserver ok).0;
}

-- An address is got, or the station is disconnected.
pub data NetEvent : Type 0 where
  got_ip : Bool → NetEvent
  disconnected : NetEvent

unfoldable pub on_event : NetEvent → WebServer → WebServer
on_event (got_ip ok) w = connect_handler ok w
on_event disconnected w = disconnect_handler w

unfoldable pub on_events : List NetEvent → WebServer → WebServer
on_events [] w = w
on_events (e ∷ es) w = on_events es (on_event e w)

-- The servers that are running after these calls.
abbrev pub started : List ServerCall → ℕ
started [] = 0
started (httpd_start true ∷ cs) = 1 + started cs
started (_ ∷ cs) = started cs

abbrev pub stopped : List ServerCall → ℕ
stopped [] = 0
stopped (httpd_stop ∷ cs) = 1 + stopped cs
stopped (_ ∷ cs) = stopped cs

started-append : (cs ds : List ServerCall) → started (cs ++ ds) ≡ started cs + started ds
started-append [] ds = omega arith
started-append (httpd_start true ∷ cs) ds = omega (arith, started-append cs ds)
started-append (_ ∷ cs) ds = started-append cs ds

stopped-append : (cs ds : List ServerCall) → stopped (cs ++ ds) ≡ stopped cs + stopped ds
stopped-append [] ds = omega arith
stopped-append (httpd_stop ∷ cs) ds = omega (arith, stopped-append cs ds)
stopped-append (_ ∷ cs) ds = stopped-append cs ds

-- One more start than stops while `server` is set, and as many otherwise.
abbrev pub IsMatched : WebServer → Type 0
IsMatched w = started w.calls ≡ stopped w.calls + (if w.server then 1 else 0)

on_event-IsMatched : (e : NetEvent) (w : WebServer) → IsMatched w → IsMatched (on_event e w)
unfolding on_event connect_handler disconnect_handler start_webserver
on_event-IsMatched (got_ip true) w h = ground (
  arith,
  started-append w.calls (start_webserver true).0,
  stopped-append w.calls (start_webserver true).0,
)
on_event-IsMatched (got_ip false) w h = ground (
  arith,
  started-append w.calls (start_webserver false).0,
  stopped-append w.calls (start_webserver false).0,
)
on_event-IsMatched disconnected w h =
    ground
      (arith, started-append w.calls (httpd_stop ∷ []), stopped-append w.calls (httpd_stop ∷ []))

-- From a state in which at most the server that `server` holds is running, in any order of events
-- and with any of the starts failing: there is one start that succeeded more than there are stops
-- while `server` is set, and as many while it is not. So no server is started beside another, and
-- none is stopped twice.
pub on_events-IsMatched :
    (es : List NetEvent) (w : WebServer) → IsMatched w → IsMatched (on_events es w)
unfolding on_events
on_events-IsMatched [] w h = h
on_events-IsMatched (e ∷ es) w h = on_events-IsMatched es (on_event e w) (on_event-IsMatched e w h)

-- But `app_main` starts a server after it has registered the handlers: if an address was got in
-- between, and the server of that handler runs, then two run, and the handle of the first is lost.
pub app_main_start-twice :
    (es : List NetEvent) (w : WebServer)
    → IsMatched w
    → (on_events es w).server ≡ true
    → let w' = app_main_start true (on_events es w) in
      (w'.server ≡ true) × (started w'.calls ≡ stopped w'.calls + 2)
unfolding app_main_start start_webserver
app_main_start-twice es w h set =
    let before = on_events-IsMatched es w h in
    let calls = (on_events es w).calls in
    (
      refl,
      ground (
        arith,
        before,
        started-append calls (start_webserver true).0,
        stopped-append calls (start_webserver true).0,
      ),
    )
