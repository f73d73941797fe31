-- ===== src/PersistentSockets/Tests.antt =====
-- The theorems on the server with a number for each connection, at concrete requests.
use esp8266_rtos_projects.Prelude.{
  ℕ, ◌+◌, ◌%◌, ◌≡◌, refl, true, false, List, [], ◌∷◌, codes, map, length, size_mod, arith, ◌==◌,
  eq_self, if◌then◌else◌,
}
use esp8266_rtos_projects.Libc.Text.{atoi}
use esp8266_rtos_projects.Libc.Decimal.{print_int}
use esp8266_rtos_projects.PersistentSockets.{
  timeout, Session, new_session, keeping, number, request_timeout, handled, read_value,
  adder_post_handler, post, handle, Sessions, Site, serve_all,
}
use esp8266_rtos_projects.PersistentSockets.Counter.{Command, add, store, show}
use esp8266_rtos_projects.PersistentSockets.Isolation.{
  KeepsApart, request_on, expected, number_of, serve_all-expected,
}
use esp8266_rtos_projects.PersistentSockets.Server.{
  WebServer, NetEvent, got_ip, on_events, on_event, connect_handler, disconnect_handler,
  start_webserver,
}

-- A store that is a function.
abbrev sessions : Sessions (ℕ → Session)
sessions = record {
  session_of = λ k store. store k;
  keep = λ k s store j. if j == k then s else store j;
}

sessions-KeepsApart : KeepsApart sessions
sessions-KeepsApart = record {
  own = λ k s store. rw (eq_self k) refl;
  others = λ j k s store other. rw other refl;
}

abbrev site : Site (ℕ → Session)
site = record { visitors = 7; sessions = λ k. new_session }

-- Two connections, 3 and 5.
abbrev commands : List (ℕ × Command)
commands = (3, add (codes "12")) ∷ (5, store (codes "-3")) ∷ (3, show) ∷ (5, add (codes "1")) ∷ []

test_expected :
    expected commands (number_of sessions site.sessions)
    ≡ (3, number (codes "12"))
      ∷ (5, number (codes "-3"))
      ∷ (3, number (codes "12"))
      ∷ (5, number (codes "-2"))
      ∷ []
unfolding atoi print_int
test_expected = refl

serve_all-expected_example :
    (end : Site (ℕ → Session)) × ((serve_all sessions (map request_on commands) site
        ≡ handled (expected commands (number_of sessions site.sessions), end))
      × (end.visitors ≡ (7 + length commands) % size_mod))
serve_all-expected_example =
    serve_all-expected sessions sessions-KeepsApart commands site
      (
        (omega arith, omega arith),
        ((omega arith, omega arith), (tt, ((omega arith, omega arith), tt))),
      )
      (omega arith)

-- A body that comes too late: the answer is 408, and the request is counted.
test_timeout : handle (post timeout true) 7 (keeping 4) ≡ handled (request_timeout, (8, keeping 4))
unfolding handle adder_post_handler read_value
test_timeout = refl

abbrev idle : WebServer
idle = record { server = false; calls = [] }

abbrev events : List NetEvent
events = got_ip false ∷ got_ip true ∷ got_ip true ∷ []

running : (on_events events idle).server ≡ true
unfolding on_events on_event connect_handler disconnect_handler start_webserver
running = refl
