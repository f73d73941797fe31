-- ===== src/SimpleHttp/Registered.antt =====
-- Which URIs a server has.
use esp8266_rtos_projects.Prelude.{
  ℕ, ◌≡◌, refl, true, false, Option, none, some, List, [], ◌∷◌, ◌==◌, arith, if◌then◌else◌,
}
use esp8266_rtos_projects.SimpleHttp.Server.{
  Uris, byte, ctrl_timeout, ctrl_failed, ctrl_put_handler, start_webserver, connect_handler,
  disconnect_handler, Event, got_ip, disconnected, put_ctrl, on_event, on_events,
}

-- A server is off, or it shows its pages or hides them.
pub data Shown : Type 0 where
  off shows hides : Shown

abbrev pub command : ℕ → Shown
command buf = if buf == b'0' then hides else shows

abbrev pub shown_after : Event → Shown → Shown
shown_after (got_ip ok) off = if ok then shows else off
shown_after (got_ip ok) page = page
shown_after disconnected page = off
shown_after (put_ctrl r) off = off
shown_after (put_ctrl (byte buf)) page = command buf
shown_after (put_ctrl ctrl_timeout) page = page
shown_after (put_ctrl ctrl_failed) page = page

abbrev pub shown_at : List Event → Shown → Shown
shown_at [] page = page
shown_at (e ∷ es) page = shown_at es (shown_after e page)

abbrev pub uris : Shown → Option Uris
uris off = none
uris shows = some (record { hello = true; echo = true; ctrl = true })
uris hides = some (record { hello = false; echo = false; ctrl = true })

on_event-uris : (e : Event) (page : Shown) → on_event e (uris page) ≡ uris (shown_after e page)
unfolding on_event connect_handler disconnect_handler ctrl_put_handler start_webserver
on_event-uris (got_ip ok) page = ground arith
on_event-uris disconnected page = ground arith
on_event-uris (put_ctrl r) page = ground arith

-- In any order of networks got and lost and of requests to /ctrl, the server is one of three: off, with
-- all its pages, or with /ctrl alone. So /hello and /echo come and go together, by the last command that
-- was read since the server started, and /ctrl, which brings them back, is never lost while it runs.
pub on_events-uris :
    (es : List Event) (page : Shown) → on_events es (uris page) ≡ uris (shown_at es page)
unfolding on_events
on_events-uris [] page = refl
on_events-uris (e ∷ es) page = rw (on_event-uris e page) (on_events-uris es (shown_after e page))
