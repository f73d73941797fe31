-- ===== src/PersistentSockets.antt =====
-- examples/protocols/http_server/persistent_sockets/main/main.c: a web server that keeps a number
-- for each connection.
pub mod Counter
pub mod Isolation
pub mod Server
mod Tests
use esp8266_rtos_projects.Prelude.{
  ℕ, zero, suc, ◌+◌, ◌%◌, Bool, true, false, Option, none, some, List, [], ◌∷◌, ◌++◌, Bytes, leb,
  ◌==◌, if◌then◌else◌, length, take, c_string, size_mod,
}
use esp8266_rtos_projects.Libc.Text.{atoi, int_of}
use esp8266_rtos_projects.Libc.Decimal.{print_int}

-- What `httpd_req_recv` finds: some bytes of the body, a timeout, or another failure.
pub data Recv : Type 0 where
  chunk : Bytes → Recv
  timeout : Recv
  failed : Recv

-- `req->sess_ctx`, the number as its 32 bits, and whether `req->free_ctx` is set.
pub record Session : Type 0 where
  pub sess_ctx : Option ℕ
  pub free_ctx : Bool

abbrev pub new_session : Session
new_session = record { sess_ctx = none; free_ctx = false }

-- What a handler answers; `closes` is a return of `ESP_FAIL` with no answer.
pub data Reply : Type 0 where
  number : Bytes → Reply
  request_timeout : Reply
  closes : Reply

-- A handler returns, or it writes past the end of `buf`, or through the null pointer.
pub data Handled (A : Type 0) : Type 0 where
  handled : A → Handled A
  past_buf : Handled A
  null_write : Handled A

-- Lines 45 to 54: the number that is read, or the answer if none is. `buf` has ten bytes, and a
-- receive of ten of them puts the terminator behind its end.
pub data Read : Type 0 where
  value : ℕ → Read
  refused : Reply → Read
  overrun : Read

unfoldable pub read_value : Recv → Read
read_value timeout = refused request_timeout
read_value failed = refused closes
read_value (chunk bytes) = elim (take 10 bytes) [
  | [] ↦ refused closes
  | c ∷ s ↦ if length (c ∷ s) == 10 then overrun else value (atoi (c_string (c ∷ s)))
]

-- `++(*visitors)`
abbrev pub one_more : ℕ → ℕ
one_more visitors = (visitors + 1) % size_mod

-- `snprintf` of "%d" and the answer, with the count and the session that the handler leaves.
abbrev pub respond : ℕ → ℕ → Session → Handled (Reply × (ℕ × Session))
respond n visitors s = handled (number (print_int (int_of n)), (visitors, s))

abbrev pub keeping : ℕ → Session
keeping n = record { sess_ctx = some n; free_ctx = true }

-- The Boolean is whether `malloc` gives memory; its result is not looked at. The number is the one
-- that `req->user_ctx` points to.
unfoldable pub adder_post_handler : Recv → Bool → ℕ → Session → Handled (Reply × (ℕ × Session))
adder_post_handler body memory visitors s = elim (read_value body) [
  | refused reply ↦ handled (reply, (one_more visitors, s))
  | overrun ↦ past_buf
  | value val ↦ elim s.sess_ctx [
    | none ↦
        if memory
        then respond ((0 + val) % size_mod) (one_more visitors) (keeping ((0 + val) % size_mod))
        else null_write
    | some adder ↦
        respond ((adder + val) % size_mod) (one_more visitors)
          (record s { sess_ctx = some ((adder + val) % size_mod) })
  ]
]

unfoldable pub adder_get_handler : Bool → ℕ → Session → Handled (Reply × (ℕ × Session))
adder_get_handler memory visitors s = elim s.sess_ctx [
  | none ↦ if memory then respond 0 (one_more visitors) (keeping 0) else null_write
  | some adder ↦ respond adder (one_more visitors) s
]

unfoldable pub adder_put_handler : Recv → Bool → ℕ → Session → Handled (Reply × (ℕ × Session))
adder_put_handler body memory visitors s = elim (read_value body) [
  | refused reply ↦ handled (reply, (one_more visitors, s))
  | overrun ↦ past_buf
  | value val ↦ elim s.sess_ctx [
    | none ↦ if memory then respond val (one_more visitors) (keeping val) else null_write
    | some adder ↦ respond val (one_more visitors) (record s { sess_ctx = some val })
  ]
]

-- A request to `/adder`.
pub data Request : Type 0 where
  post : Recv → Bool → Request
  get : Bool → Request
  put : Recv → Bool → Request

-- The table of the handlers.
unfoldable pub handle : Request → ℕ → Session → Handled (Reply × (ℕ × Session))
handle (post body memory) visitors s = adder_post_handler body memory visitors s
handle (get memory) visitors s = adder_get_handler memory visitors s
handle (put body memory) visitors s = adder_put_handler body memory visitors s

-- What esp_http_server does for the handlers: it has some store of sessions, gives the one of a
-- connection to a handler, and keeps what the handler leaves.
pub record Sessions (Store : Type 0) : Type 0 where
  pub session_of : ℕ → Store → Session
  pub keep : ℕ → Session → Store → Store

-- The count that all handlers share, and the sessions.
pub record Site (Store : Type 0) : Type 0 where
  pub visitors : ℕ
  pub sessions : Store

module _ {Store : Type 0} (server : Sessions Store) where
  -- A request on connection `k`.
  unfoldable pub serve : ℕ → Request → Site Store → Handled (Reply × Site Store)
  serve k r site = elim (handle r site.visitors (server.session_of k site.sessions)) [
    | handled (reply, (count, s)) ↦
        handled (reply, record { visitors = count; sessions = server.keep k s site.sessions })
    | past_buf ↦ past_buf
    | null_write ↦ null_write
  ]

  -- Requests as they come, with the connection of each, and the answers.
  unfoldable pub serve_all :
      List (ℕ × Request) → Site Store → Handled (List (ℕ × Reply) × Site Store)
  serve_all [] site = handled ([], site)
  serve_all ((k, r) ∷ rest) site = elim (serve k r site) [
    | handled (reply, site') ↦ elim (serve_all rest site') [
      | handled (replies, end) ↦ handled ((k, reply) ∷ replies, end)
      | past_buf ↦ past_buf
      | null_write ↦ null_write
    ]
    | past_buf ↦ past_buf
    | null_write ↦ null_write
  ]
