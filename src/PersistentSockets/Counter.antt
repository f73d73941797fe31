-- ===== src/PersistentSockets/Counter.antt =====
-- What a connection sees: a number that starts at 0.
use esp8266_rtos_projects.Prelude.{
  ℕ, ◌+◌, ◌%◌, ◌≤◌, ◌<◌, ◌≡◌, ◌↔◌, refl, Bool, true, Option, none, some, [], ◌∷◌, Bytes, length,
  take_all, length-take, c_string, size_mod, arith, ne→==,
}
use esp8266_rtos_projects.Libc.Text.{atoi, int_of}
use esp8266_rtos_projects.Libc.Decimal.{print_int}
use esp8266_rtos_projects.PersistentSockets.{
  Recv, chunk, Session, keeping, Reply, number, handled, past_buf, value, overrun, read_value,
  adder_post_handler, adder_get_handler, adder_put_handler, Request, post, get, put, handle,
  one_more,
}

-- The operations that the requests stand for.
pub data Command : Type 0 where
  add store : Bytes → Command
  show : Command

abbrev pub apply_command : Command → ℕ → ℕ
apply_command (add text) n = (n + atoi (c_string text)) % size_mod
apply_command (store text) n = atoi (c_string text)
apply_command show n = n

abbrev pub request : Command → Request
request (add text) = post (chunk text) true
request (store text) = put (chunk text) true
request show = get true

-- A body that leaves room for the terminator.
abbrev pub IsShort : Command → Type 0
IsShort (add text) = (1 ≤ length text) × (length text < 10)
IsShort (store text) = (1 ≤ length text) × (length text < 10)
IsShort show = Unit {0}

abbrev pub current : Session → ℕ
current s = elim s.sess_ctx [ none ↦ 0 | some n ↦ n ]

read_value-short :
    (text : Bytes)
    → 1 ≤ length text
    → length text < 10
    → read_value (chunk text) ≡ value (atoi (c_string text))
unfolding read_value
read_value-short [] some_bytes short = ground arith
read_value-short (c ∷ s) some_bytes short =
    rw (take_all 9 s (omega arith), ne→== (length (c ∷ s)) 10 (omega arith)) refl

-- The session when the number is `n`.
abbrev pub stored : ℕ → Session → Session
stored n s = elim s.sess_ctx [ none ↦ keeping n | some old ↦ record s { sess_ctx = some n } ]

pub current-stored :
    (n : ℕ) (ctx : Option ℕ) (freed : Bool)
    → current (stored n (record { sess_ctx = ctx; free_ctx = freed })) ≡ n
current-stored n none freed = refl
current-stored n (some old) freed = refl

abbrev pub shown : ℕ → Reply
shown n = number (print_int (int_of n))

pub handle-request :
    (c : Command) (visitors : ℕ) (ctx : Option ℕ) (freed : Bool)
    → IsShort c
    → let s : Session = record { sess_ctx = ctx; free_ctx = freed } in
      let n = apply_command c (current s) in
      handle (request c) visitors s ≡ handled (shown n, (one_more visitors, stored n s))
unfolding handle adder_post_handler adder_get_handler adder_put_handler
handle-request (add text) v none freed h =
    rw (handle, adder_post_handler, read_value-short text h.0 h.1) refl
handle-request (add text) v (some n) freed h =
    rw (handle, adder_post_handler, read_value-short text h.0 h.1) refl
handle-request (store text) v none freed h =
    rw (handle, adder_put_handler, read_value-short text h.0 h.1) refl
handle-request (store text) v (some n) freed h =
    rw (handle, adder_put_handler, read_value-short text h.0 h.1) refl
handle-request show v none freed h = refl
handle-request show v (some n) freed h = refl

read_value-overrun : (text : Bytes) → (read_value (chunk text) ≡ overrun) ↔ (10 ≤ length text)
unfolding read_value
read_value-overrun [] = ground arith
read_value-overrun (c ∷ s) = ground (arith, length-take 9 s)

post-overrun :
    (body : Recv) (memory : Bool) (visitors : ℕ) (s : Session)
    → (adder_post_handler body memory visitors s ≡ past_buf) ↔ (read_value body ≡ overrun)
unfolding adder_post_handler
post-overrun body memory visitors s = ground arith

put-overrun :
    (body : Recv) (memory : Bool) (visitors : ℕ) (s : Session)
    → (adder_put_handler body memory visitors s ≡ past_buf) ↔ (read_value body ≡ overrun)
unfolding adder_put_handler
put-overrun body memory visitors s = ground arith

-- `post` and `put` write their terminator past the end of the buffer exactly if the body has ten
-- bytes or more.
pub handlers-overrun :
    (text : Bytes) (memory : Bool) (visitors : ℕ) (s : Session)
    → ((adder_post_handler (chunk text) memory visitors s ≡ past_buf) ↔ (10 ≤ length text))
      × ((adder_put_handler (chunk text) memory visitors s ≡ past_buf) ↔ (10 ≤ length text))
handlers-overrun text memory visitors s =
    let (there, back) = read_value-overrun text in
    let (post_to, post_from) = post-overrun (chunk text) memory visitors s in
    let (put_to, put_from) = put-overrun (chunk text) memory visitors s in
    (
      ((λ e. there (post_to e)), (λ h. post_from (back h))),
      ((λ e. there (put_to e)), (λ h. put_from (back h))),
    )
