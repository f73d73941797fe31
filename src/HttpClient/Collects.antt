-- ===== src/HttpClient/Collects.antt =====
-- What is in the buffers after a response.
use esp8266_rtos_projects.Prelude.{
  ℕ, ◌+◌, ◌≤◌, ◌≡◌, refl, sym, ap, ap₂, ◌∙◌, Bool, false, Option, none, some, Bytes, ◌++◌, joined,
  drop, length, List, [], ◌∷◌, arith, length-append, length-drop, append_assoc, take_append,
  drop_append, drop-drop, append-nil,
}
use esp8266_rtos_projects.HttpClient.{
  on_data, on_finish, Collector, copy_at, copy_user, copy_output, free_output, http_event_handler,
  receive_pieces,
}

drop-append_length : (d l : Bytes) (k : ℕ) → drop (length d + k) (d ++ l) ≡ drop k l
drop-append_length d l k = sym (drop-drop k (length d) (d ++ l)) ∙ ap (drop k) (drop_append d l)

-- A copy behind what is there.
copy_at-append :
    (d p l : Bytes)
    → length p ≤ length l
    → copy_at (length d) p (d ++ l) ≡ some (d ++ p ++ drop (length p) l)
unfolding copy_at
copy_at-append d p l h =
    ground
      (arith, length-append d l, take_append d l (length d) refl, drop-append_length d l (length p))

-- A collector that copies to user_data.
abbrev to_user : Option Bytes → Bool → (d l : Bytes) → Collector
to_user output over d l = record {
  output_buffer = output;
  output_len = length d;
  user_data = some (d ++ l);
  overrun = over;
}

user_data-piece :
    (memory output : Option Bytes) (over : Bool) (d p l : Bytes)
    → length p ≤ length l
    → (http_event_handler memory (on_data false p) (to_user output over d l)).1
      ≡ to_user output over (d ++ p) (drop (length p) l)
unfolding http_event_handler copy_user
user_data-piece memory output over d p l h =
    ground (arith, copy_at-append d p l h, append_assoc d p (drop (length p) l), length-append d p)

user_data-pieces :
    (memory output : Option Bytes) (over : Bool) (ps : List Bytes) (d l : Bytes)
    → length (joined ps) ≤ length l
    → receive_pieces memory ps (to_user output over d l)
      ≡ to_user output over (d ++ joined ps) (drop (length (joined ps)) l)
unfolding receive_pieces
user_data-pieces memory output over [] d l h =
    ap (λ x. to_user output over x l) (sym (append-nil d))
user_data-pieces memory output over (p ∷ ps) d l h =
    ap (receive_pieces memory ps)
      (user_data-piece memory output over d p l (omega (arith, length-append p (joined ps))))
    ∙ user_data-pieces memory output over ps (d ++ p) (drop (length p) l)
        (omega (arith, length-append p (joined ps), length-drop (length p) l))
    ∙ ap₂ (to_user output over) (append_assoc d p (joined ps)) (
        drop-drop (length (joined ps)) (length p) l
        ∙ ap (λ n. drop n l) (sym (length-append p (joined ps))))

-- A collector without user_data that has its buffer.
abbrev to_output : Bool → (d l : Bytes) → Collector
to_output over d l = record {
  output_buffer = some (d ++ l);
  output_len = length d;
  user_data = none;
  overrun = over;
}

output-piece :
    (memory : Option Bytes) (over : Bool) (d p l : Bytes)
    → length p ≤ length l
    → (http_event_handler memory (on_data false p) (to_output over d l)).1
      ≡ to_output over (d ++ p) (drop (length p) l)
unfolding http_event_handler copy_output
output-piece memory over d p l h =
    ground (arith, copy_at-append d p l h, append_assoc d p (drop (length p) l), length-append d p)

output-pieces :
    (memory : Option Bytes) (over : Bool) (ps : List Bytes) (d l : Bytes)
    → length (joined ps) ≤ length l
    → receive_pieces memory ps (to_output over d l)
      ≡ to_output over (d ++ joined ps) (drop (length (joined ps)) l)
unfolding receive_pieces
output-pieces memory over [] d l h = ap (λ x. to_output over x l) (sym (append-nil d))
output-pieces memory over (p ∷ ps) d l h =
    ap (receive_pieces memory ps)
      (output-piece memory over d p l (omega (arith, length-append p (joined ps))))
    ∙ output-pieces memory over ps (d ++ p) (drop (length p) l)
        (omega (arith, length-append p (joined ps), length-drop (length p) l))
    ∙ ap₂ (to_output over) (append_assoc d p (joined ps)) (
        drop-drop (length (joined ps)) (length p) l
        ∙ ap (λ n. drop n l) (sym (length-append p (joined ps))))

-- The collector before a response without user_data.
abbrev pub no_buffer : ℕ → Collector
no_buffer n = record { output_buffer = none; output_len = n; user_data = none; overrun = false }

-- Without user_data, with the memory that malloc gives, a response in pieces that is not longer than
-- this memory stands at its start, whatever output_len was; no copy leaves the memory, and
-- output_len is the length of the response.
pub receive_pieces-output :
    (fresh p : Bytes) (ps : List Bytes) (n : ℕ)
    → length (joined (p ∷ ps)) ≤ length fresh
    → receive_pieces (some fresh) (p ∷ ps) (no_buffer n) ≡ record {
      output_buffer = some (joined (p ∷ ps) ++ drop (length (joined (p ∷ ps))) fresh);
      output_len = length (joined (p ∷ ps));
      user_data = none;
      overrun = false;
    }
unfolding receive_pieces http_event_handler copy_output
receive_pieces-output fresh p ps n h = output-pieces (some fresh) false (p ∷ ps) [] fresh h

-- The collector before any response that is copied to user_data.
abbrev pub only_user : Bytes → Collector
only_user b = record { output_buffer = none; output_len = 0; user_data = some b; overrun = false }

-- With user_data, the end of a response does not start the buffer again: a second response, if both
-- fit, stands behind the first one.
pub receive_pieces-user :
    (memory : Option Bytes) (ps qs : List Bytes) (b : Bytes)
    → length (joined ps) + length (joined qs) ≤ length b
    → receive_pieces memory qs
        (http_event_handler memory on_finish (receive_pieces memory ps (only_user b))).1
      ≡ record {
        output_buffer = none;
        output_len = length (joined ps ++ joined qs);
        user_data =
            some
              ((joined ps ++ joined qs) ++ drop (length (joined qs)) (drop (length (joined ps)) b));
        overrun = false;
      }
unfolding http_event_handler free_output
receive_pieces-user memory ps qs b h =
    ap (λ c. receive_pieces memory qs (http_event_handler memory on_finish c).1)
      (user_data-pieces memory none false ps [] b (omega arith))
    ∙ user_data-pieces memory none false qs (joined ps) (drop (length (joined ps)) b)
        (omega (arith, length-drop (length (joined ps)) b))
