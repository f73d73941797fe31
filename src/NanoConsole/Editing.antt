-- ===== src/NanoConsole/Editing.antt =====
-- The buffer of the console.
use esp8266_rtos_projects.Prelude.{
  ℕ, ◌<◌, ◌≡◌, Bool, Option, none, some, List, [], ◌∷◌, Bytes, length, length-set, arith,
}
use esp8266_rtos_projects.NanoConsole.{Console, enter, on_char, nc_loop, nc_read_buf}

-- The text that is being edited, in a buffer of 128 bytes with room for its terminator.
pub record IsEditing (s : Console) : Type 0 where
  pub size : length s.pbuf ≡ nc_read_buf
  pub room : s.num < nc_read_buf

enter-IsEditing :
    (cmds : List Bytes) (memory : Bool) (s : Console)
    → IsEditing s
    → IsEditing (enter cmds memory s).0
unfolding enter
enter-IsEditing cmds memory s h = record {
  size = ground (arith, h.size, length-set s.pbuf s.num 0);
  room = ground (arith, h.room);
}

pub on_char-IsEditing :
    (cmds : List Bytes) (memory : Bool) (c : ℕ) (s : Console)
    → IsEditing s
    → IsEditing (on_char cmds memory c s).0
unfolding on_char
on_char-IsEditing cmds memory c s h = record {
  size = ground (
    arith,
    h.size,
    length-set s.pbuf s.num 0,
    length-set s.pbuf s.num c,
    (enter-IsEditing cmds memory s h).size,
  );
  room = ground (arith, h.room, (enter-IsEditing cmds memory s h).room);
}

-- Whatever is read, in any order, and however often memory is short: the buffer keeps its 128 bytes,
-- and the index at which the next character or terminator is stored stays within them.
pub nc_loop-IsEditing :
    (cmds : List Bytes) (input : List (Option ℕ × Bool)) (s : Console)
    → IsEditing s
    → IsEditing (nc_loop cmds input s).0
unfolding nc_loop
nc_loop-IsEditing cmds [] s h = h
nc_loop-IsEditing cmds ((none, memory) ∷ rest) s h = h
nc_loop-IsEditing cmds ((some c, memory) ∷ rest) s h =
    nc_loop-IsEditing cmds rest (on_char cmds memory c s).0 (on_char-IsEditing cmds memory c s h)
