-- ===== src/NanoConsole.antt =====
-- examples/system/factory-test/components/rf_test/nano_console.c: a console that reads commands from
-- the serial line, in the configuration without CONFIG_NC_ECHO_CMD.
pub mod Editing
pub mod Typing
pub mod Words
pub mod Line
mod Tests
use esp8266_rtos_projects.Prelude.{
  ℕ, zero, suc, ◌+◌, ◌-◌, Bool, true, false, not, ◌&&◌, ◌||◌, Option, none, some, List, [], ◌∷◌,
  ◌++◌, Bytes, ltb, leb, ◌==◌, if◌then◌else◌, length, take, drop, get_or, set, c_string, str_eq,
}

abbrev pub nc_read_buf : ℕ
nc_read_buf = 128

-- `num` and `pbuf` of `nc_thread_entry`.
pub record Console : Type 0 where
  pub num : ℕ
  pub pbuf : Bytes

-- `get_cmd` in the list of the commands' names, the one that was registered last first.
unfoldable pub get_cmd : List Bytes → Bytes → Option Bytes
get_cmd [] buf = none
get_cmd (name ∷ rest) buf =
    let other = get_cmd rest buf in if str_eq name buf then some name else other

-- The zeros of `alloc_args`, and the strings behind one another at `p`.
abbrev pub count_ends : Bytes → ℕ
count_ends [] = 0
count_ends (c ∷ s) = (if c == 0 then 1 else 0) + count_ends s

unfoldable pub copy_args : ℕ → Bytes → List Bytes
copy_args zero p = []
copy_args (suc cnt) p = c_string p ∷ copy_args cnt (drop (length (c_string p) + 1) p)

-- `alloc_args(buf, num)`, if every allocation succeeds.
unfoldable pub alloc_args : Bytes → ℕ → List Bytes
unfolding copy_args
alloc_args buf num = copy_args (count_ends (take num buf)) buf

-- A call of a command: its name and its arguments, the name among them.
pub record Call : Type 0 where
  pub name : Bytes
  pub args : List Bytes

-- Lines 138 to 173, for a line end. The Booleans are whether there is memory for the arguments.
unfoldable pub enter : List Bytes → Bool → Console → Console × List Call
enter cmds memory s =
    let ended =
      if get_or s.pbuf (s.num - 1) 0 == 0
      then s
      else record { num = s.num + 1; pbuf = set s.pbuf s.num 0 } in
    let call : List Call = elim (get_cmd cmds (c_string ended.pbuf)) [
      | none ↦ []
      | some name ↦
          if memory then record { name = name; args = alloc_args ended.pbuf ended.num } ∷ [] else []
    ] in
    if s.num == 0 then (s, []) else (record ended { num = 0 }, call)

-- One round of the loop, on the character that is read.
unfoldable pub on_char : List Bytes → Bool → ℕ → Console → Console × List Call
on_char cmds memory c s =
    if leb (nc_read_buf - 1) s.num
    then (record s { num = 0 }, [])
    else if leb 128 c
    then (s, [])
    else if c == b'\r' || c == b'\n'
    then enter cmds memory s
    else if c == b' '
    then if not (s.num == 0) && not (get_or s.pbuf s.num 0 == b' ')
      then (record { num = s.num + 1; pbuf = set s.pbuf s.num 0 }, [])
      else (s, [])
    else if c == 8 || c == 127
    then (record s { num = s.num - 1 }, [])
    else (record { num = s.num + 1; pbuf = set s.pbuf s.num c }, [])

-- What is read, each with whether there is memory for arguments; a failure to read ends the thread.
unfoldable pub nc_loop : List Bytes → List (Option ℕ × Bool) → Console → Console × List Call
nc_loop cmds [] s = (s, [])
nc_loop cmds ((none, memory) ∷ rest) s = (s, [])
nc_loop cmds ((some c, memory) ∷ rest) s =
    let (s', now) = on_char cmds memory c s in
    let (end, later) = nc_loop cmds rest s' in (end, now ++ later)

-- `nc_thread_entry`: the calls that it makes, with what `malloc` gives.
unfoldable pub nc_thread_entry : List Bytes → Option Bytes → List (Option ℕ × Bool) → List Call
nc_thread_entry cmds none input = []
nc_thread_entry cmds (some block) input = (nc_loop cmds input (record { num = 0; pbuf = block })).1

-- `nc_register_cmd`, with whether the two allocations succeed: 0, or -ENOMEM.
unfoldable pub nc_register_cmd : Bytes → Bool → Bool → List Bytes → Bool × List Bytes
nc_register_cmd name cmd_memory name_memory cmds =
    if cmd_memory then if name_memory then (true, name ∷ cmds) else (false, cmds) else (false, cmds)
