-- ===== src/Ota.antt =====
-- examples/system/ota/native_ota/2+MB_flash/new_to_new_no_old/main/ota_example_main.c: a firmware
-- image fetched over HTTP and written to the flash.
pub mod Header
pub mod Body
pub mod Download
pub mod Ends
mod Tests
use mathlib.Core.Option
use esp8266_rtos_projects.Prelude.{
  ℕ, zero, suc, ◌+◌, ◌-◌, ◌%◌, Bool, true, false, ◌||◌, Option, none, some, List, [], ◌∷◌, ◌++◌,
  Bytes, codes, ltb, leb, ◌==◌, if◌then◌else◌, length, take, drop, get_or, size_mod, add_size,
  c_string, ◌>>=◌,
}
use esp8266_rtos_projects.Libc.Text.{strstr, atoi}

-- `esp_ota_firm_state_t`
pub data FirmState : Type 0 where
  ota_init ota_prepare ota_start ota_recved ota_finish : FirmState

-- `esp_ota_firm_t`; `buf` is the text from the pointer on.
pub record OtaFirm : Type 0 where
  pub ota_num : ℕ
  pub update_ota_num : ℕ
  pub state : FirmState
  pub content_len : ℕ
  pub read_bytes : ℕ
  pub write_bytes : ℕ
  pub ota_size : ℕ
  pub ota_offset : ℕ
  pub buf : Bytes
  pub bytes : ℕ

abbrev pub buffsize : ℕ
buffsize = 1500

abbrev pub text_buffsize : ℕ
text_buffsize = 1024

-- Subtraction of `size_t`.
abbrev pub sub_size : ℕ → ℕ → ℕ
sub_size a b = (a + size_mod - b) % size_mod

-- Where a function ends: it returns, it ends the task (`task_fatal_error`), its behaviour is not
-- defined, or its loop does not end.
pub data Ended (A : Type 0) : Type 0 where
  returns : A → Ended A
  fatal undefined endless : Ended A

-- `read_until(buffer, delim, len)` on the `len` bytes of the list.
unfoldable pub read_until : ℕ → Bytes → ℕ
read_until delim [] = 1
read_until delim (c ∷ s) = let more = suc (read_until delim s) in if c == delim then 1 else more

-- Lines 129 to 138, where the field is there: its value; `undefined` if no line end follows it or it
-- does not fit `length_str` with a terminator.
unfoldable pub content_length : Bytes → Ended ℕ
content_length field = elim (strstr (drop 16 field) (codes "\r\n")) [
  | none ↦ undefined
  | some after ↦
      let value = take (length (drop 16 field) - length after) (drop 16 field) in
      if ltb (length value) 32 then returns (atoi value) else undefined
]

unfoldable pub note_length : Bytes → OtaFirm → Ended OtaFirm
note_length text firm =
    if firm.content_len == 0
    then elim (strstr (c_string text) (codes "Content-Length")) [
      | none ↦ returns firm
      | some field ↦ elim (content_length field) [
        | returns n ↦ returns (record firm { content_len = n; ota_size = n; ota_offset = 0 })
        | fatal ↦ fatal
        | undefined ↦ undefined
        | endless ↦ endless
      ]
    ]
    else returns firm

-- The loop of `_esp_ota_firm_parse_http` at `text[i]`, with `rest` the bytes from there to
-- `total_len`: `some parse_len` for `true`. Each round takes a byte or more of `rest`.
unfoldable pub parse_lines : ℕ → Bytes → Bytes → ℕ → OtaFirm → Ended (Option ℕ × OtaFirm)
parse_lines rounds text [] i firm = returns (none, firm)
parse_lines zero text (c ∷ s) i firm = endless
parse_lines (suc rounds) text (c ∷ s) i firm =
    let i_read_len = read_until b'\n' (c ∷ s) in
    elim (note_length text firm) [
      | returns noted ↦
          let more = parse_lines rounds text (drop i_read_len (c ∷ s)) (i + i_read_len) noted in
          if c == 0
          then returns (none, firm)
          else if ltb (length (c ∷ s)) i_read_len
          then fatal
          else if i_read_len == 2
          then if noted.content_len == 0 then fatal else returns (some (i + 2), noted)
          else more
      | fatal ↦ if c == 0 then returns (none, firm) else fatal
      | undefined ↦ if c == 0 then returns (none, firm) else undefined
      | endless ↦ if c == 0 then returns (none, firm) else endless
    ]

unfoldable pub parse_http : Bytes → OtaFirm → Ended (Option ℕ × OtaFirm)
parse_http text firm = parse_lines (length text) text text 0 firm

-- `esp_ota_firm_do_parse_msg`: how many bytes it has taken.
unfoldable pub do_parse_msg : OtaFirm → FirmState → Bytes → Ended (ℕ × OtaFirm)
do_parse_msg firm ota_init in_buf = elim (parse_http in_buf firm) [
  | returns (none, f) ↦ returns (length in_buf, f)
  | returns (some tmp, f) ↦ returns (tmp, record f { state = ota_prepare })
  | fatal ↦ fatal
  | undefined ↦ undefined
  | endless ↦ endless
]
do_parse_msg firm ota_prepare in_buf =
    let read = add_size firm.read_bytes (length in_buf) in
    let fresh = sub_size read firm.ota_offset in
    returns (
      length in_buf,
      (if leb firm.ota_offset read
          then record firm {
            read_bytes = read;
            buf = drop (sub_size (length in_buf) fresh) in_buf;
            bytes = fresh;
            write_bytes = add_size firm.write_bytes fresh;
            state = ota_start;
          }
          else record firm { read_bytes = read }),
    )
do_parse_msg firm ota_start in_buf =
    let over = ltb firm.ota_size (add_size firm.write_bytes (length in_buf)) in
    let bytes = if over then sub_size firm.ota_size firm.write_bytes else length in_buf in
    returns (
      length in_buf,
      record firm {
        bytes = bytes;
        state = if over then ota_recved else ota_start;
        buf = in_buf;
        write_bytes = add_size firm.write_bytes bytes;
      },
    )
do_parse_msg firm ota_recved in_buf = returns (0, record firm { state = ota_finish })
do_parse_msg firm ota_finish in_buf = returns (0, firm)

-- `esp_ota_firm_parse_msg` on the bytes from `parse_bytes` on, for at most so many rounds.
unfoldable pub parse_rounds : ℕ → Bytes → OtaFirm → Ended OtaFirm
parse_rounds zero in_buf firm = endless
parse_rounds (suc rounds) in_buf firm = elim (do_parse_msg firm firm.state in_buf) [
  | returns (taken, f) ↦
      let more = parse_rounds rounds (drop taken in_buf) f in
      if length in_buf == taken then returns f else more
  | fatal ↦ fatal
  | undefined ↦ undefined
  | endless ↦ endless
]

unfoldable pub parse_msg : Bytes → OtaFirm → Ended OtaFirm
parse_msg in_buf firm = parse_rounds 2 in_buf firm

abbrev pub is_finished : FirmState → Bool
is_finished ota_finish = true
is_finished ota_recved = true
is_finished _ = false

abbrev pub can_write : FirmState → Bool
can_write ota_start = true
can_write ota_recved = true
can_write _ = false

-- `esp_ota_firm_init`
abbrev pub firm_init : ℕ → ℕ → OtaFirm
firm_init partitions update = record {
  ota_num = partitions;
  update_ota_num = update;
  state = ota_init;
  content_len = 0;
  read_bytes = 0;
  write_bytes = 0;
  ota_size = 0;
  ota_offset = 0;
  buf = [];
  bytes = 0;
}

-- What `recv` returns: a failure, some bytes, at most 1024 of them, or none as the connection is
-- closed.
pub data Packet : Type 0 where
  recv_error : Packet
  packet : Bytes → Packet
  closed : Packet

-- Lines 339 to 353 and 362: a packet received. The result is what is to be written, if anything is,
-- and whether the loop goes on.
unfoldable pub on_packet : Bytes → OtaFirm → Ended (Option Bytes × Bool × OtaFirm)
on_packet text firm = elim (parse_msg text firm) [
  | returns f ↦
      if can_write f.state
      then if ltb (buffsize + 1) f.bytes
        then undefined
        else returns (some (take f.bytes f.buf), (if is_finished f.state then false else true), f)
      else returns (none, true, f)
  | fatal ↦ fatal
  | undefined ↦ undefined
  | endless ↦ endless
]

-- How the loop of `ota_example_task` ends, with all that it has written; `pending` while it waits.
pub data Image : Type 0 where
  written : Bytes → Image
  pending failed : Image

-- Whether `esp_ota_write` succeeds on a text.
module _ (write_ok : Bytes → Bool) where
  -- The loop of lines 331 to 364, with `image` written.
  unfoldable pub receive_image : List Packet → Bytes → OtaFirm → Image
  receive_image [] image firm = pending
  receive_image (recv_error ∷ rest) image firm = failed
  receive_image (closed ∷ rest) image firm = written image
  receive_image (packet text ∷ rest) image firm = elim (on_packet text firm) [
    | returns (none, goes_on, f) ↦ receive_image rest image f
    | returns (some out, goes_on, f) ↦
        let more = receive_image rest (image ++ out) f in
        if write_ok out then if goes_on then more else written (image ++ out) else failed
    | fatal ↦ failed
    | undefined ↦ failed
    | endless ↦ failed
  ]

-- The calls of `ota_example_task` around the loop.
pub data OtaCall : Type 0 where
  connect_server send_request ota_begin ota_end set_boot restart : OtaCall

-- What the SDK answers: whether the connection, the request, and the calls of the update succeed.
pub record OtaEnv : Type 0 where
  pub connect_ok : Bool
  pub asprintf_ok : Bool
  pub send_ok : Bool
  pub begin_ok : Bool
  pub packets : List Packet
  pub write_ok : Bytes → Bool
  pub end_ok : Bool
  pub boot_ok : Bool
  pub partitions : ℕ
  pub update : ℕ

-- `ota_example_task`: the calls made, and the image on the flash when the device restarts.
unfoldable pub ota_example_task : OtaEnv → List OtaCall × Option Bytes
ota_example_task env =
    let finish : Bytes → List OtaCall × Option Bytes = λ image.
      if env.end_ok
      then if env.boot_ok
        then (ota_end ∷ set_boot ∷ restart ∷ [], some image)
        else (ota_end ∷ set_boot ∷ [], none)
      else (ota_end ∷ [], none) in
    let received : List OtaCall × Option Bytes =
      elim (receive_image env.write_ok env.packets [] (firm_init env.partitions env.update)) [
        | written image ↦ finish image
        | pending ↦ ([], none)
        | failed ↦ ([], none)
      ] in
    if env.connect_ok
    then if env.asprintf_ok
      then if env.send_ok
        then if env.begin_ok
          then (connect_server ∷ send_request ∷ ota_begin ∷ received.0, received.1)
          else (connect_server ∷ send_request ∷ ota_begin ∷ [], none)
        else (connect_server ∷ send_request ∷ [], none)
      else (connect_server ∷ [], none)
    else (connect_server ∷ [], none)
