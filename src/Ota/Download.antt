-- ===== src/Ota/Download.antt =====
-- A whole download: the header, and then the body.
use esp8266_rtos_projects.Prelude.{
  c_string, joined, ℕ, ◌+◌, ◌≤◌, ◌<◌, ◌≡◌, ◌≢◌, refl, ap, ◌∙◌, Bool, true, some, List, [], ◌∷◌,
  ◌++◌, map, Bytes, codes, ne→==, le→ltb, leb, add_size, length, length-append, drop_append, take,
  take_all, All, arith,
}
use esp8266_rtos_projects.Libc.Text.{strstr}
use esp8266_rtos_projects.Ota.{
  OtaFirm, firm_init, ota_init, ota_prepare, ota_start, returns, note_length, content_length,
  parse_http, do_parse_msg, parse_rounds, parse_msg, on_packet, packet, closed, receive_image,
  connect_server, send_request, ota_begin, ota_end, set_boot, restart, OtaEnv, ota_example_task,
  written, text_buffsize, buffsize, sub_size,
}
use esp8266_rtos_projects.Ota.Body.{
  IsPacket, take_long, receive_image-body, parse_rounds-whole, parse_rounds-more,
}
use esp8266_rtos_projects.Ota.Header.{header, IsLine, parse_lines-header}

-- The state when the header has been read, and when the first bytes of the body have.
abbrev noted : ℕ → ℕ → ℕ → OtaFirm
noted partitions update n = record (firm_init partitions update) { content_len = n; ota_size = n }

abbrev prepared : ℕ → ℕ → ℕ → OtaFirm
prepared partitions update n = record (noted partitions update n) { state = ota_prepare }

abbrev begun : ℕ → ℕ → ℕ → Bytes → OtaFirm
begun partitions update n first = record (prepared partitions update n) {
  read_bytes = length first;
  buf = first;
  bytes = length first;
  write_bytes = length first;
  state = ota_start;
}

-- The header `ls`, in one packet with `first`, announces `n` bytes.
pub record Announces (ls : List Bytes) (first : Bytes) (n : ℕ) : Type 0 where
  pub lines : All IsLine ls
  pub field : Bytes
  pub is_there : strstr (c_string (header ls ++ first)) (codes "Content-Length") ≡ some field
  pub reads : content_length field ≡ returns n
  pub some_bytes : n ≢ 0
  pub small : n < 2147483648

length-nonempty : (s : Bytes) → s ≢ [] → 1 ≤ length s
length-nonempty [] h = absurd (h refl)
length-nonempty (c ∷ s) h = omega arith

module _ (a b n : ℕ) where
  prepare_step :
      (first : Bytes)
      → length first ≤ text_buffsize
      → do_parse_msg (prepared a b n) ota_prepare first ≡ returns (length first, begun a b n first)
  unfolding do_parse_msg
  prepare_step first short = rw (none_before, at_zero, whole, none_left, none_before) refl
    where
      none_before : add_size 0 (length first) ≡ length first
      none_before = omega (arith, short)

      at_zero : leb 0 (length first) ≡ true
      at_zero = ground arith

      whole : sub_size (length first) 0 ≡ length first
      whole = omega (arith, short)

      none_left : sub_size (length first) (length first) ≡ 0
      none_left = omega arith

  module _ (ls : List Bytes) (first : Bytes) (h : Announces ls first n) where
    abbrev text : Bytes
    text = header ls ++ first

    note_length-fresh : note_length text (firm_init a b) ≡ returns (noted a b n)
    unfolding note_length
    note_length-fresh = rw (h.is_there, h.reads) refl

    note_length-again : note_length text (noted a b n) ≡ returns (noted a b n)
    unfolding note_length
    note_length-again = rw (ne→== n 0 h.some_bytes) refl

    init_step :
        do_parse_msg (firm_init a b) ota_init text ≡ returns (length (header ls), prepared a b n)
    unfolding do_parse_msg parse_http
    init_step =
        rw
          (
            do_parse_msg,
            parse_lines-header text ls (firm_init a b) (noted a b n) note_length-fresh
                note_length-again h.some_bytes (length text) 0 first h.lines
                (omega (arith, length-append (header ls) first)),
          )
          (ap (λ k. returns (k, prepared a b n)) (omega arith))

    parse_msg-header :
        first ≢ []
        → length first ≤ text_buffsize
        → parse_msg text (firm_init a b) ≡ returns (begun a b n first)
    unfolding parse_msg
    parse_msg-header some_first short =
        parse_rounds-more 1 (length (header ls)) text (firm_init a b) (prepared a b n) init_step
          (omega (arith, length-append (header ls) first, length-nonempty first some_first))
        ∙ ap (λ r. parse_rounds 1 r (prepared a b n)) (drop_append (header ls) first)
        ∙ parse_rounds-whole 0 first (prepared a b n) (begun a b n first) (prepare_step first short)

  -- If the first packet is a header that announces `n` bytes together with some of the body, at most
  -- `n` bytes, if the rest comes in packets of any sizes before the connection is closed, and if the
  -- flash takes all that is written: then what is written is the first `n` bytes of the body, or all
  -- of it if it is shorter.
  pub receive_image-announced :
      (write_ok : Bytes → Bool) (ls : List Bytes) (first : Bytes) (pieces : List Bytes)
      → ((out : Bytes) → write_ok out ≡ true)
      → Announces ls first n
      → first ≢ []
      → length first ≤ n
      → length (header ls ++ first) ≤ text_buffsize
      → All IsPacket pieces
      → receive_image write_ok
          (packet (header ls ++ first) ∷ (map packet pieces ++ closed ∷ []))
          []
          (firm_init a b)
        ≡ written (take n (first ++ joined pieces))
  unfolding receive_image on_packet
  receive_image-announced write_ok ls first pieces takes h some_first fit short hp =
      rw
        (
          on_packet,
          receive_image,
          parse_msg-header ls first h some_first
              (omega (arith, short, length-append (header ls) first)),
          le→ltb (buffsize + 1) (length first)
              (omega (arith, short, length-append (header ls) first)),
          take_all (length first) first (omega arith),
          takes first,
          receive_image-body write_ok takes pieces first (begun a b n first)
              (record { started = refl; fits = fit; small = h.small }) hp,
          take_long n first (joined pieces) fit,
        )
        refl

-- The answers of the SDK when all goes well.
pub record AllFine (env : OtaEnv) : Type 0 where
  pub connected : env.connect_ok ≡ true
  pub request_made : env.asprintf_ok ≡ true
  pub request_sent : env.send_ok ≡ true
  pub begins : env.begin_ok ≡ true
  pub takes : (out : Bytes) → env.write_ok out ≡ true
  pub finishes : env.end_ok ≡ true
  pub boots : env.boot_ok ≡ true

-- If the packets are a header that announces `n` bytes together with some of the body, at most `n`
-- bytes, then the rest of the body in any sizes, then the end of the connection, and no call of the
-- SDK fails: the task begins the update, ends it, makes it the
-- partition to boot from and restarts the device, with the first `n` bytes of the body, or all of it
-- if it is shorter, on the flash.
pub ota_example_task-image :
    (env : OtaEnv) (n : ℕ) (ls : List Bytes) (first : Bytes) (pieces : List Bytes)
    → AllFine env
    → env.packets ≡ packet (header ls ++ first) ∷ (map packet pieces ++ closed ∷ [])
    → Announces ls first n
    → first ≢ []
    → length first ≤ n
    → length (header ls ++ first) ≤ text_buffsize
    → All IsPacket pieces
    → ota_example_task env ≡ (
      connect_server ∷ send_request ∷ ota_begin ∷ ota_end ∷ set_boot ∷ restart ∷ [],
      some (take n (first ++ joined pieces)),
    )
unfolding ota_example_task
ota_example_task-image env n ls first pieces fine are h some_first fit short hp =
    rw
      (
        ota_example_task,
        are,
        receive_image-announced env.partitions env.update n env.write_ok ls first pieces fine.takes
            h some_first fit short hp,
        fine.connected,
        fine.request_made,
        fine.request_sent,
        fine.begins,
        fine.finishes,
        fine.boots,
      )
      refl
