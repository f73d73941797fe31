-- ===== src/Ota/Tests.antt =====
-- The theorems on the download at a concrete response.
use esp8266_rtos_projects.Prelude.{
  ◌≡◌, refl, Bool, true, some, List, [], ◌∷◌, ◌++◌, Bytes, codes, map, All, not, ◌&&◌, ◌==◌, ◌≢◌,
  arith,
}
use esp8266_rtos_projects.Libc.Text.{strstr, atoi}
use esp8266_rtos_projects.Ota.{
  firm_init, content_length, packet, closed, parse_msg, OtaEnv, ota_example_task, connect_server,
  send_request, ota_begin, ota_end, set_boot, restart,
}
use esp8266_rtos_projects.Ota.Header.{header}
use esp8266_rtos_projects.Ota.Download.{Announces, AllFine, ota_example_task-image}
use esp8266_rtos_projects.Ota.Ends.{ends, is_sound, parse_msg-ends}

-- "HTTP/1.0 200 OK", and a body of five bytes.
abbrev lines : List Bytes
lines = codes "HTTP/1.0 200 OK\r" ∷ codes "Content-Length: 5\r" ∷ []

abbrev first : Bytes
first = codes "ab"

abbrev pieces : List Bytes
pieces = codes "cd" ∷ codes "efg" ∷ []

abbrev always : Bytes → Bool
always out = true

abbrev all_inside : Bytes → Bool
all_inside [] = true
all_inside (c ∷ s) = (not (c == 0) && not (c == b'\n')) && all_inside s

inside : (s : Bytes) → all_inside s ≡ true → All (λ c. (c ≢ 0) × (c ≢ b'\n')) s
inside [] h = tt
inside (c ∷ s) h = ((ground arith, ground arith), inside s (ground arith))

announces : Announces lines first 5
unfolding strstr content_length atoi
announces = record {
  lines = (
    (inside (codes "HTTP/1.0 200 OK\r") refl, omega arith),
    ((inside (codes "Content-Length: 5\r") refl, omega arith), tt),
  );
  field = codes "Content-Length: 5\r\n\r\nab";
  is_there = refl;
  reads = refl;
  some_bytes = omega arith;
  small = omega arith;
}

whole_field : is_sound (codes "HTTP/1.0 200 OK\r\nContent-Length: 5\r\n") ≡ true
unfolding strstr
whole_field = refl

parse_msg-ends_example :
    ends (parse_msg (codes "HTTP/1.0 200 OK\r\nContent-Length: 5\r\n") (firm_init 2 1)) ≡ true
parse_msg-ends_example =
    parse_msg-ends (codes "HTTP/1.0 200 OK\r\nContent-Length: 5\r\n") (firm_init 2 1) whole_field
      refl

abbrev env : OtaEnv
env = record {
  connect_ok = true;
  asprintf_ok = true;
  send_ok = true;
  begin_ok = true;
  packets = packet (header lines ++ first) ∷ (map packet pieces ++ closed ∷ []);
  write_ok = always;
  end_ok = true;
  boot_ok = true;
  partitions = 2;
  update = 1;
}

abbrev fine : AllFine env
fine = record {
  connected = refl;
  request_made = refl;
  request_sent = refl;
  begins = refl;
  takes = λ out. refl;
  finishes = refl;
  boots = refl;
}

ota_example_task-image_example : ota_example_task env ≡ (
  connect_server ∷ send_request ∷ ota_begin ∷ ota_end ∷ set_boot ∷ restart ∷ [],
  some (codes "abcde"),
)
ota_example_task-image_example =
    ota_example_task-image env 5 lines first pieces fine refl announces (λ e. cc) (omega arith)
      (omega arith) (((λ e. cc), omega arith), (((λ e. cc), omega arith), tt))
