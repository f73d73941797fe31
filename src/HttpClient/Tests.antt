-- ===== src/HttpClient/Tests.antt =====
-- Concrete responses.
use esp8266_rtos_projects.Prelude.{
  ◌≡◌, refl, true, false, none, some, Bytes, codes, joined, drop, List, [], ◌∷◌, ◌++◌, arith,
}
use esp8266_rtos_projects.HttpClient.{
  http_event_handler, receive_pieces, copy_at, copy_user, copy_output,
}
use esp8266_rtos_projects.HttpClient.Collects.{no_buffer, only_user, receive_pieces-output}

abbrev memory : Bytes
memory = codes "........"

abbrev pieces : List Bytes
pieces = codes "ab" ∷ codes "cde" ∷ []

test_output : receive_pieces (some memory) pieces (no_buffer 5) ≡ record {
  output_buffer = some (codes "abcde...");
  output_len = 5;
  user_data = none;
  overrun = false;
}
unfolding receive_pieces http_event_handler copy_at copy_output
test_output = refl

-- The third response leaves the buffer.
test_user :
    receive_pieces none (codes "abc" ∷ codes "def" ∷ codes "ghi" ∷ []) (only_user memory) ≡ record {
      output_buffer = none;
      output_len = 9;
      user_data = some (codes "abcdef..");
      overrun = true;
    }
unfolding receive_pieces http_event_handler copy_at copy_user
test_user = refl

receive_pieces-output_example : receive_pieces (some memory) pieces (no_buffer 5) ≡ record {
  output_buffer = some (joined pieces ++ drop 5 memory);
  output_len = 5;
  user_data = none;
  overrun = false;
}
receive_pieces-output_example =
    receive_pieces-output memory (codes "ab") (codes "cde" ∷ []) 5 (omega arith)
