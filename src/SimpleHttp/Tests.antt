-- ===== src/SimpleHttp/Tests.antt =====
-- The theorems on the simple server, at concrete requests.
use esp8266_rtos_projects.Prelude.{
  ◌≡◌, refl, true, false, some, List, [], ◌∷◌, codes, joined, arith,
}
use esp8266_rtos_projects.SimpleHttp.{
  Recv, gives, timeout, esp_ok, echo_loop, echo_post_handler, GetRequest, hello_get_handler,
  found_header, found_param, found_query,
}
use esp8266_rtos_projects.SimpleHttp.Server.{byte, ctrl_timeout, Event, got_ip, put_ctrl}
use esp8266_rtos_projects.SimpleHttp.Echo.{all_fit, echo_post_handler-whole}

abbrev answers : List Recv
answers = gives 2 ∷ timeout ∷ gives 9 ∷ gives 1 ∷ gives 1 ∷ []

test_echo : echo_post_handler answers (codes "echo") 4 ≡ (esp_ok, codes "ec" ∷ codes "ho" ∷ [] ∷ [])
unfolding echo_post_handler echo_loop
test_echo = refl

echo_post_handler-whole_example :
    let (status, sent) = echo_post_handler answers (codes "echo") 4 in
    (status ≡ esp_ok) × ((joined sent ≡ codes "echo") × (all_fit sent ≡ true))
echo_post_handler-whole_example =
    echo_post_handler-whole answers (codes "echo") (omega arith) refl (omega arith)

abbrev events : List Event
events =
    got_ip false
    ∷ got_ip true
    ∷ put_ctrl (byte b'0')
    ∷ put_ctrl ctrl_timeout
    ∷ got_ip true
    ∷ put_ctrl (byte b'1')
    ∷ []

abbrev request : GetRequest
request = record { header = λ name. []; query = codes "query1=a" }

test_hello : hello_get_handler (λ query key. some (codes "a")) request ≡ (
  record { name = codes "query"; value = codes "query1=a" }
      ∷ record { name = codes "query1"; value = codes "a" }
      ∷ record { name = codes "query3"; value = codes "a" }
      ∷ record { name = codes "query2"; value = codes "a" }
      ∷ [],
  codes "Hello World!",
)
unfolding hello_get_handler found_header found_param found_query
test_hello = refl
