-- ===== src/HttpClient.antt =====
-- examples/protocols/esp_http_client/main/esp_http_client_example.c: the handler of the client's events,
-- which collects the response.
mod Collects
mod Tests
use esp8266_rtos_projects.Prelude.{
  ℕ, ◌+◌, Bool, true, false, Option, none, some, Bytes, ◌++◌, leb, if◌then◌else◌, take, drop,
  length, List, [], ◌∷◌,
}

-- The events; data comes with whether the response is chunked, and a disconnection with whether
-- the last error was one.
pub data Event : Type 0 where
  http_event_error on_connected header_sent on_header on_finish : Event
  on_data : (chunked : Bool) → Bytes → Event
  disconnected : (failed : Bool) → Event

-- The static variables, the memory behind user_data if it is set, and whether a copy has
-- left its buffer. A buffer is the list of its bytes.
pub record Collector : Type 0 where
  pub output_buffer : Option Bytes
  pub output_len : ℕ
  pub user_data : Option Bytes
  pub overrun : Bool

-- `memcpy(buffer + at, data, data_len)`, where it stays in the buffer.
unfoldable pub copy_at : ℕ → Bytes → Bytes → Option Bytes
copy_at at data_bytes buffer =
    if leb (at + length data_bytes) (length buffer)
    then some (take at buffer ++ data_bytes ++ drop (at + length data_bytes) buffer)
    else none

unfoldable pub copy_user : Bytes → Bytes → Collector → Collector
copy_user data_bytes buffer c = elim (copy_at c.output_len data_bytes buffer) [
  | none ↦ record c { overrun = true; output_len = c.output_len + length data_bytes }
  | some buffer' ↦ record c {
    user_data = some buffer';
    output_len = c.output_len + length data_bytes;
  }
]

unfoldable pub copy_output : Bytes → Bytes → Collector → Collector
copy_output data_bytes buffer c = elim (copy_at c.output_len data_bytes buffer) [
  | none ↦ record c {
    output_buffer = some buffer;
    overrun = true;
    output_len = c.output_len + length data_bytes;
  }
  | some buffer' ↦ record c {
    output_buffer = some buffer';
    output_len = c.output_len + length data_bytes;
  }
]

unfoldable pub free_output : Collector → Collector
free_output c = elim c.output_buffer [
  | none ↦ c
  | some buffer ↦ record c { output_buffer = none; output_len = 0 }
]

-- With the memory that malloc gives, of the length that the response announces: whether ESP_OK is
-- returned, and the state.
unfoldable pub http_event_handler : Option Bytes → Event → Collector → Bool × Collector
http_event_handler memory (on_data true data_bytes) c = (true, c)
http_event_handler memory (on_data false data_bytes) c = elim c.user_data [
  | some buffer ↦ (true, copy_user data_bytes buffer c)
  | none ↦ elim c.output_buffer [
    | some buffer ↦ (true, copy_output data_bytes buffer c)
    | none ↦ elim memory [
      | none ↦ (false, record c { output_len = 0 })
      | some fresh ↦ (true, copy_output data_bytes fresh (record c { output_len = 0 }))
    ]
  ]
]
http_event_handler memory on_finish c = (true, free_output c)
http_event_handler memory (disconnected true) c = (true, free_output c)
http_event_handler memory _ c = (true, c)

-- The pieces of a response, unchunked.
unfoldable pub receive_pieces : Option Bytes → List Bytes → Collector → Collector
receive_pieces memory [] c = c
receive_pieces memory (p ∷ ps) c =
    receive_pieces memory ps (http_event_handler memory (on_data false p) c).1
