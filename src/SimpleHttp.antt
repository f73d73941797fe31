-- ===== src/SimpleHttp.antt =====
-- examples/protocols/http_server/simple/main/main.c: the handlers of /hello, /echo and /ctrl.
pub mod Server
mod Echo
mod Registered
mod Tests
use esp8266_rtos_projects.Prelude.{
  ℕ, zero, suc, ◌+◌, ◌-◌, Bool, true, false, ◌&&◌, Option, none, some, List, [], ◌∷◌, ◌++◌, Bytes,
  codes, ltb, ◌==◌, length, take, drop, min, if◌then◌else◌,
}

-- What `httpd_req_recv` returns: up to so many bytes of what is left of the body, as many as are asked
-- for at most; a timeout; or another failure.
pub data Recv : Type 0 where
  gives : ℕ → Recv
  timeout failed : Recv

-- Whether the handler has returned, and what.
pub data Status : Type 0 where
  esp_ok esp_fail waiting : Status

-- The loop on `remaining`, with the rest of the body and the chunks that are sent; the last chunk is
-- empty. It waits where there is no answer yet.
unfoldable pub echo_loop : List Recv → Bytes → ℕ → Status × List Bytes
echo_loop rs body zero = (esp_ok, [] ∷ [])
echo_loop [] body (suc left) = (waiting, [])
echo_loop (timeout ∷ rs) body (suc left) = echo_loop rs body (suc left)
echo_loop (failed ∷ rs) body (suc left) = (esp_fail, [])
echo_loop (gives n ∷ rs) body (suc left) =
    let ret = min n (min (suc left) 100) in
    let (status, sent) = echo_loop rs (drop ret body) (suc left - ret) in
    if ret == 0 then (esp_fail, []) else (status, take ret body ∷ sent)

-- `echo_post_handler`, where `content_len` becomes an `int`.
unfoldable pub echo_post_handler : List Recv → Bytes → ℕ → Status × List Bytes
echo_post_handler rs body content_len =
    if ltb content_len 2147483648 then echo_loop rs body content_len else (esp_ok, [] ∷ [])

-- The headers and the query of a request, the empty text where there is none.
pub record GetRequest : Type 0 where
  pub header : Bytes → Bytes
  pub query : Bytes

-- What is logged: a header's or a parameter's name and value.
pub record Logged : Type 0 where
  pub name : Bytes
  pub value : Bytes

unfoldable pub found_header : GetRequest → Bytes → List Logged
found_header req name =
    if length (req.header name) == 0
    then []
    else record { name = name; value = req.header name } ∷ []

unfoldable pub found_param : Option Bytes → Bytes → List Logged
found_param value name = elim value [ none ↦ [] | some v ↦ record { name = name; value = v } ∷ [] ]

-- `httpd_query_key_value` on a query, for a value of less than 32 bytes.
module _ (query_key_value : Bytes → Bytes → Option Bytes) where
  unfoldable pub found_query : Bytes → List Logged
  found_query query =
      if length query == 0
      then []
      else record { name = codes "query"; value = query }
          ∷ found_param (query_key_value query (codes "query1")) (codes "query1")
        ++ found_param (query_key_value query (codes "query3")) (codes "query3")
        ++ found_param (query_key_value query (codes "query2")) (codes "query2")

  -- `hello_get_handler`, where memory can be had: what is logged, and the body of the response.
  unfoldable pub hello_get_handler : GetRequest → List Logged × Bytes
  hello_get_handler req = (
    found_header req (codes "Host")
        ++ found_header req (codes "Test-Header-2")
        ++ found_header req (codes "Test-Header-1")
        ++ found_query req.query,
    codes "Hello World!",
  )
