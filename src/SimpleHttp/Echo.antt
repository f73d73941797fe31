-- ===== src/SimpleHttp/Echo.antt =====
-- What /echo sends back.
use esp8266_rtos_projects.Prelude.{
  ℕ, zero, suc, ◌+◌, ◌-◌, ◌≤◌, ◌<◌, ◌≡◌, refl, ap, Bool, true, false, not, ◌&&◌, List, [], ◌∷◌,
  ◌++◌, Bytes, joined, leb, ◌==◌, length, length-take, length-drop, take, drop, take-append-drop,
  min, arith, append_assoc, ◌∙◌, Bool-cases, inl, inr,
}
use esp8266_rtos_projects.SimpleHttp.{
  Recv, gives, timeout, failed, Status, esp_ok, echo_loop, echo_post_handler,
}

-- No failure, and no end of the connection.
abbrev pub goes_on : List Recv → Bool
goes_on [] = true
goes_on (gives n ∷ rs) = not (n == 0) && goes_on rs
goes_on (timeout ∷ rs) = goes_on rs
goes_on (failed ∷ rs) = false

abbrev pub received : List Recv → ℕ
received [] = 0
received (gives n ∷ rs) = 1 + received rs
received (timeout ∷ rs) = received rs
received (failed ∷ rs) = received rs

-- The chunks fit into `buf`.
abbrev pub all_fit : List Bytes → Bool
all_fit [] = true
all_fit (p ∷ ps) = leb (length p) 100 && all_fit ps

echo_loop-whole :
    (rs : List Recv) (body : Bytes) (left : ℕ)
    → left ≡ length body
    → goes_on rs ≡ true
    → left ≤ received rs
    → let (status, sent) = echo_loop rs body left in
      (status ≡ esp_ok) × ((joined sent ≡ body) × (all_fit sent ≡ true))
unfolding echo_loop
echo_loop-whole rs body zero e g m = ground arith
echo_loop-whole [] body (suc left) e g m = ground arith
echo_loop-whole (timeout ∷ rs) body (suc left) e g m = echo_loop-whole rs body (suc left) e g m
echo_loop-whole (failed ∷ rs) body (suc left) e g m = ground arith
echo_loop-whole (gives n ∷ rs) body (suc left) e g m =
    let ret = min n (min (suc left) 100) in
    ground (
      arith,
      echo_loop-whole rs (drop ret body) (suc left - ret),
      length-drop ret body,
      length-take ret body,
      take-append-drop ret body,
    )

-- However the network cuts a body of less than 2^31 bytes and however often it is late, once it has
-- given bytes as often as the body has bytes the handler has sent back the body, byte for byte, in chunks
-- that fit into its buffer, and returned ESP_OK.
pub echo_post_handler-whole :
    (rs : List Recv) (body : Bytes)
    → length body < 2147483648
    → goes_on rs ≡ true
    → length body ≤ received rs
    → let (status, sent) = echo_post_handler rs body (length body) in
      (status ≡ esp_ok) × ((joined sent ≡ body) × (all_fit sent ≡ true))
unfolding echo_post_handler
echo_post_handler-whole rs body small g m =
    ground (arith, echo_loop-whole rs body (length body) refl g m)

-- What is sent back, and what is not.
abbrev IsPart : Status × List Bytes → Bytes → Type 0
IsPart (status, sent) body = (rest : Bytes) × (joined sent ++ rest ≡ body)

IsPart-cons :
    (n : ℕ) (body : Bytes) (out : Status × List Bytes)
    → IsPart out (drop n body)
    → IsPart (out.0, take n body ∷ out.1) body
IsPart-cons n body out (rest, e) = (
  rest,
  append_assoc (take n body) (joined out.1) rest
      ∙ (ap (λ s. take n body ++ s) e ∙ take-append-drop n body),
)

echo_loop-IsPart : (rs : List Recv) (body : Bytes) (left : ℕ) → IsPart (echo_loop rs body left) body
unfolding echo_loop
echo_loop-IsPart rs body zero = (body, refl)
echo_loop-IsPart [] body (suc left) = (body, refl)
echo_loop-IsPart (timeout ∷ rs) body (suc left) = echo_loop-IsPart rs body (suc left)
echo_loop-IsPart (failed ∷ rs) body (suc left) = (body, refl)
echo_loop-IsPart (gives n ∷ rs) body (suc left) =
    let ret = min n (min (suc left) 100) in
    let later =
      IsPart-cons ret body (echo_loop rs (drop ret body) (suc left - ret))
        (echo_loop-IsPart rs (drop ret body) (suc left - ret)) in
    elim (Bool-cases (ret == 0)) [ inl closed ↦ rw closed (body, refl) | inr on ↦ rw on later ]
