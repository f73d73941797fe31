-- ===== src/TcpBridge/Ring.antt =====
-- The ring buffer of ESP-UART-Passthrough/main/src/tcp_bridge.c. Each function takes the state
-- `s_rb` and returns the new one. The mutex makes the body of `rb_write` and of `rb_read` one
-- indivisible step, so it is no part of the state.
pub mod Valid
pub mod Refine
pub mod Read
use esp8266_rtos_projects.Prelude.{
  ℕ, zero, suc, ◌+◌, ◌-◌, ◌*◌, ◌%◌, Bool, true, false, Option, none, some, List, [], ◌∷◌, Bytes,
  ltb, if◌then◌else◌, get_or, set, take, add_size,
}
use esp8266_rtos_projects.TcpBridge.LossyQueue.{Op, put, get}

abbrev pub uart_cache_size : ℕ
uart_cache_size = 8 * 1024

-- `ringbuf_t`; `none` is the null pointer, and a block is its bytes.
pub record RingBuf : Type 0 where
  pub buffer : Option Bytes
  pub size : ℕ
  pub head : ℕ
  pub tail : ℕ
  pub count : ℕ

-- The first argument is what `malloc(size)` returns.
unfoldable pub rb_init : Option Bytes → ℕ → RingBuf → Bool × RingBuf
rb_init none size rb = (false, record rb { buffer = none })
rb_init (some block) size rb =
    (true, record { buffer = some block; size = size; head = 0; tail = 0; count = 0 })

-- The indices after one round of the loop of `rb_write`: the read index moves on when it is full.
unfoldable pub advance : RingBuf → RingBuf
advance rb =
    let stored = record rb { head = add_size rb.head 1 % rb.size } in
    if ltb rb.count rb.size
    then record stored { count = add_size rb.count 1 }
    else record stored { tail = add_size rb.tail 1 % rb.size }

-- The loop of `rb_write` on the storage `block`; the list is `data[i .. len)`.
unfoldable pub write_loop : Bytes → RingBuf → Bytes → RingBuf
write_loop block rb [] = record rb { buffer = some block }
write_loop block rb (byte ∷ rest) = write_loop (set block rb.head byte) (advance rb) rest

-- `rb_write(data, len)`.
unfoldable pub rb_write : RingBuf → Bytes → RingBuf
rb_write rb bytes = elim rb.buffer [ none ↦ rb | some block ↦ write_loop block rb bytes ]

-- The loop of `rb_read`, with `max_len - read_cnt` rounds left: the count, `dst`, and the ring.
unfoldable pub read_loop : ℕ → Bytes → RingBuf → ℕ → Bytes → ℕ × Bytes × RingBuf
read_loop zero block rb read_cnt dst = (read_cnt, dst, rb)
read_loop (suc left) block rb read_cnt dst =
    let rest =
      read_loop left block (record rb { tail = add_size rb.tail 1 % rb.size; count = rb.count - 1 })
        (read_cnt + 1) (set dst read_cnt (get_or block rb.tail 0)) in
    if ltb 0 rb.count then rest else (read_cnt, dst, rb)

-- `rb_read(dst, max_len)`.
unfoldable pub rb_read : RingBuf → Bytes → ℕ → ℕ × Bytes × RingBuf
rb_read rb dst max_len = elim rb.buffer [
  | none ↦ (0, dst, rb)
  | some block ↦ read_loop max_len block rb 0 dst
]

-- A sequence of calls, with the bytes that each read leaves in a fresh `dst` of `n` bytes.
unfoldable pub run : (fresh : ℕ → Bytes) → RingBuf → List Op → List Bytes
run fresh rb [] = []
run fresh rb (put bytes ∷ ops) = run fresh (rb_write rb bytes) ops
run fresh rb (get n ∷ ops) =
    let (cnt, dst, rb') = rb_read rb (fresh n) n in take cnt dst ∷ run fresh rb' ops
