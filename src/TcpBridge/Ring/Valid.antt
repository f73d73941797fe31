-- ===== src/TcpBridge/Ring/Valid.antt =====
-- The invariant of the ring buffer, kept by its operations.
use esp8266_rtos_projects.Prelude.{
  ℕ, ◌+◌, ◌-◌, ◌%◌, ◌≤◌, ◌<◌, ◌≡◌, true, some, Bytes, length, length-set, ap, set, add_size,
  size_mod, arith,
}
use native.Mathlib.Nat.{mod-add-mod}
use esp8266_rtos_projects.TcpBridge.Ring.{RingBuf, rb_init, advance}

-- What holds of `s_rb` with the storage `block` between two calls.
pub record IsValid (block : Bytes) (rb : RingBuf) : Type 0 where
  pub stored : length block ≡ rb.size
  pub room : 0 < rb.size
  pub small : rb.size < size_mod
  pub head_in : rb.head < rb.size
  pub tail_in : rb.tail < rb.size
  pub count_in : rb.count ≤ rb.size
  pub head_at : rb.head ≡ (rb.tail + rb.count) % rb.size

pub add_size-one : {i n : ℕ} → i < n → n < size_mod → add_size i 1 ≡ i + 1
add_size-one h k = omega arith

pub next_index_in : {i n : ℕ} → i < n → (i + 1) % n < n
next_index_in h = omega arith

pub next_index : (t c n : ℕ) → ((t + c) % n + 1) % n ≡ (t + (c + 1)) % n
next_index t c n = rw mod-add-mod (ap (λ k. k % n) (omega arith))

pub next_index_full : (t n : ℕ) → t < n → (t + n) % n ≡ t
next_index_full t n h = grind arith

pub next_index_pop : (t c n : ℕ) → 0 < c → ((t + 1) % n + (c - 1)) % n ≡ (t + c) % n
next_index_pop t c n h = rw mod-add-mod (ap (λ k. k % n) (omega arith))

pub advance-IsValid :
    {block : Bytes} {rb : RingBuf} (byte : ℕ)
    → IsValid block rb
    → IsValid (set block rb.head byte) (advance rb)
unfolding advance
advance-IsValid {block} {rb} byte v = ground (
  arith,
  length-set block head byte,
  add_size-one v.head_in v.small,
  add_size-one v.tail_in v.small,
  next_index tail count size,
  next_index_full tail size v.tail_in,
  next_index_full ((tail + 1) % size) size (next_index_in v.tail_in),
)
  where
    open rb use {head, tail, count, size}

-- `rb_init` with a block of `size` bytes gives a valid, empty ring.
pub rb_init-IsValid :
    (block : Bytes) (size : ℕ) (rb : RingBuf)
    → length block ≡ size
    → 0 < size
    → size < size_mod
    → let (done, rb') = rb_init (some block) size rb in
      (done ≡ true) × (rb'.buffer ≡ some block) × (rb'.count ≡ 0) × IsValid block rb'
unfolding rb_init
rb_init-IsValid block size rb e pos small = ground arith

-- The ring after one round of the loop of `rb_read`.
abbrev pub popped : RingBuf → RingBuf
popped rb = record rb { tail = add_size rb.tail 1 % rb.size; count = rb.count - 1 }

pub popped-IsValid :
    {block : Bytes} {rb : RingBuf} → IsValid block rb → 0 < rb.count → IsValid block (popped rb)
popped-IsValid {block} {rb} v pos = ground (
  arith,
  add_size-one v.tail_in v.small,
  next_index_in v.tail_in,
  next_index_pop rb.tail rb.count rb.size pos,
)
