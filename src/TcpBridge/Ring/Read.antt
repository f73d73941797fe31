-- ===== src/TcpBridge/Ring/Read.antt =====
-- `rb_read` of a valid ring takes the oldest bytes, and writes nothing else into `dst`.
use native.Mathlib.Decide.{dec_lt}
use esp8266_rtos_projects.Prelude.{
  ℕ, zero, suc, ◌+◌, ◌-◌, ◌%◌, ◌≤◌, ◌<◌, ◌≡◌, refl, ◌∙◌, ap, ap₂, sym, some, List, [], ◌∷◌, ◌++◌,
  append_assoc, Bytes, length, length-set, get_or, set, take, drop, take-set, drop-set,
  take-append-drop, min, arith, take_append, length-take,
}
use esp8266_rtos_projects.TcpBridge.LossyQueue
use esp8266_rtos_projects.TcpBridge.LossyQueue.{Op, put, get}
use esp8266_rtos_projects.TcpBridge.Ring.{RingBuf, read_loop, rb_read, run}
use esp8266_rtos_projects.TcpBridge.Ring.Valid.{IsValid, add_size-one, popped, popped-IsValid}
use esp8266_rtos_projects.TcpBridge.Ring.Refine.{held, contents, length-held, rb_write_refines}

contents-popped :
    {block : Bytes} {rb : RingBuf}
    → IsValid block rb
    → 0 < rb.count
    → contents block rb ≡ get_or block rb.tail 0 ∷ contents block (popped rb)
contents-popped {block} {rb} v pos =
    let e : rb.count ≡ suc (rb.count - 1) = omega arith in
    ap (held block rb.size rb.tail) e
    ∙ ap (λ i. get_or block rb.tail 0 ∷ held block rb.size (i % rb.size) (rb.count - 1))
        (sym (add_size-one v.tail_in v.small))

-- What the loop of `rb_read` returns, with `left` rounds left and `k` bytes read.
record Read (left : ℕ) (block : Bytes) (rb : RingBuf) (k : ℕ) (dst : Bytes)
    (out : ℕ × Bytes × RingBuf) : Type 0 where
  cnt : out.0 ≡ k + min left rb.count
  bytes : out.1 ≡ take k dst ++ (take left (contents block rb) ++ drop (k + min left rb.count) dst)
  valid : IsValid block out.2
  buffer : out.2.buffer ≡ rb.buffer
  size : out.2.size ≡ rb.size
  rest : contents block out.2 ≡ drop left (contents block rb)

read_loop-stop :
    (left : ℕ) (block : Bytes) (rb : RingBuf) (k : ℕ) (dst : Bytes)
    → rb.count ≡ 0
    → read_loop (suc left) block rb k dst ≡ (k, dst, rb)
unfolding read_loop
read_loop-stop left block rb k dst e = ground arith

read_loop-more :
    (left : ℕ) (block : Bytes) (rb : RingBuf) (k : ℕ) (dst : Bytes)
    → 0 < rb.count
    → read_loop (suc left) block rb k dst
      ≡ read_loop left block (popped rb) (suc k) (set dst k (get_or block rb.tail 0))
unfolding read_loop
read_loop-more left block rb k dst pos = ground arith

module _ (left : ℕ) {block : Bytes} (rb : RingBuf) (k : ℕ) (dst : Bytes)
    (v : IsValid block rb) where
  Read-stop : rb.count ≡ 0 → Read (suc left) block rb k dst (k, dst, rb)
  Read-stop e = record {
    cnt = omega arith;
    bytes = sym (
        ap (λ r. take k dst ++ (take (suc left) r ++ drop (k + min (suc left) rb.count) dst)) empty
        ∙ ap (λ j. take k dst ++ drop j dst) (omega arith)
        ∙ take-append-drop k dst);
    valid = v;
    buffer = refl;
    size = refl;
    rest = empty ∙ sym (ap (drop (suc left)) empty);
  }
    where
      empty : contents block rb ≡ []
      empty = ap (held block rb.size rb.tail) e

  Read-more :
      {out : ℕ × Bytes × RingBuf}
      → 0 < rb.count
      → k < length dst
      → Read left block (popped rb) (suc k) (set dst k (get_or block rb.tail 0)) out
      → Read (suc left) block rb k dst out
  Read-more pos h r = record {
    cnt = omega (arith, r.cnt);
    bytes =
        r.bytes
        ∙ rw
            (
              take-set k dst _ h,
              drop-set k (suc k + min left (rb.count - 1)) dst _ (omega arith),
              contents-popped v pos,
              append_assoc,
            )
            (ap
              (λ j.
                take k dst
                ++ (get_or block rb.tail 0
                    ∷ (take left (contents block (popped rb)) ++ drop j dst)))
              (omega arith));
    valid = r.valid;
    buffer = r.buffer;
    size = r.size;
    rest = r.rest ∙ sym (ap (drop (suc left)) (contents-popped v pos));
  }

read_loop-Read :
    (left : ℕ) {block : Bytes} (rb : RingBuf) (k : ℕ) (dst : Bytes)
    → IsValid block rb
    → k + left ≤ length dst
    → Read left block rb k dst (read_loop left block rb k dst)
read_loop-Read zero rb k dst v h = record {
  cnt = unfold read_loop in omega arith;
  bytes =
      unfold read_loop in
      sym (ap (λ j. take k dst ++ drop j dst) (omega arith) ∙ take-append-drop k dst);
  valid = unfold read_loop in v;
  buffer = unfold read_loop in refl;
  size = unfold read_loop in refl;
  rest = unfold read_loop in refl;
}
read_loop-Read (suc left) {block} rb k dst v h = elim (dec_lt 0 rb.count) [
  | yes more ↦ rw (read_loop-more left block rb k dst more) (
      Read-more left rb k dst v more (omega arith) (
        read_loop-Read left (popped rb) (suc k) (set dst k (get_or block rb.tail 0))
          (popped-IsValid v more) (omega (arith, length-set dst k (get_or block rb.tail 0)))))
  | no stop ↦
      rw (read_loop-stop left block rb k dst (omega arith))
        (Read-stop left rb k dst v (omega arith))
]

-- `rb_read` into a `dst` of at least `max_len` bytes returns how many bytes it took, the smaller of
-- `max_len` and the bytes held; those are the oldest bytes, in order, and stand at the front of
-- `dst`, whose other bytes are untouched; the ring stays valid and holds the rest.
pub rb_read_refines :
    {block : Bytes} {rb : RingBuf} (dst : Bytes) (max_len : ℕ)
    → rb.buffer ≡ some block
    → IsValid block rb
    → max_len ≤ length dst
    → let (cnt, dst', rb') = rb_read rb dst max_len in
      let (out, rest) = LossyQueue.read max_len (contents block rb) in
      (cnt ≡ min max_len (length (contents block rb)))
      × (dst' ≡ out ++ drop cnt dst)
      × (rb'.buffer ≡ some block)
      × IsValid block rb'
      × (rb'.size ≡ rb.size)
      × (contents block rb' ≡ rest)
unfolding rb_read
rb_read_refines {block} {rb} dst max_len e v h =
    let r = read_loop-Read max_len rb 0 dst v (omega arith) in
    rw (e, rb_read)
      (
        omega (arith, r.cnt, length-held block rb.size rb.tail rb.count),
        r.bytes ∙ ap (λ j. take max_len (contents block rb) ++ drop j dst) (sym r.cnt),
        r.buffer ∙ e,
        r.valid,
        r.size,
        r.rest,
      )

module _ (fresh : ℕ → Bytes) (roomy : (n : ℕ) → n ≤ length (fresh n)) where
  -- Any sequence of writes and reads of a valid ring gives the results that the lossy queue of
  -- what it holds gives.
  pub run_refines :
      (ops : List Op) {block : Bytes} {rb : RingBuf}
      → rb.buffer ≡ some block
      → IsValid block rb
      → run fresh rb ops ≡ LossyQueue.run rb.size (contents block rb) ops
  unfolding run LossyQueue.run
  run_refines [] e v = refl
  run_refines (put bytes ∷ ops) {block} {rb} e v =
      let (block', e', v', size, lossy) = rb_write_refines bytes e v in
      run_refines ops e' v' ∙ ap₂ (λ n q. LossyQueue.run n q ops) size lossy
  run_refines (get n ∷ ops) {block} {rb} e v =
      let (cnt, bytes, e', v', size, rest) = rb_read_refines (fresh n) n e v (roomy n) in
      ap₂ ◌∷◌
        (ap (take (rb_read rb (fresh n) n).0) bytes
          ∙ take_append (take n (contents block rb)) _ _
              (cnt ∙ sym (length-take n (contents block rb))))
        (run_refines ops e' v' ∙ ap₂ (λ m q. LossyQueue.run m q ops) size rest)
