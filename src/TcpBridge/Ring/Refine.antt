-- ===== src/TcpBridge/Ring/Refine.antt =====
-- A valid ring is the lossy queue of the bytes that it holds: the two directions of its traffic.
use native.Mathlib.Nat.{mod-add-mod, mod-eq_of_lt, mod-eq-sub-mod, add-zero}
use native.Mathlib.Decide.{dec_lt}
use esp8266_rtos_projects.Prelude.{
  ℕ, zero, suc, ◌+◌, ◌-◌, ◌%◌, ◌<◌, ◌≡◌, ◌≢◌, refl, ◌∙◌, ap, ap₂, sym, some, [], ◌∷◌, ◌++◌,
  append-nil, Bytes, length, length-append, get_or, get_or-set_self, get_or-set_ne, set, drop,
  arith,
}
use esp8266_rtos_projects.TcpBridge.LossyQueue
use esp8266_rtos_projects.TcpBridge.LossyQueue.{keep_last, keep_last_all, keep_last-append}
use esp8266_rtos_projects.TcpBridge.Ring.{RingBuf, advance, write_loop, rb_write}
use esp8266_rtos_projects.TcpBridge.Ring.Valid.{
  IsValid, add_size-one, next_index_in, next_index_full, advance-IsValid,
}

-- The `n` bytes of the storage from index `t` on, going round at `size`.
abbrev pub held : Bytes → ℕ → ℕ → ℕ → Bytes
held block size t zero = []
held block size t (suc n) = get_or block t 0 ∷ held block size ((t + 1) % size) n

abbrev pub contents : Bytes → RingBuf → Bytes
contents block rb = held block rb.size rb.tail rb.count

pub length-held : (block : Bytes) (size t n : ℕ) → length (held block size t n) ≡ n
length-held block size t zero = refl
length-held block size t (suc n) = ap suc (length-held block size ((t + 1) % size) n)

-- One more byte, at the end.
held-snoc :
    (block : Bytes) (size t n : ℕ)
    → t < size
    → held block size t (suc n) ≡ held block size t n ++ get_or block ((t + n) % size) 0 ∷ []
held-snoc block size t zero h = rw (add-zero, mod-eq_of_lt h)
held-snoc block size t (suc n) h =
    ap (λ r. get_or block t 0 ∷ r)
      (held-snoc block size ((t + 1) % size) n (next_index_in h)
        ∙ ap (λ i. held block size ((t + 1) % size) n ++ get_or block i 0 ∷ []) shift)
  where
    shift : ((t + 1) % size + n) % size ≡ (t + suc n) % size
    shift = rw mod-add-mod (ap (λ k. k % size) (omega arith))

ahead-ne : {size t k : ℕ} → t < size → suc k < size → (t + suc k) % size ≢ t
ahead-ne {size} {t} {k} h hk = elim (dec_lt (t + suc k) size) [
  | yes below ↦ omega (arith, mod-eq_of_lt below)
  | no over ↦ omega (
    arith,
    mod-eq-sub-mod {n = t + suc k} {m = size} (omega arith),
    mod-eq_of_lt {n = t + suc k - size} {m = size} (omega arith),
  )
]

-- A write at an index past the held bytes leaves them alone.
held-set :
    (block : Bytes) (size t n i x : ℕ)
    → t < size
    → n < size
    → i ≡ (t + n) % size
    → held (set block i x) size t n ≡ held block size t n
held-set block size t zero i x h hn e = refl
held-set block size t (suc n) i x h hn e =
    ap₂ ◌∷◌ (get_or-set_ne block x 0 (rw e (ahead-ne h hn)))
      (held-set block size ((t + 1) % size) n i x (next_index_in h) (omega arith) (e ∙ shift))
  where
    shift : (t + suc n) % size ≡ ((t + 1) % size + n) % size
    shift = rw mod-add-mod (ap (λ k. k % size) (omega arith))

-- A byte written just past the held bytes is one more of them.
held-push :
    (block : Bytes) (size t n i x : ℕ)
    → length block ≡ size
    → t < size
    → n < size
    → i ≡ (t + n) % size
    → held (set block i x) size t (suc n) ≡ held block size t n ++ x ∷ []
held-push block size t n i x hb ht hn e =
    held-snoc (set block i x) size t n ht
    ∙ ap₂ (λ r b. r ++ b ∷ []) (held-set block size t n i x ht hn e)
        (ap (λ j. get_or (set block i x) j 0) (sym e)
          ∙ get_or-set_self block i x 0 (omega (arith, next_in)))
  where
    next_in : (t + n) % size < size
    next_in = omega arith

-- In a full ring the byte takes the place of the oldest one.
held-overwrite :
    (block : Bytes) (size t m x : ℕ)
    → length block ≡ size
    → t < size
    → size ≡ suc m
    → held (set block t x) size ((t + 1) % size) (suc m)
      ≡ drop 1 (held block size t (suc m)) ++ x ∷ []
held-overwrite block size t m x hb ht hs =
    held-push block size ((t + 1) % size) m t x hb (next_index_in ht) (omega arith) (
      sym
        (mod-add-mod (t + 1) size m ∙ ap (λ k. k % size) (omega arith) ∙ next_index_full t size ht))

held-overwrite_all :
    (block : Bytes) (size t n m x : ℕ)
    → length block ≡ size
    → t < size
    → size ≡ suc m
    → n ≡ suc m
    → held (set block t x) size ((t + 1) % size) n
      ≡ LossyQueue.write size (held block size t n) (x ∷ [])
held-overwrite_all block size t n m x hb ht hs hn = rw hn (
    held-overwrite block size t m x hb ht hs
    ∙ ap (λ k. drop k (held block size t (suc m) ++ x ∷ [])) {x = 1}
        (omega (
          arith,
          length-append (held block size t (suc m)) (x ∷ []),
          length-held block size t (suc m),
        )))

advance-room :
    {block : Bytes} {rb : RingBuf}
    → IsValid block rb
    → rb.count < rb.size
    → advance rb ≡ record rb { head = (rb.head + 1) % rb.size; count = suc rb.count }
unfolding advance
advance-room {rb} v p = ground (arith, add_size-one v.head_in v.small, add_size-one p v.small)

advance-full :
    {block : Bytes} {rb : RingBuf}
    → IsValid block rb
    → rb.count ≡ rb.size
    → advance rb ≡ record rb { head = (rb.head + 1) % rb.size; tail = (rb.tail + 1) % rb.size }
unfolding advance
advance-full {rb} v p =
    ground (arith, add_size-one v.head_in v.small, add_size-one v.tail_in v.small)

-- One byte written: appended, and the oldest byte forgotten if there was no room.
pub contents-advance :
    {block : Bytes} {rb : RingBuf} (byte : ℕ)
    → IsValid block rb
    → contents (set block rb.head byte) (advance rb)
      ≡ LossyQueue.write rb.size (contents block rb) (byte ∷ [])
contents-advance {block} {rb} byte v = elim (dec_lt rb.count rb.size) [
  | yes p ↦ rw (advance-room v p) (
      held-push block size tail count head byte v.stored v.tail_in p v.head_at
      ∙ sym (keep_last_all size _ (omega (arith, total))))
  | no p ↦
      let full : count ≡ size = omega arith in
      rw (advance-full v full) (
        ap (λ i. held (set block i byte) size ((tail + 1) % size) count)
          (v.head_at ∙ ap (λ c. (tail + c) % size) full ∙ next_index_full tail size v.tail_in)
        ∙ held-overwrite_all block size tail count (size - 1) byte v.stored v.tail_in (omega arith)
            (omega arith))
]
  where
    open rb use {size, tail, head, count}

    total : length (contents block rb ++ byte ∷ []) ≡ suc count
    total =
        omega
          (arith, length-append (contents block rb) (byte ∷ []), length-held block size tail count)

-- The storage after the loop of `rb_write`.
abbrev pub written : Bytes → RingBuf → Bytes → Bytes
written block rb [] = block
written block rb (byte ∷ rest) = written (set block rb.head byte) (advance rb) rest

size-advance : (rb : RingBuf) → (advance rb).size ≡ rb.size
unfolding advance
size-advance rb = ground arith

-- What the loop of `rb_write` leaves.
record Wrote (block : Bytes) (rb : RingBuf) (bytes : Bytes) : Type 0 where
  kept : (write_loop block rb bytes).buffer ≡ some (written block rb bytes)
  valid : IsValid (written block rb bytes) (write_loop block rb bytes)
  same : (write_loop block rb bytes).size ≡ rb.size
  lossy :
      contents (written block rb bytes) (write_loop block rb bytes)
      ≡ LossyQueue.write rb.size (contents block rb) bytes

write_loop-Wrote :
    {block : Bytes} (rb : RingBuf) (bytes : Bytes) → IsValid block rb → Wrote block rb bytes
unfolding write_loop
write_loop-Wrote {block} rb [] v = record {
  kept = refl;
  valid = omega arith;
  same = refl;
  lossy =
      rw append-nil
        (sym (keep_last_all rb.size _ (omega (arith, length-held block rb.size rb.tail rb.count))));
}
write_loop-Wrote {block} rb (byte ∷ rest) v =
    let ih = write_loop-Wrote (advance rb) rest (advance-IsValid byte v) in
    record {
      kept = ih.kept;
      valid = ih.valid;
      same = ih.same ∙ size-advance rb;
      lossy =
          ih.lossy
          ∙ ap₂ (λ n q. LossyQueue.write n q rest) (size-advance rb) (contents-advance byte v)
          ∙ LossyQueue.write-write rb.size (contents block rb) (byte ∷ []) rest;
    }

-- `rb_write` never fails: a valid ring stays valid, and then holds the last `size` bytes of what it
-- held followed by what was written.
pub rb_write_refines :
    {block : Bytes} {rb : RingBuf} (bytes : Bytes)
    → rb.buffer ≡ some block
    → IsValid block rb
    → (block' : Bytes) × ((rb_write rb bytes).buffer ≡ some block')
      × IsValid block' (rb_write rb bytes)
      × ((rb_write rb bytes).size ≡ rb.size)
      × (contents block' (rb_write rb bytes) ≡ LossyQueue.write rb.size (contents block rb) bytes)
unfolding rb_write
rb_write_refines {block} {rb} bytes e v =
    let w = write_loop-Wrote rb bytes v in
    rw (e, rb_write) (written block rb bytes, w.kept, w.valid, w.same, w.lossy)
