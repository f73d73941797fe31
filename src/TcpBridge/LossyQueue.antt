-- ===== src/TcpBridge/LossyQueue.antt =====
-- What the ring buffer of tcp_bridge.c promises: a queue of bytes that never blocks its writer and,
-- when it is full, forgets its oldest bytes.
use esp8266_rtos_projects.Prelude.{
  ℕ, ◌-◌, ◌≤◌, ◌≡◌, ◌∙◌, sym, ap, List, [], ◌∷◌, ◌++◌, append_assoc, Bytes, length, length-append,
  length-drop, take, drop, drop-append_le, drop-drop, arith,
}

abbrev pub keep_last : ℕ → Bytes → Bytes
keep_last cap q = drop (length q - cap) q

abbrev pub write : ℕ → Bytes → Bytes → Bytes
write cap q bytes = keep_last cap (q ++ bytes)

abbrev pub read : ℕ → Bytes → Bytes × Bytes
read n q = (take n q, drop n q)

-- A use of the buffer: the daemon's writes and the sender's reads, in the order of the mutex.
pub data Op : Type 0 where
  put : Bytes → Op
  get : ℕ → Op

-- What each read returns.
unfoldable pub run : ℕ → Bytes → List Op → List Bytes
run cap q [] = []
run cap q (put bytes ∷ ops) = run cap (write cap q bytes) ops
run cap q (get n ∷ ops) = let (out, rest) = read n q in out ∷ run cap rest ops

pub keep_last_all : (n : ℕ) (q : Bytes) → length q ≤ n → keep_last n q ≡ q
keep_last_all n q h = ap (λ k. drop k q) {y = 0} (omega arith)

pub length-keep_last : (n : ℕ) (q : Bytes) → length (keep_last n q) ≤ n
length-keep_last n q = omega (arith, length-drop (length q - n) q)

-- What was forgotten once is not needed later.
pub keep_last-append :
    (n : ℕ) (q r : Bytes) → keep_last n (keep_last n q ++ r) ≡ keep_last n (q ++ r)
keep_last-append n q r =
    ap (keep_last n) (sym (drop-append_le k q r (omega arith)))
    ∙ drop-drop (length (drop k (q ++ r)) - n) k (q ++ r)
    ∙ ap (λ n. drop n (q ++ r)) (omega (arith, length-drop k (q ++ r), length-append q r))
  where
    k : ℕ
    k = length q - n

-- Two writes are one.
pub write-write : (n : ℕ) (q r s : Bytes) → write n (write n q r) s ≡ write n q (r ++ s)
write-write n q r s = keep_last-append n (q ++ r) s ∙ ap (keep_last n) (append_assoc q r s)
