-- ===== src/TcpBridge/Session/Traffic/Uplink.antt =====
-- The bytes from the UART to the client.
use esp8266_rtos_projects.Prelude.{
  ◌-◌, ◌≡◌, refl, sym, ap, ◌∙◌, Bool, true, false, [], ◌∷◌, ◌++◌, append_assoc, Bytes, length,
  length-append, length-take, length-drop, take, drop, take_all, Option-cases, inl, inr,
  take-append-drop, arith,
}
use esp8266_rtos_projects.TcpBridge.LossyQueue.{keep_last_all}
use esp8266_rtos_projects.TcpBridge.Ring.{uart_cache_size}
use esp8266_rtos_projects.TcpBridge.Session.{
  buf_size, Worker, gone, buf_start, buf_loop, buf_read, buf_send, buf_stop, buf_give, Shared,
  Answer, give, worker_step, capturing, World, daemon_step,
}
use esp8266_rtos_projects.TcpBridge.Session.Traffic.{is_buf, pending, Up, SameUp, Up-same}

pub nil_of_length : (s : Bytes) → length s ≡ 0 → s ≡ []
nil_of_length [] h = refl
nil_of_length (c ∷ s) h = absurd (omega arith)

-- The sending task.
pub read-Up :
    (a : Answer) (s : Shared) → Up s buf_read → let (s', w') = worker_step a s buf_read in Up s' w'
unfolding worker_step
read-Up a s u = record {
  count = ground (
    arith,
    u.count,
    split,
    length-append (take buf_size s.cache) (drop buf_size s.cache),
    ap length split,
  );
  exact = λ f n. ground (arith, u.exact, split);
}
  where
    split : take buf_size s.cache ++ drop buf_size s.cache ≡ s.cache
    split = take-append-drop buf_size s.cache

pub send-Up :
    (a : Answer) (s : Shared) (bytes : Bytes)
    → Up s (buf_send bytes)
    → let (s', w') = worker_step a s (buf_send bytes) in Up s' w'
unfolding worker_step
send-Up a s bytes u = elim (Option-cases a.sent) [
  | inl failed ↦
      rw (failed, worker_step)
        (record {
          count = omega (arith, u.count);
          exact = λ f n.
              u.exact f (omega arith)
              ∙ ap (λ b. s.to_client ++ (b ++ s.cache)) (nil_of_length bytes (omega arith));
        })
  | inr (n, sent) ↦
      rw (sent, worker_step)
        (record {
          count =
              omega (arith, u.count, length-append s.to_client (take n bytes), length-take n bytes);
          exact = λ f z.
              rw (take_all n bytes (omega arith))
                (u.exact f (omega arith) ∙ sym (append_assoc s.to_client bytes s.cache));
        })
]

pub same-Up : (s : Shared) (v w : Worker) → pending v ≡ pending w → Up s v → Up s w
same-Up s v w e u = record {
  count = omega (arith, u.count, ap length e);
  exact = λ f n. u.exact f n ∙ ap (λ b. s.to_client ++ (b ++ s.cache)) e;
}

pub buf_step-is_buf :
    (a : Answer) (s : Shared) (w : Worker) → is_buf w ≡ true → is_buf (worker_step a s w).1 ≡ true
unfolding worker_step
buf_step-is_buf a s buf_read h = ground arith
buf_step-is_buf a s (buf_send bytes) h = ground arith
buf_step-is_buf a s _ h = ground arith

-- The steps that move no bytes towards the client.
abbrev pub is_quiet : Worker → Bool
is_quiet buf_start = true
is_quiet buf_loop = true
is_quiet buf_stop = true
is_quiet buf_give = true
is_quiet _ = false

pub quiet_step :
    (a : Answer) (s : Shared) (w : Worker)
    → is_quiet w ≡ true
    → SameUp s (worker_step a s w).0 × (pending w ≡ pending (worker_step a s w).1)
unfolding worker_step give
quiet_step a s buf_start h = (ground arith, ground arith)
quiet_step a s buf_loop h = (ground arith, ground arith)
quiet_step a s _ h = (ground arith, ground arith)

pub quiet_step-Up :
    (a : Answer) (s : Shared) (w : Worker)
    → is_quiet w ≡ true
    → Up s w
    → let (s', w') = worker_step a s w in Up s' w'
quiet_step-Up a s w h u =
    let (e, p) = quiet_step a s w h in same-Up (worker_step a s w).0 w _ p (Up-same w e u)

pub buf_step-Up :
    (a : Answer) (s : Shared) (w : Worker)
    → is_buf w ≡ true
    → Up s w
    → let (s', w') = worker_step a s w in Up s' w'
buf_step-Up a s gone h u = unfold worker_step in u
buf_step-Up a s buf_read h u = read-Up a s u
buf_step-Up a s (buf_send bytes) h u = send-Up a s bytes u
buf_step-Up a s buf_start h u = quiet_step-Up a s buf_start refl u
buf_step-Up a s buf_loop h u = quiet_step-Up a s buf_loop refl u
buf_step-Up a s buf_stop h u = quiet_step-Up a s buf_stop refl u
buf_step-Up a s buf_give h u = quiet_step-Up a s buf_give refl u
buf_step-Up a s _ h u = cc

-- The daemon: what is overwritten in the cache is forgotten, and nothing else.
pub capture-Up :
    (a : Answer) (w : World) → Up w.shared w.buf → Up (daemon_step capturing a w).shared w.buf
unfolding daemon_step
capture-Up a w u = record {
  count = omega (
    arith,
    u.count,
    length-append s.captured a.bytes,
    length-append s.cache a.bytes,
    length-drop (length (s.cache ++ a.bytes) - uart_cache_size) (s.cache ++ a.bytes),
  );
  exact = λ f n.
      ap (λ b. b ++ a.bytes) (u.exact (omega arith) (omega arith))
      ∙ append_assoc s.to_client (pending w.buf ++ s.cache) a.bytes
      ∙ ap (λ b. s.to_client ++ b) (append_assoc (pending w.buf) s.cache a.bytes)
      ∙ ap (λ b. s.to_client ++ (pending w.buf ++ b))
          (sym (keep_last_all uart_cache_size (s.cache ++ a.bytes) (omega arith)));
}
  where
    s : Shared
    s = w.shared
