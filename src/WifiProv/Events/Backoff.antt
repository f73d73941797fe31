-- ===== src/WifiProv/Events/Backoff.antt =====
-- How often, and after which delays, the handler reconnects.
use esp8266_rtos_projects.Prelude.{
  ℕ, zero, suc, ◌+◌, ◌-◌, ◌*◌, ◌≤◌, ◌<◌, ◌≡◌, refl, ap, List, [], ◌∷◌, ◌++◌, min, replicate, arith,
}
use native.Mathlib.Decide.{dec_lt}
use esp8266_rtos_projects.WifiProv.State.{Prov, Action, delay, connect}
use esp8266_rtos_projects.WifiProv.Events.{
  max_retry, Event, sta_got_ip, sta_disconnected, wifi_event_handler, run,
}

-- `m` attempts after `r` failed ones, each 1500 ms later than the one before.
abbrev pub backoff : ℕ → ℕ → List Action
backoff r zero = []
backoff r (suc m) = delay ((r + 1) * 1500) ∷ connect ∷ backoff (r + 1) m

step-again :
    (s : Prov)
    → s.retry_num < max_retry
    → wifi_event_handler sta_disconnected s
      ≡ (record s { retry_num = s.retry_num + 1 }, delay ((s.retry_num + 1) * 1500) ∷ connect ∷ [])
unfolding wifi_event_handler
step-again s h = ground arith

step-give_up :
    (s : Prov) → s.retry_num ≡ max_retry → wifi_event_handler sta_disconnected s ≡ (s, [])
unfolding wifi_event_handler
step-give_up s h = ground arith

left : Prov → ℕ
left s = max_retry - s.retry_num

-- On `k` disconnections in a row the handler makes as many attempts as are left of the five,
-- the n-th attempt n times 1500 ms after its event, and does nothing on the others.
pub run-disconnected :
    (k : ℕ) (s : Prov)
    → s.retry_num ≤ max_retry
    → let m = min k (max_retry - s.retry_num) in
      run (replicate k sta_disconnected) s
      ≡ (record s { retry_num = s.retry_num + m }, backoff s.retry_num m)
unfolding run
run-disconnected zero s h = ground arith
run-disconnected (suc k) s h = elim (dec_lt r max_retry) [
  | yes p ↦
      let m = min k (max_retry - (r + 1)) in
      let more : min (suc k) (max_retry - r) ≡ suc m = omega arith in
      rw (step-again s p, run-disconnected k (record s { retry_num = r + 1 }) (omega arith), more)
        (ap (λ n. (record s { retry_num = n }, backoff r (suc m))) (omega arith))
  | no p ↦
      let none_left : min k (max_retry - r) ≡ min (suc k) (max_retry - r) = omega arith in
      rw (step-give_up s (omega arith), run-disconnected k s h, none_left) refl
]
  where
    r : ℕ
    r = s.retry_num

abbrev pub connects : List Action → ℕ
connects [] = 0
connects (connect ∷ calls) = suc (connects calls)
connects (_ ∷ calls) = connects calls

abbrev pub got_ips : List Event → ℕ
got_ips [] = 0
got_ips (sta_got_ip ∷ es) = suc (got_ips es)
got_ips (_ ∷ es) = got_ips es

connects-append : (xs ys : List Action) → connects (xs ++ ys) ≡ connects xs + connects ys
connects-append [] ys = omega arith
connects-append (connect ∷ xs) ys = omega (arith, connects-append xs ys)
connects-append (delay n ∷ xs) ys = connects-append xs ys
connects-append (_ ∷ xs) ys = connects-append xs ys

step-bounded :
    (e : Event) (s : Prov)
    → s.retry_num ≤ max_retry
    → let (t, now) = wifi_event_handler e s in
      (t.retry_num ≤ max_retry)
      × (connects now + (max_retry - t.retry_num)
          ≤ (max_retry - s.retry_num) + max_retry * got_ips (e ∷ []))
unfolding wifi_event_handler
step-bounded sta_got_ip s h = ground arith
step-bounded sta_disconnected s h = ground arith
step-bounded _ s h = ground arith

got_ips-cons : (e : Event) (es : List Event) → got_ips (e ∷ es) ≡ got_ips (e ∷ []) + got_ips es
got_ips-cons sta_got_ip es = omega arith
got_ips-cons _ es = omega arith

-- Whatever events come, in any order, the counter stays within `MAX_RETRY`, and the attempts to
-- reconnect are at most those left at the start and five for each time that an address was got.
pub run-bounded :
    (es : List Event) (s : Prov)
    → s.retry_num ≤ max_retry
    → let (t, calls) = run es s in
      (t.retry_num ≤ max_retry)
      × (connects calls + (max_retry - t.retry_num)
          ≤ (max_retry - s.retry_num) + max_retry * got_ips es)
unfolding run
run-bounded [] s h = omega arith
run-bounded (e ∷ es) s h =
    let (h', now) = step-bounded e s h in
    let t = (wifi_event_handler e s).0 in
    let (h'', later) = run-bounded es t h' in
    (
      h'',
      omega (
        arith,
        now,
        later,
        got_ips-cons e es,
        connects-append (wifi_event_handler e s).1 (run es t).1,
      ),
    )
