-- ===== src/Iperf/Figures.antt =====
-- What the report prints and when it ends, and what the UDP client counts.
use esp8266_rtos_projects.Prelude.{
  ℕ, ◌+◌, ◌-◌, ◌*◌, ◌/◌, ◌%◌, ◌≤◌, ◌<◌, ◌≡◌, ◌↔◌, refl, false, Option, none, some, List, [], ◌∷◌,
  arith, Bool-cases, inl, inr, leb, length, size_mod, ◌>>=◌, All,
}
use esp8266_rtos_projects.Iperf.{Iperf, Report, delaying}
use esp8266_rtos_projects.Iperf.ReportTask.{Line, interval_bits, report_loop, report_turn}

-- The bits of the line that the task prints when it wakes.
abbrev pub bits_of : Option Line → Option ℕ
bits_of none = none
bits_of (some line) = some line.bits

-- Between two turns of a report task, at totals of at most 2^60 bytes, the line gives the bits that
-- were moved in between and, for each 4 GiB (2^32 bytes) that had been moved before, another 4 GiB:
-- `last_len` has 32 bits, and `total_len` has 64.
pub report_turn-bits :
    (s s' : Iperf) (interval time last_len cur interval' time' last_len' cur' : ℕ)
    → (report_turn s (delaying interval time last_len cur)).1
      ≡ some (delaying interval' time' last_len' cur')
    → s.total_len ≤ s'.total_len
    → s'.total_len ≤ 1152921504606846976
    → bits_of (report_turn s' (delaying interval' time' last_len' cur')).0
      ≡ some ((s'.total_len - s.total_len) * 8 + s.total_len / size_mod * size_mod * 8)
unfolding report_turn report_loop interval_bits
report_turn-bits s s' interval time last_len cur interval' time' last_len' cur' h le bound =
    let last : last_len' ≡ s.total_len % size_mod = ground arith in
    let same : interval_bits s'.total_len last_len'
        ≡ (s'.total_len - s.total_len) * 8 + s.total_len / size_mod * size_mod * 8 =
      omega arith in
    ground (arith, same)

-- The turns of one report task, at the states that it finds.
unfoldable pub report_run : List Iperf → Option Report → Option Report
report_run [] r = r
report_run (s ∷ ss) r = report_run ss (r >>= λ p. (report_turn s p).1)

abbrev Unfinished : Iperf → Type 0
Unfinished s = s.finish ≡ false

report_run-none : (ss : List Iperf) → report_run ss none ≡ none
unfolding report_run
report_run-none [] = refl
report_run-none (s ∷ ss) = report_run-none ss

-- A report task whose run nobody else finishes ends just when its turns have lasted for `time`: neither
-- sooner nor later, where `interval` is positive and the counter does not wrap.
pub report_run-ends :
    (ss : List Iperf) (interval time last_len cur : ℕ)
    → 0 < interval
    → time + interval < size_mod
    → All Unfinished ss
    → cur < time
    → (report_run ss (some (delaying interval time last_len cur)) ≡ none)
      ↔ (time ≤ cur + length ss * interval)
unfolding report_run report_turn report_loop
report_run-ends [] interval time last_len cur pos wrap un lt = ground arith
report_run-ends (s ∷ ss) interval time last_len cur pos wrap (u, un) lt =
    let next : (cur + interval) % size_mod ≡ cur + interval = omega arith in
    let more : cur + (1 + length ss) * interval ≡ cur + interval + length ss * interval =
      omega arith in
    elim (Bool-cases (leb time (cur + interval))) [
      | inl over ↦ ground (arith, report_run-none ss)
      | inr on ↦ ground (
        arith,
        report_run-ends ss interval time (s.total_len % size_mod) (cur + interval) pos wrap un,
      )
    ]
