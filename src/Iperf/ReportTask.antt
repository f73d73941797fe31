-- ===== src/Iperf/ReportTask.antt =====
-- `iperf_report_task` and `iperf_start_report`.
use esp8266_rtos_projects.Prelude.{
  ℕ, zero, suc, ◌+◌, ◌-◌, ◌*◌, ◌%◌, Bool, true, Option, none, some, List, [], ◌∷◌, ◌++◌, leb,
  size_mod, if◌then◌else◌,
}
use esp8266_rtos_projects.Iperf.{Report, created, delaying, Iperf, total_mod}

-- A line of the report: from which second to which, and the bits.
pub record Line : Type 0 where
  pub from : ℕ
  pub to : ℕ
  pub bits : ℕ

-- `(s_iperf_ctrl.total_len - last_len) * 8`, on 64 bits.
unfoldable pub interval_bits : ℕ → ℕ → ℕ
interval_bits total_len last_len = (total_len + total_mod - last_len) * 8 % total_mod

-- From the test of the loop to the next delay; `none` where the task ends.
unfoldable pub report_loop : Bool → Report → Option Report
report_loop finish created = none
report_loop finish (delaying interval time last_len cur) =
    if finish then none else some (delaying interval time last_len cur)

-- A turn of the task, up to the next delay, with the line that it prints on waking.
unfoldable pub report_turn : Iperf → Report → Option Line × Option Report
report_turn s created = (none, report_loop s.finish (delaying s.cfg.interval s.cfg.time 0 0))
report_turn s (delaying interval time last_len cur) =
    let next = (cur + interval) % size_mod in
    (
      some record { from = cur; to = next; bits = interval_bits s.total_len last_len },
      if leb time next
          then none
          else report_loop s.finish (delaying interval time (s.total_len % size_mod) next),
    )

-- Takes the `k`-th task away.
unfoldable pub pick : ℕ → List Report → Option (Report × List Report)
pick k [] = none
pick zero (r ∷ rs) = some (r, rs)
pick (suc k) (r ∷ rs) = elim (pick k rs) [ none ↦ none | some (p, rest) ↦ some (p, r ∷ rest) ]

-- What the turn leaves: a task that ends sets `finish`.
unfoldable pub keep_report : Iperf → List Report → Option Report → Iperf
keep_report s rest none = record s { finish = true; reports = rest }
keep_report s rest (some r) = record s { reports = r ∷ rest }

-- A turn of the `k`-th report task.
unfoldable pub on_report : ℕ → Iperf → Iperf
on_report k s = elim (pick k s.reports) [
  | none ↦ s
  | some (r, rest) ↦ keep_report s rest (report_turn s r).1
]

-- The argument is whether `xTaskCreatePinnedToCore` succeeds; the callers ignore the result.
unfoldable pub iperf_start_report : Bool → Iperf → Iperf
iperf_start_report ok s = if ok then record s { reports = s.reports ++ created ∷ [] } else s
