-- ===== src/FactoryTest/Exclusion.antt =====
-- One test at a time, and a start that fails.
use esp8266_rtos_projects.Prelude.{
  ℕ, zero, suc, ◌≡◌, refl, ap, ◌∙◌, Bool, true, false, ◌&&◌, List, [], ◌∷◌, Bytes, ◌==◌, arith,
}
use esp8266_rtos_projects.Libc.Text.{atoi}
use esp8266_rtos_projects.FactoryTest.{
  RfCall, rftest_init, tx_contin_func, esp_tx_func, esp_rx_func, wifiscwout_func, Radio,
  set_wifi_work, set_wifi_free, call_now, start_thread, remove, thread_ends,
}
use esp8266_rtos_projects.FactoryTest.Commands.{
  test_rftest_init, test_tx_contin_en, test_esp_tx_func, test_esp_rx_func, test_wifiscwout_func,
  Command, rftest_init_cmd, tx_contin_en, esp_tx, esp_rx, wifiscwout, cmdstop, run_command, Step,
  enter, ends, step, steps,
}

-- The commands but cmdstop.
abbrev pub goes_on : Command → Bool
goes_on cmdstop = false
goes_on _ = true

abbrev pub no_stop : List Step → Bool
no_stop [] = true
no_stop (enter cmd m t argv ∷ ss) = goes_on cmd && no_stop ss
no_stop (ends k ∷ ss) = no_stop ss

-- No test runs, or one does and holds the work.
abbrev pub exclusive : Radio → Bool
exclusive r = elim r.threads [
  | [] ↦ true
  | c ∷ cs ↦ elim cs [ [] ↦ r.s_cmdstop == 3 | d ∷ ds ↦ false ]
]

call_now-exclusive :
    (c : RfCall) (r : Radio) → exclusive r ≡ true → exclusive (call_now c r).1 ≡ true
unfolding call_now set_wifi_work set_wifi_free
call_now-exclusive c r h = ground arith

start_thread-exclusive :
    (m t : Bool) (c : RfCall) (r : Radio)
    → exclusive r ≡ true
    → exclusive (start_thread m t c r).1 ≡ true
unfolding start_thread set_wifi_work
start_thread-exclusive m t c r h = ground arith

command-exclusive :
    (cmd : Command) (m t : Bool) (argv : List Bytes) (r : Radio)
    → goes_on cmd ≡ true
    → exclusive r ≡ true
    → exclusive (run_command cmd m t argv r).1 ≡ true
unfolding run_command test_rftest_init test_tx_contin_en test_esp_tx_func test_esp_rx_func
    test_wifiscwout_func
command-exclusive rftest_init_cmd m t (name ∷ []) r g h =
    ground (arith, call_now-exclusive rftest_init r h)
command-exclusive rftest_init_cmd m t argv r g h = ground arith
command-exclusive tx_contin_en m t (name ∷ a ∷ []) r g h =
    ground (arith, call_now-exclusive (tx_contin_func (atoi a)) r h)
command-exclusive tx_contin_en m t argv r g h = ground arith
command-exclusive esp_tx m t (name ∷ a ∷ b ∷ c ∷ []) r g h =
    ground (arith, start_thread-exclusive m t (esp_tx_func (atoi a) (atoi b) (atoi c)) r h)
command-exclusive esp_tx m t argv r g h = ground arith
command-exclusive esp_rx m t (name ∷ a ∷ b ∷ []) r g h =
    ground (arith, start_thread-exclusive m t (esp_rx_func (atoi a) (atoi b)) r h)
command-exclusive esp_rx m t argv r g h = ground arith
command-exclusive wifiscwout m t (name ∷ a ∷ b ∷ c ∷ []) r g h =
    ground (arith, start_thread-exclusive m t (wifiscwout_func (atoi a) (atoi b) (atoi c)) r h)
command-exclusive wifiscwout m t argv r g h = ground arith
command-exclusive cmdstop m t argv r g h = ground arith

remove-exclusive : (k : ℕ) (r : Radio) → exclusive r ≡ true → exclusive (thread_ends k r) ≡ true
unfolding thread_ends remove set_wifi_free
remove-exclusive zero r h = ground arith
remove-exclusive (suc k) r h = ground arith

-- Whatever commands but cmdstop are typed, in any order, with starts that fail or not, and whenever a
-- test ends between: from a state in which no test runs, or a single one that holds the work, there
-- never is more than one test running, and one that runs holds the work.
pub steps-exclusive :
    (ss : List Step) (r : Radio)
    → no_stop ss ≡ true
    → exclusive r ≡ true
    → exclusive (steps ss r) ≡ true
unfolding steps step
steps-exclusive [] r g h = h
steps-exclusive (enter cmd m t argv ∷ ss) r g h =
    steps-exclusive ss _ (ground arith) (command-exclusive cmd m t argv r (ground arith) h)
steps-exclusive (ends k ∷ ss) r g h = steps-exclusive ss _ g (remove-exclusive k r h)

-- The work is taken up, and no test runs that would give it back.
abbrev blocked : Radio → Bool
blocked r = (r.s_cmdstop == 3) && elim r.threads [ [] ↦ true | c ∷ cs ↦ false ]

call_now-blocked : (c : RfCall) (r : Radio) → blocked r ≡ true → (call_now c r).1 ≡ r
unfolding call_now set_wifi_work
call_now-blocked c r h = ground arith

start_thread-blocked :
    (m t : Bool) (c : RfCall) (r : Radio) → blocked r ≡ true → (start_thread m t c r).1 ≡ r
unfolding start_thread set_wifi_work
start_thread-blocked m t c r h = ground arith

command-blocked :
    (cmd : Command) (m t : Bool) (argv : List Bytes) (r : Radio)
    → goes_on cmd ≡ true
    → blocked r ≡ true
    → (run_command cmd m t argv r).1 ≡ r
unfolding run_command test_rftest_init test_tx_contin_en test_esp_tx_func test_esp_rx_func
    test_wifiscwout_func
command-blocked rftest_init_cmd m t (name ∷ []) r g h = call_now-blocked rftest_init r h
command-blocked rftest_init_cmd m t argv r g h = ground arith
command-blocked tx_contin_en m t (name ∷ a ∷ []) r g h =
    ground (arith, call_now-blocked (tx_contin_func (atoi a)) r h)
command-blocked tx_contin_en m t argv r g h = ground arith
command-blocked esp_tx m t (name ∷ a ∷ b ∷ c ∷ []) r g h =
    ground (arith, start_thread-blocked m t (esp_tx_func (atoi a) (atoi b) (atoi c)) r h)
command-blocked esp_tx m t argv r g h = ground arith
command-blocked esp_rx m t (name ∷ a ∷ b ∷ []) r g h =
    ground (arith, start_thread-blocked m t (esp_rx_func (atoi a) (atoi b)) r h)
command-blocked esp_rx m t argv r g h = ground arith
command-blocked wifiscwout m t (name ∷ a ∷ b ∷ c ∷ []) r g h =
    ground (arith, start_thread-blocked m t (wifiscwout_func (atoi a) (atoi b) (atoi c)) r h)
command-blocked wifiscwout m t argv r g h = ground arith
command-blocked cmdstop m t argv r g h = ground arith

thread_ends-blocked : (k : ℕ) (r : Radio) → blocked r ≡ true → thread_ends k r ≡ r
unfolding thread_ends remove
thread_ends-blocked k r h = ground arith

steps-blocked : (ss : List Step) (r : Radio) → no_stop ss ≡ true → blocked r ≡ true → steps ss r ≡ r
unfolding steps step
steps-blocked [] r g h = refl
steps-blocked (enter cmd m t argv ∷ ss) r g h =
    ap (steps ss) (command-blocked cmd m t argv r (ground arith) h)
    ∙ steps-blocked ss r (ground arith) h
steps-blocked (ends k ∷ ss) r g h =
    ap (steps ss) (thread_ends-blocked k r h) ∙ steps-blocked ss r g h

failed_start :
    (m t : Bool) (c : RfCall) (r : Radio)
    → (m && t) ≡ false
    → r.s_cmdstop ≡ 0
    → r.threads ≡ []
    → (start_thread m t c r).1 ≡ record r { s_cmdstop = 3 }
unfolding start_thread set_wifi_work
failed_start m t c r f e n = ground arith

-- Where `malloc` or the creation of the task fails, with the work free and no test running, the start of
-- a test takes up the work for good: whatever commands but cmdstop follow, nothing is called any more.
pub failed_start-stuck :
    (m t : Bool) (c : RfCall) (r : Radio) (ss : List Step)
    → (m && t) ≡ false
    → r.s_cmdstop ≡ 0
    → r.threads ≡ []
    → no_stop ss ≡ true
    → steps ss (start_thread m t c r).1 ≡ record r { s_cmdstop = 3 }
failed_start-stuck m t c r ss f e n g =
    ap (steps ss) (failed_start m t c r f e n)
    ∙ steps-blocked ss (record r { s_cmdstop = 3 }) g (ground arith)
