-- ===== src/FactoryTest/Ranges.antt =====
-- What the radio is asked for.
use esp8266_rtos_projects.Prelude.{
  ℕ, zero, suc, ◌≡◌, refl, Bool, true, ◌&&◌, some, inl, inr, Option-cases, List, [], ◌∷◌, ◌++◌,
  Bytes, leb, arith,
}
use esp8266_rtos_projects.Libc.Text.{atoi, int_of}
use esp8266_rtos_projects.Libc.Decimal.{ℤ, pos, negsuc}
use esp8266_rtos_projects.FactoryTest.{
  RfCall, rftest_init, tx_contin_func, esp_tx_func, esp_rx_func, wifiscwout_func, Radio,
  set_wifi_work, set_wifi_free, call_now, start_thread, remove, thread_ends,
}
use esp8266_rtos_projects.FactoryTest.Commands.{
  test_rftest_init, test_tx_contin_en, test_esp_tx_func, test_esp_rx_func, test_wifiscwout_func,
  test_cmdstop_func, Command, rftest_init_cmd, tx_contin_en, esp_tx, esp_rx, wifiscwout, cmdstop,
  run_command, Step, enter, ends, step, steps,
}

abbrev within_127 : ℤ → Bool
within_127 (pos k) = leb k 127
within_127 (negsuc k) = leb k 126

-- The channels of the band, the rates, and what the other arguments may be.
abbrev pub allowed : RfCall → Bool
allowed rftest_init = true
allowed (tx_contin_func mode) = leb mode 1
allowed (esp_tx_func channel rate attenuation) =
    leb 1 channel && (leb channel 14 && (leb rate 23 && within_127 (int_of attenuation)))
allowed (esp_rx_func channel rate) = leb 1 channel && (leb channel 14 && leb rate 23)
allowed (wifiscwout_func en channel attenuation) =
    leb en 2 && (leb 1 channel && (leb channel 14 && within_127 (int_of attenuation)))

abbrev pub all_allowed : List RfCall → Bool
all_allowed [] = true
all_allowed (c ∷ cs) = allowed c && all_allowed cs

all_allowed-append :
    (cs : List RfCall) (c : RfCall)
    → all_allowed cs ≡ true
    → allowed c ≡ true
    → all_allowed (cs ++ c ∷ []) ≡ true
all_allowed-append [] c h hc = ground arith
all_allowed-append (d ∷ cs) c h hc = ground (arith, all_allowed-append cs c)

abbrev pub radio_allowed : Radio → Bool
radio_allowed r = all_allowed r.threads && all_allowed r.called

call_now-allowed :
    (c : RfCall) (r : Radio)
    → radio_allowed r ≡ true
    → allowed c ≡ true
    → radio_allowed (call_now c r).1 ≡ true
unfolding call_now set_wifi_work set_wifi_free
call_now-allowed c r h hc = ground (arith, all_allowed-append r.called c)

start_thread-allowed :
    (m t : Bool) (c : RfCall) (r : Radio)
    → radio_allowed r ≡ true
    → allowed c ≡ true
    → radio_allowed (start_thread m t c r).1 ≡ true
unfolding start_thread set_wifi_work
start_thread-allowed m t c r h hc = ground (arith, all_allowed-append r.threads c)

remove-allowed :
    (k : ℕ) (cs rest : List RfCall)
    → all_allowed cs ≡ true
    → remove k cs ≡ some rest
    → all_allowed rest ≡ true
unfolding remove
remove-allowed k [] rest h e = ground arith
remove-allowed zero (c ∷ cs) rest h e = ground arith
remove-allowed (suc k) (c ∷ cs) [] h e = refl
remove-allowed (suc k) (c ∷ cs) (d ∷ rest) h e = ground (arith, remove-allowed k cs rest)

command-allowed :
    (cmd : Command) (m t : Bool) (argv : List Bytes) (r : Radio)
    → radio_allowed r ≡ true
    → radio_allowed (run_command cmd m t argv r).1 ≡ true
unfolding run_command test_rftest_init test_tx_contin_en test_esp_tx_func test_esp_rx_func
    test_wifiscwout_func test_cmdstop_func set_wifi_free
command-allowed rftest_init_cmd m t (name ∷ []) r h = call_now-allowed rftest_init r h refl
command-allowed rftest_init_cmd m t argv r h = ground arith
command-allowed tx_contin_en m t (name ∷ a ∷ []) r h =
    ground (arith, call_now-allowed (tx_contin_func (atoi a)) r h)
command-allowed tx_contin_en m t argv r h = ground arith
command-allowed esp_tx m t (name ∷ a ∷ b ∷ c ∷ []) r h =
    ground (arith, start_thread-allowed m t (esp_tx_func (atoi a) (atoi b) (atoi c)) r h)
command-allowed esp_tx m t argv r h = ground arith
command-allowed esp_rx m t (name ∷ a ∷ b ∷ []) r h =
    ground (arith, start_thread-allowed m t (esp_rx_func (atoi a) (atoi b)) r h)
command-allowed esp_rx m t argv r h = ground arith
command-allowed wifiscwout m t (name ∷ a ∷ b ∷ c ∷ []) r h =
    ground (arith, start_thread-allowed m t (wifiscwout_func (atoi a) (atoi b) (atoi c)) r h)
command-allowed wifiscwout m t argv r h = ground arith
command-allowed cmdstop m t argv r h = ground arith

step-allowed : (s : Step) (r : Radio) → radio_allowed r ≡ true → radio_allowed (step s r) ≡ true
unfolding step thread_ends set_wifi_free
step-allowed (enter cmd m t argv) r h = command-allowed cmd m t argv r h
step-allowed (ends k) r h = elim (Option-cases (remove k r.threads)) [
  | inl none_ends ↦ ground arith
  | inr (rest, e) ↦ ground (arith, remove-allowed k r.threads rest)
]

-- Whatever is typed, in any order, and whatever tests end between: the radio is only ever asked for a
-- channel from 1 to 14, a rate from 0 to 23, an attenuation from -127 to 127, a mode of 0 or 1 and an
-- enable of 0 to 2.
pub steps-allowed :
    (ss : List Step) (r : Radio) → radio_allowed r ≡ true → radio_allowed (steps ss r) ≡ true
unfolding steps
steps-allowed [] r h = h
steps-allowed (s ∷ ss) r h = steps-allowed ss (step s r) (step-allowed s r h)
