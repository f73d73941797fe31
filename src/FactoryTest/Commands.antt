-- ===== src/FactoryTest/Commands.antt =====
-- The commands: the checks of their arguments, and what they call.
use esp8266_rtos_projects.Prelude.{
  codes, ℕ, Bool, ◌&&◌, ◌||◌, List, [], ◌∷◌, Bytes, leb, if◌then◌else◌,
}
use esp8266_rtos_projects.Libc.Text.{atoi}
use esp8266_rtos_projects.FactoryTest.{
  rftest_init, tx_contin_func, esp_tx_func, esp_rx_func, wifiscwout_func, Radio, Ret, ok, einval,
  set_wifi_free, call_now, start_thread, thread_ends,
}

-- `lo <= n && n <= hi` for an `int` and bounds that are not negative.
abbrev pub between : ℕ → ℕ → ℕ → Bool
between lo hi n = leb lo n && leb n hi

-- `-127 <= n && n <= 127`
abbrev pub attenuation_ok : ℕ → Bool
attenuation_ok n = leb n 127 || leb 4294967169 n

-- The `argv` of a command; `argc` is its length.
unfoldable pub test_rftest_init : List Bytes → Radio → Ret × Radio
test_rftest_init (name ∷ []) r = call_now rftest_init r
test_rftest_init _ r = (einval, r)

unfoldable pub test_tx_contin_en : List Bytes → Radio → Ret × Radio
test_tx_contin_en (name ∷ a ∷ []) r =
    if between 0 1 (atoi a) then call_now (tx_contin_func (atoi a)) r else (einval, r)
test_tx_contin_en _ r = (einval, r)

unfoldable pub test_esp_tx_func : Bool → Bool → List Bytes → Radio → Ret × Radio
test_esp_tx_func malloc_ok task_ok (name ∷ a ∷ b ∷ c ∷ []) r =
    if between 1 14 (atoi a) && (between 0 23 (atoi b) && attenuation_ok (atoi c))
    then start_thread malloc_ok task_ok (esp_tx_func (atoi a) (atoi b) (atoi c)) r
    else (einval, r)
test_esp_tx_func malloc_ok task_ok _ r = (einval, r)

unfoldable pub test_esp_rx_func : Bool → Bool → List Bytes → Radio → Ret × Radio
test_esp_rx_func malloc_ok task_ok (name ∷ a ∷ b ∷ []) r =
    if between 1 14 (atoi a) && between 0 23 (atoi b)
    then start_thread malloc_ok task_ok (esp_rx_func (atoi a) (atoi b)) r
    else (einval, r)
test_esp_rx_func malloc_ok task_ok _ r = (einval, r)

unfoldable pub test_wifiscwout_func : Bool → Bool → List Bytes → Radio → Ret × Radio
test_wifiscwout_func malloc_ok task_ok (name ∷ a ∷ b ∷ c ∷ []) r =
    if between 0 2 (atoi a) && (between 1 14 (atoi b) && attenuation_ok (atoi c))
    then start_thread malloc_ok task_ok (wifiscwout_func (atoi a) (atoi b) (atoi c)) r
    else (einval, r)
test_wifiscwout_func malloc_ok task_ok _ r = (einval, r)

unfoldable pub test_cmdstop_func : List Bytes → Radio → Ret × Radio
test_cmdstop_func (name ∷ []) r = (ok, set_wifi_free r)
test_cmdstop_func _ r = (einval, r)

-- The commands that are registered.
pub data Command : Type 0 where
  rftest_init_cmd tx_contin_en esp_tx esp_rx wifiscwout cmdstop : Command

unfoldable pub run_command : Command → Bool → Bool → List Bytes → Radio → Ret × Radio
run_command rftest_init_cmd m t argv r = test_rftest_init argv r
run_command tx_contin_en m t argv r = test_tx_contin_en argv r
run_command esp_tx m t argv r = test_esp_tx_func m t argv r
run_command esp_rx m t argv r = test_esp_rx_func m t argv r
run_command wifiscwout m t argv r = test_wifiscwout_func m t argv r
run_command cmdstop m t argv r = test_cmdstop_func argv r

-- The names that the commands are registered under, in their order.
abbrev pub registered : List (Bytes × Command)
registered =
    (codes "rftest_init", rftest_init_cmd)
    ∷ (codes "tx_contin_en", tx_contin_en)
    ∷ (codes "esp_tx", esp_tx)
    ∷ (codes "wifitxout", esp_tx)
    ∷ (codes "esp_rx", esp_rx)
    ∷ (codes "wifiscwout", wifiscwout)
    ∷ (codes "cmdstop", cmdstop)
    ∷ (codes "CmdStop", cmdstop)
    ∷ []

-- What happens: a command is entered, or a test ends.
pub data Step : Type 0 where
  enter : Command → (malloc_ok task_ok : Bool) → List Bytes → Step
  ends : ℕ → Step

unfoldable pub step : Step → Radio → Radio
step (enter cmd malloc_ok task_ok argv) r = (run_command cmd malloc_ok task_ok argv r).1
step (ends k) r = thread_ends k r

unfoldable pub steps : List Step → Radio → Radio
steps [] r = r
steps (s ∷ ss) r = steps ss (step s r)
