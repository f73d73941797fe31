-- ===== src/Iperf.antt =====
-- The measurements of the iperf example: `s_iperf_is_running`, `s_iperf_ctrl` and the two kinds of
-- tasks.
pub mod Flag
pub mod ReportTask
pub mod TrafficTask
pub mod Control
mod Ends
mod Moves
mod Counted
mod Figures
mod Stuck
mod Tests
use esp8266_rtos_projects.Iperf.Flag
use esp8266_rtos_projects.Iperf.Flag.{has_flag}
use esp8266_rtos_projects.Prelude.{
  ℕ, ◌+◌, ◌/◌, ◌%◌, Bool, true, false, ◌&&◌, List, [], ◌∷◌, ◌==◌, if◌then◌else◌,
}

-- `iperf_cfg_t`.
pub record Config : Type 0 where
  pub flag : ℕ
  pub dip : ℕ
  pub sip : ℕ
  pub dport : ℕ
  pub sport : ℕ
  pub interval : ℕ
  pub time : ℕ

abbrev pub udp_tx_len : ℕ
udp_tx_len = 1472

abbrev pub udp_rx_len : ℕ
udp_rx_len = 16384

abbrev pub tcp_tx_len : ℕ
tcp_tx_len = 16384

abbrev pub tcp_rx_len : ℕ
tcp_rx_len = 16384

abbrev pub max_delay : ℕ
max_delay = 64

-- The size of `uint64_t total_len`.
abbrev pub total_mod : ℕ
total_mod = 18446744073709551616

-- Where a report task is: `xTaskCreate` has made it, or it is in `vTaskDelay` with its variables.
pub data Report : Type 0 where
  created : Report
  delaying : (interval time last_len cur : ℕ) → Report

-- Where the traffic task is: not created or deleted; before `iperf_run_…`; at the test of the outer
-- and of the inner loop of the TCP server, of the loop of the UDP server with `udp_recv_start`, of
-- the UDP client with `retry`, `delay` and `id`, and of the TCP client; or after `iperf_run_…`.
pub data Traffic : Type 0 where
  absent opening accepting receiving tcp_sending leaving : Traffic
  udp_receiving : (udp_recv_start : Bool) → Traffic
  udp_sending : (retry : Bool) → (delay id : ℕ) → Traffic

-- The variables of the file, the tasks, and how many sockets are open. `buffer` is whether it is
-- not NULL.
pub record Iperf : Type 0 where
  pub is_running : Bool
  pub cfg : Config
  pub finish : Bool
  pub total_len : ℕ
  pub buffer_len : ℕ
  pub buffer : Bool
  pub traffic : Traffic
  pub reports : List Report
  pub sockets : ℕ

unfoldable pub iperf_is_udp_client : Config → Bool
iperf_is_udp_client cfg = has_flag cfg.flag Flag.client && has_flag cfg.flag Flag.udp

unfoldable pub iperf_is_udp_server : Config → Bool
iperf_is_udp_server cfg = has_flag cfg.flag Flag.server && has_flag cfg.flag Flag.udp

unfoldable pub iperf_is_tcp_client : Config → Bool
iperf_is_tcp_client cfg = has_flag cfg.flag Flag.client && has_flag cfg.flag Flag.tcp

unfoldable pub iperf_get_buffer_len : Config → ℕ
iperf_get_buffer_len cfg =
    if iperf_is_udp_client cfg
    then udp_tx_len
    else if iperf_is_udp_server cfg
    then udp_rx_len
    else if iperf_is_tcp_client cfg
    then tcp_tx_len
    else tcp_rx_len
