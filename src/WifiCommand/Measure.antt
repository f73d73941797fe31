-- ===== src/WifiCommand/Measure.antt =====
-- `wifi_cmd_iperf`: from the arguments to a run.
use esp8266_rtos_projects.Prelude.{
  ℕ, ◌%◌, Bool, true, false, ◌&&◌, ◌||◌, not, Option, none, some, leb, ◌==◌, if◌then◌else◌,
}
use esp8266_rtos_projects.Iperf.Flag
use esp8266_rtos_projects.Iperf.Flag.{has_flag, with_flag}
use esp8266_rtos_projects.Iperf.{Config}
use esp8266_rtos_projects.Iperf.Control.{Step, start, stop}

-- What `arg_parse` finds: an option that is not given is `none` or false, and a number is that of its
-- 32 bits. `ip` is what `ipaddr_addr` makes of the text.
pub record IperfArgs : Type 0 where
  pub parsed : Bool
  pub ip : Option ℕ
  pub server : Bool
  pub udp : Bool
  pub port : Option ℕ
  pub interval : Option ℕ
  pub time : Option ℕ
  pub abort : Bool

abbrev pub given : Option ℕ → Bool
given none = false
given (some _) = true

abbrev pub default_port : ℕ
default_port = 5001

abbrev pub default_interval : ℕ
default_interval = 3

abbrev pub default_time : ℕ
default_time = 30

-- `cfg.interval <= 0` compares a `uint32_t`.
unfoldable pub interval_of : Option ℕ → ℕ
interval_of none = default_interval
interval_of (some n) = if leb n 0 then default_interval else n

unfoldable pub time_of : Option ℕ → ℕ → ℕ
time_of none interval = default_time
time_of (some n) interval = if leb n interval then interval else n

unfoldable pub flag_of : IperfArgs → ℕ
flag_of args =
    with_flag (with_flag 0 (if given args.ip then Flag.client else Flag.server))
      (if args.udp then Flag.udp else Flag.tcp)

unfoldable pub sport_of : IperfArgs → ℕ
sport_of args = elim args.port [
  | none ↦ default_port
  | some port ↦ if has_flag (flag_of args) Flag.server then port % 65536 else default_port
]

unfoldable pub dport_of : IperfArgs → ℕ
dport_of args = elim args.port [
  | none ↦ default_port
  | some port ↦ if has_flag (flag_of args) Flag.server then default_port else port % 65536
]

-- The configuration that is filled in, with the station's address.
unfoldable pub config_of : IperfArgs → ℕ → Config
config_of args local_ip = record {
  flag = flag_of args;
  dip = elim args.ip [ none ↦ 0 | some ip ↦ ip ];
  sip = local_ip;
  dport = dport_of args;
  sport = sport_of args;
  interval = interval_of args.interval;
  time = time_of args.time (interval_of args.interval);
}

-- The step of the measurements that the command makes, if it makes one, with what `iperf_start` finds.
unfoldable pub wifi_cmd_iperf : IperfArgs → ℕ → Bool → Bool → Option Step
wifi_cmd_iperf args local_ip malloc_ok task_ok =
    if not args.parsed
    then none
    else if args.abort
    then some stop
    else if (not (given args.ip) && not args.server) || (given args.ip && args.server)
    then none
    else if local_ip == 0
    then none
    else some (start (some (config_of args local_ip)) malloc_ok task_ok)
