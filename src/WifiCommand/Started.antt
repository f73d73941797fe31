-- ===== src/WifiCommand/Started.antt =====
-- The runs that the command iperf starts.
use esp8266_rtos_projects.Prelude.{
  ℕ, ◌<◌, ◌≡◌, ◌≢◌, ◌%◌, if◌then◌else◌, Bool, ◌&&◌, ◌||◌, not, Option, none, some, leb, arith,
}
use esp8266_rtos_projects.Iperf.Flag.{has_flag, with_flag}
use esp8266_rtos_projects.Iperf.{
  Config, iperf_is_udp_client, iperf_is_udp_server, iperf_is_tcp_client,
}
use esp8266_rtos_projects.Iperf.Control.{start}
use esp8266_rtos_projects.WifiCommand.Measure.{
  IperfArgs, given, interval_of, time_of, flag_of, dport_of, sport_of, config_of, wifi_cmd_iperf,
  default_time,
}

config_of-mode :
    (args : IperfArgs) (local_ip : ℕ)
    → given args.ip ≡ not args.server
    → let cfg = config_of args local_ip in
      (iperf_is_udp_client cfg ≡ (not args.server && args.udp))
      × ((iperf_is_udp_server cfg ≡ (args.server && args.udp))
          × (iperf_is_tcp_client cfg ≡ (not args.server && not args.udp)))
unfolding config_of flag_of iperf_is_udp_client iperf_is_udp_server iperf_is_tcp_client has_flag
    with_flag
config_of-mode args local_ip h = ground arith

started-config :
    (args : IperfArgs) (local_ip : ℕ) (m t : Bool) (cfg : Config)
    → wifi_cmd_iperf args local_ip m t ≡ some (start (some cfg) m t)
    → (given args.ip ≡ not args.server) × ((local_ip ≢ 0) × (config_of args local_ip ≡ cfg))
unfolding wifi_cmd_iperf
started-config args local_ip m t cfg h = ground arith

-- What a report needs of the configuration.
-- The value of an option, or what stands for it.
abbrev pub option_or : ℕ → Option ℕ → ℕ
option_or d none = d
option_or d (some n) = n

-- Where a run goes to and where it listens: the server's port is that of the option for the server,
-- and that of the other side for a client; 5001 stands for a port that is not given.
config_of-ends :
    (args : IperfArgs) (local_ip : ℕ)
    → given args.ip ≡ not args.server
    → let cfg = config_of args local_ip in
      (cfg.dip ≡ option_or 0 args.ip)
      × ((cfg.dport ≡ (if args.server then 5001 else option_or 5001 args.port % 65536))
          × (cfg.sport ≡ (if args.server then option_or 5001 args.port % 65536 else 5001)))
unfolding config_of flag_of dport_of sport_of has_flag with_flag
config_of-ends args local_ip h = ground arith

config_of-times :
    (args : IperfArgs) (local_ip : ℕ)
    → let cfg = config_of args local_ip in
      (cfg.sip ≡ local_ip)
      × ((0 < cfg.interval)
          × (leb cfg.interval cfg.time ≡ (given args.time || leb cfg.interval default_time)))
unfolding config_of interval_of time_of
config_of-times args local_ip = ground arith

-- A run that the command starts is a server just where `-s` is given, and a client otherwise; a
-- client goes to the address that is given, at the port that is given or 5001, and a server listens on
-- the port that is given or 5001; it is one of UDP just where `-u` is given; it has an address of its
-- own and a positive interval, which is at most its time, unless no time is given and the interval is
-- above the 30 seconds that are then taken (the help text of the command says 10).
pub wifi_cmd_iperf-starts :
    (args : IperfArgs) (local_ip : ℕ) (malloc_ok task_ok : Bool) (cfg : Config)
    → wifi_cmd_iperf args local_ip malloc_ok task_ok ≡ some (start (some cfg) malloc_ok task_ok)
    → (given args.ip ≡ not args.server)
      × (((cfg.dip ≡ option_or 0 args.ip)
            × ((cfg.dport ≡ (if args.server then 5001 else option_or 5001 args.port % 65536))
                × (cfg.sport ≡ (if args.server then option_or 5001 args.port % 65536 else 5001))))
          × ((iperf_is_udp_client cfg ≡ (not args.server && args.udp))
              × ((iperf_is_udp_server cfg ≡ (args.server && args.udp))
                  × ((iperf_is_tcp_client cfg ≡ (not args.server && not args.udp))
                      × ((cfg.sip ≢ 0)
                          × ((0 < cfg.interval)
                              × (leb cfg.interval cfg.time
                                  ≡ (given args.time || leb cfg.interval default_time))))))))
wifi_cmd_iperf-starts args local_ip m t cfg h =
    let (one, (addressed, same)) = started-config args local_ip m t cfg h in
    let (udp_client, (udp_server, tcp_client)) = config_of-mode args local_ip one in
    let (sip, (interval, time)) = config_of-times args local_ip in
    (
      one,
      rw (← same) (
        config_of-ends args local_ip one,
        (udp_client, (udp_server, (tcp_client, (rw sip addressed, (interval, time))))),
      ),
    )
