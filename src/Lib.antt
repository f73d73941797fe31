-- ===== src/Lib.antt =====
-- The two programs of this repository, ESP-UART-Passthrough and SoftAPProv, which share all files
-- but app_main and the bridge. At the start app_main (Main) initialises the flash, starts the task
-- of the reset button (Peripherals), brings up the network (WifiProv) and, in ESP-UART-Passthrough,
-- the bridge between the UART and a TCP client (TcpBridge). WifiProv decodes what the configuration
-- page sends with the functions of Utils; the tasks of the bridge share the ring buffer. The
-- directory examples holds programs of the SDK; those with logic of their own have a module each.
--
--   Prelude            the native ℕ, lists, Boolean tests and C strings that all parts use
--   Libc               what the sources use of printf, scanf and ctype
--   TcpBridge          ESP-UART-Passthrough/main/src/tcp_bridge.c
--     LossyQueue       what the ring promises: a queue that keeps the newest bytes
--     Ring             rb_init, rb_write, rb_read; Ring/Valid, Ring/Refine, Ring/Read: proofs
--     Session          tcp_to_uart_task, buffer_to_tcp_task, tcp_server_task, uart_rx_daemon_task
--     Session/Tasks, Session/Protocol, Session/Traffic, Session/Stale: proofs
--     Init             tcp_bridge_init
--   Utils              ESP-UART-Passthrough/main/src/utils.c
--     UrlDecode        url_decode; UrlDecode/Encode: the encoding that a form applies
--     MacAddress       parse_mac_address; MacAddress/Accepts: which texts it reads
--   WifiProv           ESP-UART-Passthrough/main/src/wifi_prov.c
--     State            what the handlers share and what they do to the device
--     Events           wifi_event_handler; Events/Backoff: its retries
--     Scan             scan_get_handler; Scan/Json, Scan/Fits: its text and the buffer
--     Config           wifi_config_post_handler; Config/Receive, Config/Saves: its parts
--     Page             the checks of the script in index_html, against the firmware
--     Start            start_webserver, wifi_init_softap_sta; Start/Modes: which mode comes up
--   Peripherals        ESP-UART-Passthrough/main/src/peripherals.c; Peripherals/Hold: the long press
--   Main               main.c of both programs; Main/Boot: the stages reached
--   EspNow             examples/wifi/espnow/main/espnow_example_main.c
--     Frame, Talk: a frame sent and received; from broadcasts to one device
--   Ota                examples/system/ota/native_ota/2+MB_flash/new_to_new_no_old/main/ota_example_main.c
--     Ota/Header, Ota/Body, Ota/Download, Ota/Ends: the response, the whole image, and the rounds of the parser
--   PersistentSockets  examples/protocols/http_server/persistent_sockets/main/main.c
--     Counter, Isolation: a number for each connection, over a store of sessions that is a parameter; Server: when the web server runs
--   NanoConsole        examples/system/factory-test/components/rf_test/nano_console.c
--     Editing, Typing, Words, Line: the buffer, and the command that a line calls
--   Iperf              examples/wifi/iperf/components/iperf/iperf.c, iperf.h
--     Flag, ReportTask, TrafficTask, Control: the flags, the two tasks, iperf_start and iperf_stop
--     Ends, Moves, Counted, Figures, Stuck: how a run ends, what holds in it, what it counts and prints, and what is left over
--   WifiCommand        examples/wifi/iperf/main/cmd_wifi.c
--     Measure: wifi_cmd_iperf; Joining, Shows, Started: stations and access points, scans, the runs started
--   SoftapProv         examples/provisioning/legacy/softap_prov/main: app_prov.c
--     Service: how provisioning starts and stops; Handlers: app_prov_handlers.c; Station: app_main.c
--     Told, Stops, Applies, Retries: what the phone is told, what starts leave, the network applied, the retries
--   SimpleHttp         examples/protocols/http_server/simple/main/main.c
--     Server: ctrl_put_handler and when the server runs; Echo, Registered: the echo, and which URIs there are
--   Roaming            examples/wifi/roaming/main/roaming_example.c
--     Reads, Fields, Pieces, Room: what is read, and whether the list fits; Sent, Reported: a report as it is sent
--   FactoryTest        examples/system/factory-test/components/rf_test/rftest_command.c
--     Commands: the commands and the checks of their arguments; Ranges, Exclusion: what the radio is asked for, one test at a time
--   HttpClient         examples/protocols/esp_http_client/main/esp_http_client_example.c: the handler; Collects: its buffers
--   Modbus             examples/protocols/modbus/tcp/mb_tcp_master/main/tcp_master.c
--     Operation: the loop that reads the parameters; Init: master_init; Alarm: what is reported; Offers, Resolved: the table of addresses
-- The files wifi_prov.c, utils.c and peripherals.c of SoftAPProv/main/src are the same as those of
-- ESP-UART-Passthrough.
--
-- A state is a record, and a function of the code takes and returns it. What a function does to the
-- device is the list of the calls of the SDK that it makes, in order; logging is left out. What the
-- SDK answers is an argument: a Boolean for success, the bytes of a receive, the list of stations.
-- Strings are lists of bytes without their terminator, a byte is a number below 256, and size_t
-- wraps at 2 ^ 32. The four tasks of the bridge are step functions, and a run is a list of who acts
-- next and what the SDK answers, so theorems about all lists hold for every interleaving. The tasks of iperf and the tests of
-- factory-test are steps in any order in the same way. Where a
-- loop waits for outside events (a button, the network, a body in pieces), it is recursion on the
-- list of these events, and most other loops are recursion on their data. Some count rounds:
-- url_decode and rb_read have as many as there is room, as their conditions say; the lines of a
-- response have as many as it has bytes, and each takes one or more; a message of an update has two,
-- since only a header leaves something for another; the report of neighbours
-- has as many elements as bytes at most, and each takes two or more; and `%d` prints at most ten digits, as many as an
-- int of 32 bits has.
--
-- Not modelled: time (that the bridge's pause of 500 ms suffices is a hypothesis on the run), memory
-- beyond the success of malloc, the set-up of pins, the functions of the radio, Modbus and mDNS
-- libraries, whose answers are arguments, and the other programs in examples, most of which only call the SDK.
pub mod Prelude
pub mod Libc
pub mod TcpBridge
pub mod Utils
pub mod WifiProv
pub mod Peripherals
pub mod Main
pub mod EspNow
pub mod FactoryTest
pub mod HttpClient
pub mod Iperf
pub mod Modbus
pub mod NanoConsole
pub mod Ota
pub mod PersistentSockets
pub mod Roaming
pub mod SimpleHttp
pub mod SoftapProv
pub mod WifiCommand
