-- ===== src/WifiProv.antt =====
-- ESP-UART-Passthrough/main/src/wifi_prov.c: WiFi provisioning (SoftAPProv/main/src/wifi_prov.c is
-- the same file).
pub mod State
pub mod Events
pub mod Scan
pub mod Config
pub mod Page
pub mod Start
mod Tests
