-- ===== src/Utils.antt =====
-- ESP-UART-Passthrough/main/src/utils.c (SoftAPProv/main/src/utils.c is the same file).
pub mod UrlDecode
pub mod MacAddress
mod Tests
