-- ===== src/TcpBridge.antt =====
-- ESP-UART-Passthrough/main/src/tcp_bridge.c: the TCP to UART bridge.
pub mod LossyQueue
pub mod Ring
pub mod Session
pub mod Init
mod Tests
