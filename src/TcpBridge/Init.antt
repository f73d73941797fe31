-- ===== src/TcpBridge/Init.antt =====
-- `tcp_bridge_init`: the cache, the UART, and the two tasks that live for ever.
use esp8266_rtos_projects.Prelude.{
  ℕ, ◌≡◌, refl, Option, none, some, List, [], ◌∷◌, Bytes, length, if◌then◌else◌, arith,
}
use esp8266_rtos_projects.TcpBridge.Ring.{RingBuf, rb_init, uart_cache_size}
use esp8266_rtos_projects.TcpBridge.Ring.Valid.{IsValid, rb_init-IsValid}
use esp8266_rtos_projects.TcpBridge.Ring.Refine.{contents}

pub data Parity : Type 0 where
  parity_disable : Parity

pub data StopBits : Type 0 where
  stop_bits_1 : StopBits

pub data FlowCtrl : Type 0 where
  flowctrl_disable : FlowCtrl

pub record UartConfig : Type 0 where
  pub baud_rate : ℕ
  pub data_bits : ℕ
  pub parity : Parity
  pub stop_bits : StopBits
  pub flow_ctrl : FlowCtrl

abbrev pub uart_config : UartConfig
uart_config = record {
  baud_rate = 115200;
  data_bits = 8;
  parity = parity_disable;
  stop_bits = stop_bits_1;
  flow_ctrl = flowctrl_disable;
}

-- The calls after the cache is there; `uart_driver_install` is given the receive buffer's size.
pub data InitCall : Type 0 where
  uart_driver_install : ℕ → InitCall
  uart_param_config : UartConfig → InitCall
  uart_enable_swap : InitCall
  create_daemon create_server : InitCall

-- The first argument is what `malloc(UART_CACHE_SIZE)` returns.
pub tcp_bridge_init : Option Bytes → RingBuf → RingBuf × List InitCall
tcp_bridge_init block rb =
    let (done, rb') = rb_init block uart_cache_size rb in
    if done
    then (
      rb',
      uart_driver_install 1024
          ∷ uart_param_config uart_config
          ∷ uart_enable_swap
          ∷ create_daemon
          ∷ create_server
          ∷ [],
    )
    else (rb', [])

-- With no memory for the cache neither the UART nor the server is started; with a block of 8 KiB
-- the ring is valid and empty before the first task that uses it is created.
pub tcp_bridge_init-IsValid :
    (rb : RingBuf) (block : Bytes)
    → length block ≡ uart_cache_size
    → ((tcp_bridge_init none rb).1 ≡ [])
      × ((tcp_bridge_init (some block) rb).1
          ≡ uart_driver_install 1024
            ∷ uart_param_config uart_config
            ∷ uart_enable_swap
            ∷ create_daemon
            ∷ create_server
            ∷ [])
      × IsValid block (tcp_bridge_init (some block) rb).0
      × (contents block (tcp_bridge_init (some block) rb).0 ≡ [])
unfolding tcp_bridge_init rb_init
tcp_bridge_init-IsValid rb block e =
    let (_, _, _, valid) = rb_init-IsValid block uart_cache_size rb e (omega arith) (omega arith) in
    (refl, refl, valid, refl)
