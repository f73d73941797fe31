-- ===== src/EspNow.antt =====
-- examples/wifi/espnow/main/espnow_example_main.c: two devices find each other by broadcasts, and
-- then the one with the bigger magic number sends to the other.
pub mod Frame
pub mod Talk
mod Tests
use esp8266_rtos_projects.Prelude.{
  ℕ, zero, suc, ◌+◌, ◌-◌, ◌%◌, ◌≡◌, Bool, true, false, not, ◌&&◌, Option, none, some, List, [], ◌∷◌,
  ◌++◌, Bytes, ltb, leb, ◌==◌, if◌then◌else◌, length, str_eq,
}

abbrev pub broadcast_mac : Bytes
broadcast_mac = 255 ∷ 255 ∷ 255 ∷ 255 ∷ 255 ∷ 255 ∷ []

-- IS_BROADCAST_ADDR
abbrev pub is_broadcast_addr : Bytes → Bool
is_broadcast_addr addr = str_eq addr broadcast_mac

pub data DataType : Type 0 where
  data_broadcast data_unicast data_other : DataType

-- `example_espnow_data_t`
pub record EspnowData : Type 0 where
  pub kind : DataType
  pub state : ℕ
  pub seq_num : ℕ
  pub crc : ℕ
  pub magic : ℕ
  pub payload : Bytes

-- `s_example_espnow_seq`
pub record Seq : Type 0 where
  pub broadcasts : ℕ
  pub unicasts : ℕ

-- `example_espnow_send_param_t`; `buffer` is the frame in it.
pub record SendParam : Type 0 where
  pub unicast : Bool
  pub broadcast : Bool
  pub state : ℕ
  pub magic : ℕ
  pub count : ℕ
  pub delay : ℕ
  pub len : ℕ
  pub buffer : EspnowData
  pub dest_mac : Bytes

-- What `example_espnow_data_parse` returns and stores; the type is `none` for -1.
pub record Parsed : Type 0 where
  pub kind : Option DataType
  pub state : ℕ
  pub seq : ℕ
  pub magic : ℕ

abbrev pub sizeof_data : ℕ
sizeof_data = 10

-- The events in the queue.
pub data Event : Type 0 where
  send_cb : Bytes → Event
  recv_cb : Bytes → EspnowData → ℕ → Event

-- What the SDK answers in one round: random bytes, whether `esp_now_send` succeeds, and whether
-- the peer is known or can be added.
pub record Answer : Type 0 where
  pub random : Bytes
  pub send_ok : Bool
  pub peer_ok : Bool

-- The task, its delays left out: its parameters, the counters, what the last frame left; or it has ended.
pub data Task : Type 0 where
  running : SendParam → Seq → Parsed → Task
  ended : Task

-- `crc16_le(UINT16_MAX, …)` of a frame, in the ROM.
module _ (crc16 : EspnowData → ℕ) where
  -- `old` is what the variables of the caller hold, which a frame that is too short leaves.
  unfoldable pub data_parse : EspnowData → ℕ → Parsed → Parsed
  data_parse buf data_len old =
      if ltb data_len sizeof_data then record old { kind = none } else record {
        kind = if crc16 (record buf { crc = 0 }) == buf.crc then some buf.kind else none;
        state = buf.state;
        seq = buf.seq_num;
        magic = buf.magic;
      }

  -- The counter of the kind, and `++`.
  abbrev pub next_seq : Bool → Seq → ℕ
  next_seq broadcast seq = if broadcast then seq.broadcasts else seq.unicasts

  abbrev count_seq : Bool → Seq → Seq
  count_seq broadcast seq =
      if broadcast
      then record seq { broadcasts = (seq.broadcasts + 1) % 65536 }
      else record seq { unicasts = (seq.unicasts + 1) % 65536 }

  -- `example_espnow_data_prepare`, with the bytes that `esp_random` gives for the payload. The
  -- assertion on `len` is left to the caller.
  unfoldable pub data_prepare : Bytes → Seq → SendParam → Seq × SendParam
  data_prepare random seq p =
      let broadcast = is_broadcast_addr p.dest_mac in
      let blank : EspnowData = record {
        kind = if broadcast then data_broadcast else data_unicast;
        state = p.state;
        seq_num = next_seq broadcast seq;
        crc = 0;
        magic = p.magic;
        payload = random;
      } in
      (count_seq broadcast seq, record p { buffer = record blank { crc = crc16 blank } })

  -- `memcpy` of the address, `data_prepare` and `esp_now_send`, and then `next` of the parameters.
  unfoldable pub send_to :
      Bytes → (SendParam → SendParam) → Answer → SendParam → Seq → Parsed → Task × List Bytes
  send_to mac next a p seq old =
      let (seq', p') = data_prepare a.random seq (record p { dest_mac = mac }) in
      (if a.send_ok then running (next p') seq' old else ended, mac ∷ [])

  -- Lines 174 to 211.
  unfoldable pub on_sent : Bytes → Answer → SendParam → Seq → Parsed → Task × List Bytes
  on_sent mac a p seq old =
      if is_broadcast_addr mac
      then if p.broadcast then send_to mac (λ q. q) a p seq old else (running p seq old, [])
      else let left = (p.count + 65535) % 65536 in
        if left == 0
        then (ended, [])
        else send_to mac (λ q. q) a (record p { count = left }) seq old

  -- Lines 212 to 282.
  unfoldable pub on_received :
      Bytes → EspnowData → ℕ → Answer → SendParam → Seq → Parsed → Task × List Bytes
  on_received mac frame data_len a p seq old =
      let got = data_parse frame data_len old in
      let seen = record p { state = if p.state == 0 then 1 else p.state } in
      elim got.kind [
        | none ↦ (running p seq got, [])
        | some data_other ↦ (running p seq got, [])
        | some data_unicast ↦ (running (record p { broadcast = false }) seq got, [])
        | some data_broadcast ↦
            if a.peer_ok
            then if (got.state == 1) && (not p.unicast && leb got.magic p.magic)
              then send_to mac (λ q. record q { broadcast = false; unicast = true }) a seen seq got
              else (running seen seq got, [])
            else (ended, [])
      ]

  -- One round of the loop of `example_espnow_task`: where it stands, and the addresses sent to.
  unfoldable pub on_event : Event → Answer → Task → Task × List Bytes
  on_event e a ended = (ended, [])
  on_event (send_cb mac) a (running p seq old) = on_sent mac a p seq old
  on_event (recv_cb mac frame data_len) a (running p seq old) =
      on_received mac frame data_len a p seq old

  unfoldable pub on_events : List (Event × Answer) → Task → Task × List Bytes
  on_events [] t = (t, [])
  on_events ((e, a) ∷ rest) t =
      let (t', now) = on_event e a t in let (end, later) = on_events rest t' in (end, now ++ later)
