-- ===== src/EspNow/Tests.antt =====
-- The theorems on ESP-NOW at concrete devices.
use esp8266_rtos_projects.Prelude.{
  ℕ, ◌+◌, ◌*◌, ◌%◌, ◌≡◌, refl, true, false, none, List, [], ◌∷◌, Bytes, length,
}
use esp8266_rtos_projects.EspNow.{
  broadcast_mac, data_broadcast, EspnowData, Seq, SendParam, Parsed, data_parse, data_prepare,
  Event, send_cb, recv_cb, Answer, running, on_events, on_event, on_sent, on_received, send_to,
}
use esp8266_rtos_projects.EspNow.Talk.{quiet, to_devices, on_events-quiet}

-- A checksum of some of the fields.
abbrev sum : EspnowData → ℕ
sum d = (d.seq_num + d.crc + 3 * d.magic + length d.payload) % 65536

abbrev counters : Seq
counters = record { broadcasts = 7; unicasts = 2 }

abbrev fresh : EspnowData
fresh = record { kind = data_broadcast; state = 0; seq_num = 0; crc = 0; magic = 0; payload = [] }

abbrev peer : Bytes
peer = 1 ∷ 2 ∷ 3 ∷ 4 ∷ 5 ∷ 6 ∷ []

abbrev param : SendParam
param = record {
  unicast = false;
  broadcast = false;
  state = 1;
  magic = 99;
  count = 3;
  delay = 1000;
  len = 12;
  buffer = fresh;
  dest_mac = broadcast_mac;
}

abbrev nothing : Parsed
nothing = record { kind = none; state = 0; seq = 0; magic = 0 }

abbrev works : Answer
works = record { random = 8 ∷ 9 ∷ []; send_ok = true; peer_ok = true }

-- A broadcast of the peer with a smaller magic number.
abbrev offer : EspnowData
offer = record { kind = data_broadcast; state = 1; seq_num = 4; crc = 34; magic = 10; payload = [] }

abbrev events : List (Event × Answer)
events =
    (send_cb broadcast_mac, works) ∷ (recv_cb peer offer 10, works) ∷ (send_cb peer, works) ∷ []

test_events : (on_events sum events (running param counters nothing)).1 ≡ peer ∷ peer ∷ []
unfolding on_events on_event on_sent on_received send_to data_parse data_prepare
test_events = refl

on_events-quiet_example :
    let (end, sends) = on_events sum events (running param counters nothing) in
    (quiet end ≡ true) × (to_devices sends ≡ true)
on_events-quiet_example =
    on_events-quiet sum events (running param counters nothing) (tt, (refl, (tt, tt))) refl
