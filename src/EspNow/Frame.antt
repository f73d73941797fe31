-- ===== src/EspNow/Frame.antt =====
-- A frame that one device prepares, and another parses.
use esp8266_rtos_projects.Prelude.{eq_self, ℕ, ◌≤◌, ◌≡◌, refl, some, Bytes, le→ltb, if◌then◌else◌}
use esp8266_rtos_projects.EspNow.{
  is_broadcast_addr, data_broadcast, data_unicast, EspnowData, Seq, SendParam, Parsed, sizeof_data,
  data_parse, data_prepare,
}

-- Whatever the checksum is and whatever the payload, a frame of ten bytes or more that is received as
-- it was prepared is accepted, as a broadcast exactly if it was for the broadcast address, with the
-- state, the magic number and the sequence number of the sender.
pub data_parse-prepare :
    (crc16 : EspnowData → ℕ) (random : Bytes) (seq : Seq) (p : SendParam) (data_len : ℕ)
    (old : Parsed)
    → sizeof_data ≤ data_len
    → data_parse crc16 (data_prepare crc16 random seq p).1.buffer data_len old ≡ record {
      kind = some (if is_broadcast_addr p.dest_mac then data_broadcast else data_unicast);
      state = p.state;
      seq = if is_broadcast_addr p.dest_mac then seq.broadcasts else seq.unicasts;
      magic = p.magic;
    }
unfolding data_parse data_prepare
data_parse-prepare crc16 random seq p data_len old long =
    rw (le→ltb data_len sizeof_data long, eq_self (crc16 _)) refl
