-- ===== src/EspNow/Talk.antt =====
-- From broadcasts to frames for one device.
use esp8266_rtos_projects.Prelude.{
  ℕ, ◌≡◌, refl, Bool, true, false, List, [], ◌∷◌, ◌++◌, Bytes, All, not, ◌&&◌, arith,
}
use esp8266_rtos_projects.EspNow.{
  is_broadcast_addr, EspnowData, Seq, SendParam, Parsed, data_prepare, Event, send_cb, recv_cb,
  Answer, Task, running, ended, send_to, on_sent, on_received, on_event, on_events,
}

-- The device broadcasts no more.
abbrev pub quiet : Task → Bool
quiet (running p seq old) = not p.broadcast
quiet ended = true

abbrev pub to_devices : List Bytes → Bool
to_devices [] = true
to_devices (mac ∷ macs) = not (is_broadcast_addr mac) && to_devices macs

-- A frame comes from a device, never from the broadcast address.
abbrev pub FromDevice : Event × Answer → Type 0
FromDevice (send_cb mac, a) = Unit {0}
FromDevice (recv_cb mac frame data_len, a) = is_broadcast_addr mac ≡ false

to_devices-append :
    (xs ys : List Bytes)
    → to_devices xs ≡ true
    → to_devices ys ≡ true
    → to_devices (xs ++ ys) ≡ true
to_devices-append [] ys hx hy = hy
to_devices-append (x ∷ xs) ys hx hy = ground (arith, to_devices-append xs ys)

module _ (crc16 : EspnowData → ℕ) where
  on_sent-quiet :
      (mac : Bytes) (a : Answer) (p : SendParam) (seq : Seq) (old : Parsed)
      → p.broadcast ≡ false
      → let (t, sends) = on_sent crc16 mac a p seq old in
        (quiet t ≡ true) × (to_devices sends ≡ true)
  unfolding on_sent send_to data_prepare
  on_sent-quiet mac a p seq old h = (ground arith, ground arith)

  on_received-quiet :
      (mac : Bytes) (frame : EspnowData) (data_len : ℕ) (a : Answer) (p : SendParam) (seq : Seq)
      (old : Parsed)
      → is_broadcast_addr mac ≡ false
      → p.broadcast ≡ false
      → let (t, sends) = on_received crc16 mac frame data_len a p seq old in
        (quiet t ≡ true) × (to_devices sends ≡ true)
  unfolding on_received send_to data_prepare
  on_received-quiet mac frame data_len a p seq old from h = (ground arith, ground arith)

  on_event-quiet :
      (e : Event) (a : Answer) (t : Task)
      → FromDevice (e, a)
      → quiet t ≡ true
      → let (t', sends) = on_event crc16 e a t in (quiet t' ≡ true) × (to_devices sends ≡ true)
  unfolding on_event
  on_event-quiet e a ended from h = (refl, refl)
  on_event-quiet (send_cb mac) a (running p seq old) from h =
      on_sent-quiet mac a p seq old (ground arith)
  on_event-quiet (recv_cb mac frame data_len) a (running p seq old) from h =
      on_received-quiet mac frame data_len a p seq old from (ground arith)

  -- Once the device has stopped broadcasting, it never broadcasts again, whatever events come, as long
  -- as the frames that it receives come from devices: every frame it still sends is for a device.
  pub on_events-quiet :
      (events : List (Event × Answer)) (t : Task)
      → All FromDevice events
      → quiet t ≡ true
      → let (end, sends) = on_events crc16 events t in
        (quiet end ≡ true) × (to_devices sends ≡ true)
  unfolding on_events
  on_events-quiet [] t from h = (h, refl)
  on_events-quiet ((e, a) ∷ rest) t (from, later) h =
      let (quiet_now, now) = on_event-quiet e a t from h in
      let (quiet_end, then_on) = on_events-quiet rest (on_event crc16 e a t).0 later quiet_now in
      (
        quiet_end,
        to_devices-append (on_event crc16 e a t).1 (on_events crc16 rest (on_event crc16 e a t).0).1
            now then_on,
      )
