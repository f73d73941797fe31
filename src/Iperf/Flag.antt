-- ===== src/Iperf/Flag.antt =====
-- The flags of `iperf_cfg_t` (iperf.h).
use esp8266_rtos_projects.Prelude.{ℕ, ◌+◌, ◌/◌, ◌%◌, Bool, ◌==◌, if◌then◌else◌}

abbrev pub client : ℕ
client = 1

abbrev pub server : ℕ
server = 2

abbrev pub tcp : ℕ
tcp = 4

abbrev pub udp : ℕ
udp = 8

-- `flag & mask` for a mask of one bit.
unfoldable pub has_flag : ℕ → ℕ → Bool
has_flag flag mask = flag / mask % 2 == 1

-- `flag |= mask` for a mask of one bit.
unfoldable pub with_flag : ℕ → ℕ → ℕ
with_flag flag mask = if has_flag flag mask then flag else flag + mask
