-- ===== src/Libc/Copy.antt =====
-- `strlcpy` and `strncpy`: the text that an array then holds.
use esp8266_rtos_projects.Prelude.{ℕ, ◌-◌, Bytes, c_string, take}

-- `strlcpy(array, s, n)`: with a 0 after at most n - 1 bytes.
unfoldable pub strlcpy : ℕ → Bytes → Bytes
strlcpy n s = take (n - 1) (c_string s)

-- `strncpy(array, s, n)`, for one that reads up to n bytes where there is no 0.
unfoldable pub strncpy : ℕ → Bytes → Bytes
strncpy n s = take n (c_string s)
