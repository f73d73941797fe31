-- ===== src/Roaming/Tests.antt =====
-- The theorems on the report of neighbours, at concrete reports.
use esp8266_rtos_projects.Prelude.{
  ap, length-append, codes, length, take, false, ◌≤◌, ◌≡◌, refl, Bool, true, some, ltb, ◌&&◌, All,
  [], ◌∷◌, ◌++◌, Bytes, joined, map, arith, replicate,
}
use esp8266_rtos_projects.Libc.Hex.{hex4, hex_digits}
use esp8266_rtos_projects.Libc.Decimal.{print_int, digits}
use esp8266_rtos_projects.Roaming.{
  put, get_le32, neighbor_of, read_subelements, read_element, listed, list_rounds,
  get_btm_neighbor_list, outside, query_list, neighbor_report_recv_cb,
}
use esp8266_rtos_projects.Roaming.Reads.{IsByte}
use esp8266_rtos_projects.Roaming.Sent.{Sent, element}
use esp8266_rtos_projects.Roaming.Reported.{text_of, get_btm_neighbor_list-sent}
use esp8266_rtos_projects.Roaming.Room.{
  IsListed, stays_inside, get_btm_neighbor_list-IsListed, neighbor_report_recv_cb-inside,
}

abbrev near : Sent
near = record {
  b0 = 0x11;
  b1 = 0x22;
  b2 = 0x33;
  b3 = 0x44;
  b4 = 0x55;
  b5 = 0x66;
  info = 4660;
  op_class = 81;
  channel = 3;
  phy_type = 7;
  subs = record { id = 39; body = 1 ∷ 0 ∷ 9 ∷ 7 ∷ [] } ∷ [];
}

abbrev twice : Bytes
twice = joined (map element (near ∷ near ∷ [])) ++ 1 ∷ 2 ∷ []

text_of-near : text_of near ≡ codes " neighbor=11:22:33:44:55:66,0x1234,81,3,7"
unfolding hex4 hex_digits print_int digits
text_of-near = refl

short_list : length (joined (map text_of (near ∷ near ∷ []))) ≤ 512
short_list = omega (
  arith,
  length-append (text_of near) (text_of near ++ []),
  length-append (text_of near) [],
  ap length text_of-near,
)

get_btm_neighbor_list-sent_example :
    get_btm_neighbor_list twice (length twice)
    ≡ listed (record {
      text = take 511 (joined (map text_of (near ∷ near ∷ [])));
      len = length (joined (map text_of (near ∷ near ∷ [])));
      overflow = false;
    })
get_btm_neighbor_list-sent_example =
    get_btm_neighbor_list-sent near (near ∷ []) (1 ∷ 2 ∷ []) (omega arith, (omega arith, tt))
      (omega arith) (omega arith) short_list

-- An element whose length goes beyond the report.
abbrev cut : Bytes
cut = 52 ∷ 200 ∷ replicate 18 7

abbrev bytes_only : Bytes → Bool
bytes_only [] = true
bytes_only (b ∷ bs) = ltb b 256 && bytes_only bs

All-bytes : (s : Bytes) → bytes_only s ≡ true → All IsByte s
All-bytes [] h = tt
All-bytes (b ∷ bs) h = (ground arith, All-bytes bs (ground arith))

get_btm_neighbor_list-IsListed_example : IsListed (get_btm_neighbor_list cut (length cut))
get_btm_neighbor_list-IsListed_example =
    get_btm_neighbor_list-IsListed cut (All-bytes cut refl) (omega arith)

neighbor_report_recv_cb-inside_example :
    stays_inside (neighbor_report_recv_cb (some (0 ∷ element near)) 4 4 true) ≡ true
neighbor_report_recv_cb-inside_example =
    neighbor_report_recv_cb-inside 0 (element near) 4 4 true (All-bytes (element near) refl)
      (omega arith)

-- Eleven neighbours whose fields have all their digits do not fit.
abbrev wide : Sent
wide = record near { info = 4294967295; op_class = 128; channel = 100; phy_type = 100; subs = [] }

test_overflow :
    neighbor_report_recv_cb (some (0 ∷ joined (map element (replicate 11 wide)))) 4 4 true ≡ outside
unfolding neighbor_report_recv_cb query_list get_btm_neighbor_list list_rounds read_element
    read_subelements neighbor_of get_le32 put hex4 hex_digits print_int digits
test_overflow = refl
