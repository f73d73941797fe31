-- ===== src/Roaming.antt =====
-- examples/wifi/roaming/main/roaming_example.c: the report of neighbouring access points, and the
-- list that is made of it.
pub mod Reads
mod Fields
mod Pieces
mod Sent
mod Reported
mod Room
mod Tests
use esp8266_rtos_projects.Prelude.{
  ℕ, zero, suc, ◌+◌, ◌-◌, ◌%◌, size_mod, ◌*◌, Bool, true, false, ◌&&◌, ◌||◌, not, Option, none,
  some, List, [], ◌∷◌, ◌++◌, Bytes, codes, ltb, leb, ◌==◌, length, take, drop, get_elem?, get_or,
  if◌then◌else◌, map,
}
use esp8266_rtos_projects.Libc.Hex.{hex2, hex4}
use esp8266_rtos_projects.Libc.Decimal.{print_int, pos}
use esp8266_rtos_projects.Utils.MacAddress.{format_mac}

-- What reading some bytes gives: a value; the report is found invalid; a byte is read that is not
-- there; or the rounds of a loop are used up.
pub data Read {ℓ} (A : Type ℓ) : Type ℓ where
  got : A → Read A
  invalid overread endless : Read A

abbrev pub read_then {ℓ κ} : {A : Type ℓ} {B : Type κ} → Read A → (A → Read B) → Read B
read_then (got a) f = f a
read_then invalid f = invalid
read_then overread f = overread
read_then endless f = endless

-- The next `n` bytes, and what follows them.
abbrev pub read_slice : ℕ → Bytes → Read (Bytes × Bytes)
read_slice n bytes = if ltb (length bytes) n then overread else got (take n bytes, drop n bytes)

-- One byte.
abbrev pub read_at : Bytes → ℕ → Read ℕ
read_at bytes i = elim (get_elem? bytes i) [ none ↦ overread | some b ↦ got b ]

abbrev pub eid_measure_report : ℕ
eid_measure_report = 39

abbrev pub eid_neighbor_report : ℕ
eid_neighbor_report = 52

abbrev pub measure_type_lci : ℕ
measure_type_lci = 9

abbrev pub measure_type_location_civic : ℕ
measure_type_location_civic = 11

abbrev pub max_neighbor_len : ℕ
max_neighbor_len = 512

abbrev pub nr_ie_min_len : ℕ
nr_ie_min_len = 13

-- `lci` and `civic`, which are only logged.
pub record Subelements : Type 0 where
  pub lci : Bytes
  pub civic : Bytes

abbrev pub no_subelements : Subelements
no_subelements = record { lci = []; civic = [] }

-- Whether the first byte of an array is set, which is 0 at first.
abbrev pub is_set : Bytes → Bool
is_set text = not (get_or text 0 0 == 0)

-- Lines 131 to 148, with the bytes of the subelement.
abbrev pub keep_subelement : ℕ → Bytes → Subelements → Subelements
keep_subelement type body subs =
    if type == measure_type_lci
    then if is_set subs.lci then subs else record subs { lci = body }
    else if type == measure_type_location_civic
    then if is_set subs.civic then subs else record subs { civic = body }
    else subs

unfoldable pub note_subelement : ℕ → Bytes → Subelements → Read Subelements
note_subelement s_id body subs =
    if s_id == eid_measure_report && ltb 3 (length body)
    then read_then (read_at body 2) (λ type. got (keep_subelement type body subs))
    else got subs

-- The loop of lines 122 to 151 on the bytes from `pos` to `end`; each round takes two bytes or more, and
-- a subelement that goes beyond `end` is a read outside.
unfoldable pub read_subelements : ℕ → Bytes → Subelements → Read Subelements
read_subelements zero rest subs = endless
read_subelements (suc rounds) rest subs =
    let body = drop 2 rest in
    let round : Read Subelements = read_then (read_at rest 0) (λ s_id.
      read_then (read_at rest 1) (λ s_len.
        if ltb (length body) s_len
        then invalid
        else read_then (read_slice s_len body) (λ part.
          read_then (note_subelement s_id part.0 subs)
            (λ noted. read_subelements rounds part.1 noted)))) in
    if ltb 2 (length rest) then round else got subs

-- The fixed part of an element.
pub record Neighbor : Type 0 where
  pub bssid : Bytes
  pub info : ℕ
  pub op_class : ℕ
  pub channel : ℕ
  pub phy_type : ℕ

unfoldable pub get_le32 : Bytes → ℕ
get_le32 a = get_or a 3 0 * 16777216 + get_or a 2 0 * 65536 + get_or a 1 0 * 256 + get_or a 0 0

-- The reads of `nr`, whose first thirteen bytes are used.
unfoldable pub neighbor_of : Bytes → Read Neighbor
neighbor_of nr =
    if ltb (length nr) nr_ie_min_len
    then overread
    else got (record {
      bssid = take 6 nr;
      info = get_le32 (drop 6 nr);
      op_class = get_or nr 10 0;
      channel = get_or nr 11 0;
      phy_type = get_or nr 12 0;
    })

-- The text in the 512 bytes of `buf`; `len`; and whether `snprintf` was called with a `len` above 512,
-- where the size that is left wraps around and it writes behind `buf`.
pub record Out : Type 0 where
  pub text : Bytes
  pub len : ℕ
  pub overflow : Bool

-- `len += snprintf(buf + len, MAX_NEIGHBOR_LEN - len, piece)`: what does not fit with a terminator is
-- cut off, also all of it where no byte is left, and `len` counts it all the same. After a write behind
-- `buf` nothing more is said.
unfoldable pub put : Bytes → Out → Out
put piece out =
    if ltb max_neighbor_len out.len then record out { overflow = true } else record out {
      text = out.text ++ take (max_neighbor_len - 1 - out.len) piece;
      len = out.len + length piece;
    }

abbrev pub put_all : List Bytes → Out → Out
put_all [] out = out
put_all (p ∷ ps) out = put_all ps (put p out)

-- Lines 162 to 177: the arguments of the calls.
abbrev pub pieces : Neighbor → List Bytes
pieces n =
    codes " neighbor="
    ∷ format_mac n.bssid
    ∷ codes ","
    ∷ (codes "0x" ++ hex4 n.info)
    ∷ codes ","
    ∷ print_int (pos n.op_class)
    ∷ codes ","
    ∷ print_int (pos n.channel)
    ∷ codes ","
    ∷ print_int (pos n.phy_type)
    ∷ []

-- A round of the loop of lines 93 to 182, with the memory from `data` to the end of the report, and
-- `report_len`: the neighbour, and both after it.
unfoldable pub read_element : Bytes → ℕ → Read (Neighbor × (Bytes × ℕ))
read_element bytes report_len = read_then (read_at bytes 0) (λ id.
    read_then (read_at bytes 1) (λ nr_len.
      if not (id == eid_neighbor_report) || ltb nr_len nr_ie_min_len
      then invalid
      else if ltb report_len (2 + nr_len)
      then invalid
      else read_then (read_slice nr_len (drop 2 bytes)) (λ part.
        read_then
          (read_subelements (suc (length part.0)) (drop nr_ie_min_len part.0) no_subelements)
          (λ subs.
            read_then (neighbor_of part.0)
              (λ n. got (n, (part.1, (report_len + size_mod - (2 + nr_len)) % size_mod)))))))

-- How `get_btm_neighbor_list` ends: with `buf` or, where `ret` is negative, with NULL, and with what
-- it has printed.
pub data Listed : Type 0 where
  listed unlisted : Out → Listed
  reads_outside runs_on : Listed

abbrev pub after_element :
    Read (Neighbor × (Bytes × ℕ)) → Out → (Neighbor × (Bytes × ℕ) → Listed) → Listed
after_element (got e) out next = next e
after_element invalid out next = unlisted out
after_element overread out next = reads_outside
after_element endless out next = runs_on

-- The loop of lines 93 to 182.
unfoldable pub list_rounds : ℕ → Bytes → ℕ → Out → Listed
list_rounds zero bytes report_len out = runs_on
list_rounds (suc rounds) bytes report_len out =
    let round =
      after_element (read_element bytes report_len) out
        (λ e. list_rounds rounds e.1.0 e.1.1 (put_all (pieces e.0) out)) in
    if ltb report_len (2 + nr_ie_min_len) then listed out else round

abbrev pub no_out : Out
no_out = record { text = []; len = 0; overflow = false }

-- The memory at `report`, which is not NULL, and `report_len`; `calloc` succeeds. A round takes a byte or
-- more of the memory.
unfoldable pub get_btm_neighbor_list : Bytes → ℕ → Listed
get_btm_neighbor_list report report_len =
    if report_len == 0
    then unlisted no_out
    else list_rounds (suc (length report)) report report_len no_out

-- What `neighbor_report_recv_cb` does: nothing; the query, with the text of the list if there is one
-- and with `cand_list`; or a read or a write outside the memory that it may use.
pub data Callback : Type 0 where
  nothing : Callback
  btm_query : Option Bytes → Bool → Callback
  outside : Callback

unfoldable pub scan_instead : Bool → Callback
scan_instead scan_ok = if scan_ok then btm_query none true else nothing

unfoldable pub query_list : Bool → Listed → Callback
query_list scan_ok (listed out) = if out.overflow then outside else btm_query (some out.text) false
query_list scan_ok (unlisted out) = if out.overflow then outside else scan_instead scan_ok
query_list scan_ok reads_outside = outside
query_list scan_ok runs_on = outside

-- With the number of the request, that of the last one, and whether the scan succeeds; the length of a
-- report of no bytes becomes 2 ^ 32 - 1.
unfoldable pub neighbor_report_recv_cb : Option Bytes → ℕ → ℕ → Bool → Callback
neighbor_report_recv_cb none val rrm_ctx scan_ok = nothing
neighbor_report_recv_cb (some report) val rrm_ctx scan_ok =
    if val == rrm_ctx
    then query_list scan_ok
        (get_btm_neighbor_list (drop 1 report) ((length report + size_mod - 1) % size_mod))
    else nothing
