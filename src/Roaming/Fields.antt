-- ===== src/Roaming/Fields.antt =====
-- The fields of an element that is read.
use esp8266_rtos_projects.Prelude.{
  ℕ, zero, suc, ◌+◌, ◌≤◌, ◌<◌, ◌≡◌, false, not, ◌||◌, size_mod, [], ◌∷◌, Bytes, All, arith, ltb,
  ◌==◌, length, length-take, length-drop, take, drop, get_or,
}
use esp8266_rtos_projects.Roaming.{
  Neighbor, neighbor_of, no_subelements, nr_ie_min_len, eid_neighbor_report, read_element,
}
use esp8266_rtos_projects.Roaming.Reads.{
  Gives, gives, IsByte, Gives-read_at, Gives-read_then, Gives-read_slice, Gives-if,
  read_subelements-Gives,
}

pub All-drop : (n : ℕ) (s : Bytes) → All IsByte s → All IsByte (drop n s)
All-drop zero s h = h
All-drop (suc n) [] h = tt
All-drop (suc n) (c ∷ s) (hc, h) = All-drop n s h

pub All-take : (n : ℕ) (s : Bytes) → All IsByte s → All IsByte (take n s)
All-take zero s h = tt
All-take (suc n) [] h = tt
All-take (suc n) (c ∷ s) (hc, h) = (hc, All-take n s h)

get_or-byte : (s : Bytes) (i : ℕ) → All IsByte s → get_or s i 0 < 256
get_or-byte [] i h = omega arith
get_or-byte (c ∷ s) zero (hc, h) = hc
get_or-byte (c ∷ s) (suc i) (hc, h) = get_or-byte s i h

-- What an access point's fields are printed in.
pub record IsSmall (n : Neighbor) : Type 0 where
  pub six : length n.bssid ≡ 6
  pub op_class : n.op_class < 256
  pub channel : n.channel < 256
  pub phy_type : n.phy_type < 256

pub neighbor_of-IsSmall :
    (nr : Bytes) → All IsByte nr → nr_ie_min_len ≤ length nr → Gives IsSmall (neighbor_of nr)
unfolding neighbor_of
neighbor_of-IsSmall nr h long =
    let whole : ltb (length nr) nr_ie_min_len ≡ false = ground arith in
    rw whole (
      gives (record {
        six = omega (arith, length-take 6 nr);
        op_class = get_or-byte nr 10 h;
        channel = get_or-byte nr 11 h;
        phy_type = get_or-byte nr 12 h;
      }))

-- An element takes fifteen bytes or more.
abbrev pub IsElement : Bytes → Neighbor × (Bytes × ℕ) → Type 0
IsElement bytes (n, (rest, left)) =
    (length rest + 15 ≤ length bytes) × ((left ≡ length rest) × (All IsByte rest × IsSmall n))

pub read_element-Gives :
    (bytes : Bytes) (report_len : ℕ)
    → report_len ≡ length bytes
    → report_len < size_mod
    → 15 ≤ report_len
    → All IsByte bytes
    → Gives (IsElement bytes) (read_element bytes report_len)
unfolding read_element
read_element-Gives bytes report_len same small_len h all =
    Gives-read_then (Gives-read_at bytes 0 (omega arith)) (λ id _.
      Gives-read_then (Gives-read_at bytes 1 (omega arith)) (λ nr_len _.
        Gives-if (λ (named : (not (id == eid_neighbor_report) || ltb nr_len nr_ie_min_len) ≡ false).
          Gives-if (λ (there : ltb report_len (2 + nr_len) ≡ false).
            let nr = take nr_len (drop 2 bytes) in
            let size : length nr ≡ nr_len =
              ground (arith, length-take nr_len (drop 2 bytes), length-drop 2 bytes) in
            let long : nr_ie_min_len ≤ nr_len = ground arith in
            let whole : ltb (length (drop 2 bytes)) nr_len ≡ false =
              ground (arith, length-drop 2 bytes) in
            Gives-read_slice _ nr_len (drop 2 bytes) whole (
              Gives-read_then
                (read_subelements-Gives (suc (length nr)) (drop nr_ie_min_len nr) no_subelements
                  (omega (arith, length-drop nr_ie_min_len nr)))
                (λ subs _.
                  Gives-read_then
                    (neighbor_of-IsSmall nr (All-take nr_len (drop 2 bytes) (All-drop 2 bytes all))
                      (omega arith))
                    (λ n small. gives (
                      ground (arith, length-drop nr_len (drop 2 bytes), length-drop 2 bytes),
                      (
                        ground (arith, length-drop nr_len (drop 2 bytes), length-drop 2 bytes),
                        (All-drop nr_len (drop 2 bytes) (All-drop 2 bytes all), small),
                      ),
                    ))))))))
