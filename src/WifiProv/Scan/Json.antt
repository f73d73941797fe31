-- ===== src/WifiProv/Scan/Json.antt =====
-- The text that `scan_get_handler` sends: what it is, and that it fits `json_buf`.
use esp8266_rtos_projects.Prelude.{
  ℕ, ◌+◌, ◌≡◌, ◌≢◌, ◌⊎◌, inl, inr, refl, sym, ap, ◌∙◌, List, [], ◌∷◌, ◌++◌, append_assoc,
  append-nil, Bytes, codes, ◌==◌, if◌then◌else◌, length, arith, Bool-cases, lt→ltb, le→ltb, ==_iff,
  ne→==,
}
use esp8266_rtos_projects.Libc.Decimal.{pos, print_int}
use esp8266_rtos_projects.Utils.MacAddress.{format_mac, join_with}
use esp8266_rtos_projects.WifiProv.Scan.{
  ApRecord, ap_object, json_loop, last_or, drop_last, close_list, scan_json,
}

-- The objects of the stations that show a name.
pub visible_objects : List ApRecord → List Bytes
visible_objects [] = []
visible_objects (ap ∷ rest) =
    let others = visible_objects rest in
    if length ap.ssid == 0 then others else ap_object ap ∷ others

-- What the loop adds to the text for these records, the last of the list.
unfoldable pub added : List ApRecord → Bytes
added [] = []
added (ap ∷ []) = if length ap.ssid == 0 then [] else ap_object ap
added (ap ∷ next ∷ rest) =
    let others = added (next ∷ rest) in
    if length ap.ssid == 0 then others else ap_object ap ++ b',' ∷ others

pub json_loop-added :
    (n i : ℕ) (aps : List ApRecord) (buf : Bytes)
    → i + length aps ≡ n
    → json_loop n i aps buf ≡ buf ++ added aps
unfolding json_loop added
json_loop-added n i [] buf h = sym (append-nil buf)
json_loop-added n i (ap ∷ []) buf h =
    rw (le→ltb (i + 1) n (omega arith)) (ground (arith, append-nil buf))
json_loop-added n i (ap ∷ next ∷ rest) buf h =
    rw (json_loop-added n (i + 1) (next ∷ rest) _ (omega arith), lt→ltb (i + 1) n (omega arith))
      (ground (
        arith,
        append_assoc (buf ++ ap_object ap) (b',' ∷ []) (added (next ∷ rest)),
        append_assoc buf (ap_object ap) (b',' ∷ added (next ∷ rest)),
      ))

-- The text ends in a byte that is no comma.
abbrev Ends : Bytes → Type 0
Ends s = (t : Bytes) × (c : ℕ) × (s ≡ t ++ c ∷ []) × (c ≢ b',')

Ends-append : (s t : Bytes) → Ends t → Ends (s ++ t)
Ends-append s t (u, c, e, ne) = (s ++ u, c, rw e (sym (append_assoc s u (c ∷ []))), ne)

ap_object-Ends : (ap : ApRecord) → Ends (ap_object ap)
unfolding ap_object
ap_object-Ends ap = Ends-append (codes "{\"ssid\":\"") _ (
    Ends-append ap.ssid _ (
      Ends-append (codes "\",\"rssi\":") _ (
        Ends-append (print_int ap.rssi) _ (
          Ends-append (codes ",\"auth\":") _ (
            Ends-append (print_int (pos ap.authmode)) _ (
              Ends-append (codes ",\"bssid\":\"") _
                (Ends-append (format_mac ap.bssid) _ (b'"' ∷ [], b'}', refl, omega arith))))))))

abbrev join : List Bytes → Bytes
join = join_with b','

-- What is added is the objects with commas between them, and perhaps one at the end.
data Added (aps : List ApRecord) : Type 0 where
  none_shown : visible_objects aps ≡ [] → added aps ≡ [] → Added aps
  some_shown :
      (q : Bytes) (qs : List Bytes) (comma : Bytes)
      → visible_objects aps ≡ q ∷ qs
      → Ends (join (q ∷ qs))
      → (comma ≡ []) ⊎ (comma ≡ b',' ∷ [])
      → added aps ≡ join (q ∷ qs) ++ comma
      → Added aps

module _ (ap : ApRecord) (next : ApRecord) (rest : List ApRecord) where
  Added-hidden : length ap.ssid ≡ 0 → Added (next ∷ rest) → Added (ap ∷ next ∷ rest)
  unfolding added visible_objects
  Added-hidden h (none_shown v e) = none_shown (ground arith) (ground arith)
  Added-hidden h (some_shown q qs comma v ends c e) =
      some_shown q qs comma (ground arith) ends c (ground arith)

  Added-shown : length ap.ssid ≢ 0 → Added (next ∷ rest) → Added (ap ∷ next ∷ rest)
  unfolding added visible_objects
  Added-shown h (none_shown v e) =
      some_shown (ap_object ap) [] (b',' ∷ []) (ground arith) (ap_object-Ends ap) (inr refl)
        (ground arith)
  Added-shown h (some_shown q qs comma v ends c e) =
      some_shown (ap_object ap) (q ∷ qs) comma (ground arith)
        (Ends-append (ap_object ap) _ (Ends-append (b',' ∷ []) _ ends)) c
        (ground (arith, append_assoc (ap_object ap) (b',' ∷ join (q ∷ qs)) comma))

Added-Added : (aps : List ApRecord) → Added aps
Added-Added [] = unfold added visible_objects in none_shown refl refl
Added-Added (ap ∷ []) = elim (Bool-cases (length ap.ssid == 0)) [
  | inl hidden ↦ unfold added visible_objects in none_shown (ground arith) (ground arith)
  | inr shown ↦
      unfold added visible_objects in
      some_shown (ap_object ap) [] [] (ground arith) (ap_object-Ends ap) (inl refl)
        (ground (arith, append-nil (ap_object ap)))
]
Added-Added (ap ∷ next ∷ rest) =
    let ih = Added-Added (next ∷ rest) in
    elim (Bool-cases (length ap.ssid == 0)) [
      | inl hidden ↦ Added-hidden ap next rest ((==_iff _ 0).0 hidden) ih
      | inr shown ↦ Added-shown ap next rest (ground arith) ih
    ]

last_or-snoc : (d : ℕ) (s : Bytes) (c : ℕ) → last_or d (s ++ c ∷ []) ≡ c
last_or-snoc d [] c = refl
last_or-snoc d (x ∷ s) c = last_or-snoc x s c

drop_last-snoc : (s : Bytes) (c : ℕ) → drop_last (s ++ c ∷ []) ≡ s
drop_last-snoc [] c = refl
drop_last-snoc (x ∷ []) c = refl
drop_last-snoc (x ∷ y ∷ s) c = ap (λ t. x ∷ t) (drop_last-snoc (y ∷ s) c)

close_list-Ends : (s : Bytes) → Ends s → close_list s ≡ s ++ b']' ∷ []
unfolding close_list
close_list-Ends s (t, c, e, ne) = rw (e, last_or-snoc 0 t c, ne→== c b',' ne)

close_list-comma : (s : Bytes) → close_list (s ++ b',' ∷ []) ≡ s ++ b']' ∷ []
unfolding close_list
close_list-comma s = rw (last_or-snoc 0 s b',', drop_last-snoc s b',')

pub close_list-maybe :
    (s comma : Bytes)
    → Ends s
    → (comma ≡ []) ⊎ (comma ≡ b',' ∷ [])
    → close_list (s ++ comma) ≡ s ++ b']' ∷ []
close_list-maybe s comma ends (inl e) = rw (e, append-nil) (close_list-Ends s ends)
close_list-maybe s comma ends (inr e) = rw e (close_list-comma s)

-- Whatever stations were found, in any order, the text is the list of those that show a name, one
-- object for each, with a comma between each two objects and none elsewhere.
pub scan_json-join :
    (aps : List ApRecord)
    → scan_json aps ≡ b'[' ∷ (join_with b',' (visible_objects aps) ++ b']' ∷ [])
unfolding scan_json
scan_json-join aps =
    ap close_list (json_loop-added (length aps) 0 aps (b'[' ∷ []) (omega arith))
    ∙ close (Added-Added aps)
  where
    close :
        Added aps → close_list (b'[' ∷ added aps) ≡ b'[' ∷ (join (visible_objects aps) ++ b']' ∷ [])
    close (none_shown v e) = rw (v, e, close_list-Ends (b'[' ∷ []) ([], b'[', refl, omega arith))
    close (some_shown q qs comma v ends c e) =
        rw (v, e) (close_list-maybe (b'[' ∷ join (q ∷ qs)) comma (Ends-append (b'[' ∷ []) _ ends) c)
