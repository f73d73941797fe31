-- ===== src/Roaming/Reported.antt =====
-- The list of a report that is well formed.
use esp8266_rtos_projects.Prelude.{
  ℕ, zero, suc, ◌+◌, ◌-◌, ◌%◌, size_mod, codes, take, ◌*◌, ◌≤◌, ◌<◌, ◌≡◌, refl, ap, ap₂, sym, ◌∙◌,
  true, false, List, [], ◌∷◌, ◌++◌, append_assoc, append-nil, Bytes, All, arith, ltb, ◌==◌, length,
  length-append, take_append, drop_append, joined, map,
}
use esp8266_rtos_projects.Libc.Hex.{hex2, hex4}
use esp8266_rtos_projects.Libc.Decimal.{pos, print_int}
use esp8266_rtos_projects.Roaming.{
  got, neighbor_of, no_subelements, nr_ie_min_len, Out, put, pieces, put_all, read_element, listed,
  list_rounds, get_btm_neighbor_list,
}
use esp8266_rtos_projects.Roaming.Sent.{
  Sent, optional, payload, element, neighbor, read_subelements-got, get_le32-le32,
}

read_element-sent :
    (s : Sent) (more : Bytes) (report_len : ℕ)
    → length (payload s) < 256
    → report_len ≡ length (element s ++ more)
    → report_len < size_mod
    → read_element (element s ++ more) report_len ≡ got (neighbor s, (more, length more))
unfolding read_element neighbor_of
read_element-sent s more report_len short same small_len =
    let whole : ltb (length (payload s)) nr_ie_min_len ≡ false = ground arith in
    let there : ltb report_len (2 + length (payload s)) ≡ false =
      ground (arith, length-append (payload s) more) in
    let inside : ltb (length (payload s ++ more)) (length (payload s)) ≡ false =
      ground (arith, length-append (payload s) more) in
    let left : (report_len + size_mod - (2 + length (payload s))) % size_mod ≡ length more =
      omega (arith, length-append (payload s) more) in
    let (noted, e) =
      read_subelements-got s.subs (suc (length (payload s))) no_subelements (omega arith) in
    let all = take_append (optional s) more (length (optional s)) refl in
    let rest = drop_append (optional s) more in
    rw (whole, there, inside, all, e, whole, get_le32-le32 s.info _)
      (ap₂ (λ r k. got (neighbor s, (r, k))) rest left)

-- An element's payload has a length of one byte.
abbrev pub IsShort : Sent → Type 0
IsShort s = length (payload s) < 256

-- The text of a neighbour: its address, its information in hexadecimal, and its class, channel and type.
abbrev pub text_of : Sent → Bytes
text_of s =
    codes " neighbor="
    ++ (hex2 s.b0
        ++ b':' ∷ hex2 s.b1
        ++ b':' ∷ hex2 s.b2
        ++ b':' ∷ hex2 s.b3
        ++ b':' ∷ hex2 s.b4
        ++ b':' ∷ hex2 s.b5
        ++ b','
          ∷ b'0'
          ∷ b'x'
          ∷ (hex4 s.info
              ++ b','
                ∷ (print_int (pos s.op_class)
                    ++ b',' ∷ (print_int (pos s.channel) ++ b',' ∷ print_int (pos s.phy_type)))))

abbrev around : Sent → Bytes → Bytes
around s t =
    codes " neighbor="
    ++ (hex2 s.b0
        ++ b':' ∷ hex2 s.b1
        ++ b':' ∷ hex2 s.b2
        ++ b':' ∷ hex2 s.b3
        ++ b':' ∷ hex2 s.b4
        ++ b':' ∷ hex2 s.b5
        ++ b','
          ∷ b'0'
          ∷ b'x'
          ∷ (hex4 s.info
              ++ b','
                ∷ (print_int (pos s.op_class) ++ b',' ∷ (print_int (pos s.channel) ++ b',' ∷ t))))

joined-pieces : (s : Sent) → joined (pieces (neighbor s)) ≡ text_of s
joined-pieces s = ap (around s) (append-nil (print_int (pos s.phy_type)))

-- The buffer when the text is `t`, which its 512 bytes hold but for the terminator.
abbrev pub holding : Bytes → Out
holding t = record { text = take 511 t; len = length t; overflow = false }

take-append {ℓ} :
    {A : Type ℓ} (n : ℕ) (xs ys : List A) → take n (xs ++ ys) ≡ take n xs ++ take (n - length xs) ys
take-append zero xs ys = ap (λ k. take k ys) {x = 0} {y = 0 - length xs} (omega arith)
take-append (suc n) [] ys = ap (λ k. take k ys) {x = suc n} {y = suc n - 0} (omega arith)
take-append (suc n) (x ∷ xs) ys =
    ap (λ t. x ∷ t) (take-append n xs ys)
    ∙ ap (λ k. x ∷ take n xs ++ take k ys) {x = n - length xs} {y = suc n - suc (length xs)}
        (omega arith)

put-holding : (t p : Bytes) → length t ≤ 512 → put p (holding t) ≡ holding (t ++ p)
unfolding put
put-holding t p room = ground (arith, take-append 511 t p, length-append t p)

put_all-holding :
    (ps : List Bytes) (t : Bytes)
    → length (t ++ joined ps) ≤ 512
    → put_all ps (holding t) ≡ holding (t ++ joined ps)
put_all-holding [] t room = ap holding (sym (append-nil t))
put_all-holding (p ∷ ps) t room =
    ap (put_all ps) (put-holding t p (omega (arith, length-append t (p ++ joined ps))))
    ∙ put_all-holding ps (t ++ p) (omega (arith, ap length (append_assoc t p (joined ps))))
    ∙ ap holding (append_assoc t p (joined ps))

abbrev texts : List Sent → Bytes
texts sent = joined (map text_of sent)

list_rounds-sent :
    (sent : List Sent) (rounds : ℕ) (tail : Bytes) (report_len : ℕ) (t : Bytes)
    → All IsShort sent
    → length tail < 15
    → length sent < rounds
    → report_len ≡ length (joined (map element sent) ++ tail)
    → report_len < size_mod
    → length (t ++ texts sent) ≤ 512
    → list_rounds rounds (joined (map element sent) ++ tail) report_len (holding t)
      ≡ listed (holding (t ++ texts sent))
unfolding list_rounds
list_rounds-sent sent zero tail report_len t short few enough same small_len room =
    absurd (omega arith)
list_rounds-sent [] (suc rounds) tail report_len t short few enough same small_len room =
    let over : ltb report_len 15 ≡ true = ground arith in
    rw over (ap (λ r. listed (holding r)) (sym (append-nil t)))
list_rounds-sent (s ∷ sent) (suc rounds) tail report_len t (here, short) few enough same small_len
      room =
    let more = joined (map element sent) ++ tail in
    let apart : joined (map element (s ∷ sent)) ++ tail ≡ element s ++ more =
      append_assoc (element s) (joined (map element sent)) tail in
    let whole : report_len ≡ length (element s ++ more) = same ∙ ap length apart in
    let long : ltb report_len 15 ≡ false = ground (arith, length-append (payload s) more) in
    let grown : length ((t ++ text_of s) ++ texts sent) ≤ 512 =
      omega (arith, ap length (append_assoc t (text_of s) (texts sent))) in
    let printed : put_all (pieces (neighbor s)) (holding t) ≡ holding (t ++ text_of s) =
      put_all-holding (pieces (neighbor s)) t (
        omega (
          arith,
          ap (λ r. length (t ++ r)) (joined-pieces s),
          length-append (t ++ text_of s) (texts sent),
        ))
      ∙ ap (λ r. holding (t ++ r)) (joined-pieces s) in
    let later =
      list_rounds-sent sent rounds tail (length more) (t ++ text_of s) short few (omega arith) refl
        (omega (arith, length-append (payload s) more)) grown in
    ap (λ bytes. list_rounds (suc rounds) bytes report_len (holding t)) apart
    ∙ rw (list_rounds, long, read_element-sent s more report_len here whole small_len, printed)
        (later ∙ ap (λ r. listed (holding r)) (append_assoc t (text_of s) (texts sent)))

length-elements :
    (sent : List Sent) (tail : Bytes)
    → 15 * length sent ≤ length (joined (map element sent) ++ tail)
length-elements [] tail = omega arith
length-elements (s ∷ sent) tail =
    let more = joined (map element sent) in
    omega (
      arith,
      length-elements sent tail,
      length-append (joined (map element (s ∷ sent))) tail,
      length-append (element s) more,
      length-append more tail,
    )

-- A report of neighbours, each with any subelements, one after the other, and of less than fifteen bytes
-- behind them, whose texts have at most 512 bytes together, gives the list of these texts, in their
-- order, each with the address, the information, the class, the channel and the type of its
-- neighbour; `buf` holds the first 511 bytes of it, and nothing is written behind `buf`.
pub get_btm_neighbor_list-sent :
    (first : Sent) (sent : List Sent) (tail : Bytes)
    → All IsShort (first ∷ sent)
    → length tail < 15
    → length (joined (map element (first ∷ sent)) ++ tail) < size_mod
    → length (joined (map text_of (first ∷ sent))) ≤ 512
    → let report = joined (map element (first ∷ sent)) ++ tail in
      get_btm_neighbor_list report (length report)
      ≡ listed (record {
        text = take 511 (joined (map text_of (first ∷ sent)));
        len = length (joined (map text_of (first ∷ sent)));
        overflow = false;
      })
unfolding get_btm_neighbor_list
get_btm_neighbor_list-sent first sent tail short few small_len room =
    let report = joined (map element (first ∷ sent)) ++ tail in
    let some_bytes : (length report == 0) ≡ false =
      ground (arith, length-elements (first ∷ sent) tail) in
    rw some_bytes (
      list_rounds-sent (first ∷ sent) (suc (length report)) tail (length report) [] short few
        (omega (arith, length-elements (first ∷ sent) tail)) refl small_len room)
