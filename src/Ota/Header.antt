-- ===== src/Ota/Header.antt =====
-- The header of the response, and the whole download.
use esp8266_rtos_projects.Prelude.{
  ℕ, zero, suc, ◌+◌, ◌≤◌, ◌≡◌, ◌≢◌, refl, ap, ◌∙◌, some, List, [], ◌∷◌, ◌++◌, append_assoc, Bytes,
  codes, ne→==, le→ltb, length, length-append, drop, All, arith,
}
use esp8266_rtos_projects.Ota.{OtaFirm, returns, read_until, note_length, parse_lines}

-- Lines, each with the line end that the code looks for, and the empty line.
abbrev pub header : List Bytes → Bytes
header [] = codes "\r\n"
header (l ∷ ls) = l ++ b'\n' ∷ header ls

-- A line that does not end the header.
abbrev pub IsLine : Bytes → Type 0
IsLine l = All (λ c. (c ≢ 0) × (c ≢ b'\n')) l × (length l ≢ 1)

read_until-line :
    (l s : Bytes)
    → All (λ c. (c ≢ 0) × (c ≢ b'\n')) l
    → read_until b'\n' (l ++ b'\n' ∷ s) ≡ length l + 1
unfolding read_until
read_until-line [] s h = refl
read_until-line (c ∷ l) s ((_, other), hl) = ground (arith, read_until-line l s hl)

drop-line : (k : ℕ) (l s : Bytes) → k ≡ length l + 1 → drop k (l ++ b'\n' ∷ s) ≡ s
drop-line zero l s h = absurd (omega arith)
drop-line (suc k) [] s h = ap (λ m. drop m s) {x = k} {y = 0} (omega arith)
drop-line (suc k) (c ∷ l) s h = drop-line k l s (omega arith)

module _ (text : Bytes) (firm noted : OtaFirm) (e : note_length text firm ≡ returns noted) where
  -- One round on a line of `k` bytes.
  parse_lines-more :
      (rounds c : ℕ) (s : Bytes) (i k : ℕ)
      → c ≢ 0
      → read_until b'\n' (c ∷ s) ≡ k
      → k ≤ length (c ∷ s)
      → k ≢ 2
      → parse_lines (suc rounds) text (c ∷ s) i firm
        ≡ parse_lines rounds text (drop k (c ∷ s)) (i + k) noted
  unfolding parse_lines
  parse_lines-more rounds c s i k some_char line inside long =
      rw
        (
          parse_lines,
          e,
          line,
          ne→== c 0 some_char,
          le→ltb (length (c ∷ s)) k inside,
          ne→== k 2 long,
        )
        refl

  parse_lines-end :
      (rounds i : ℕ) (body : Bytes)
      → noted.content_len ≢ 0
      → parse_lines (suc rounds) text (codes "\r\n" ++ body) i firm ≡ returns (some (i + 2), noted)
  unfolding parse_lines read_until
  parse_lines-end rounds i body found =
      rw
        (
          parse_lines,
          e,
          ne→== noted.content_len 0 found,
          le→ltb (suc (suc (length body))) 2 (omega arith),
        )
        refl

-- A round on a line, empty or not.
parse_lines-line :
    (text : Bytes) (firm noted : OtaFirm)
    → note_length text firm ≡ returns noted
    → (rounds : ℕ) (l s : Bytes) (i : ℕ) → IsLine l
    → parse_lines (suc rounds) text (l ++ b'\n' ∷ s) i firm
      ≡ parse_lines rounds text s (i + (length l + 1)) noted
unfolding read_until
parse_lines-line text firm noted e rounds [] s i (h, one) =
    parse_lines-more text firm noted e rounds b'\n' s i 1 (λ z. cc) refl (omega arith) (omega arith)
parse_lines-line text firm noted e rounds (c ∷ l) s i (h, one) =
    parse_lines-more text firm noted e rounds c (l ++ b'\n' ∷ s) i (length (c ∷ l) + 1) h.0.0
      (read_until-line (c ∷ l) s h) (omega (arith, length-append (c ∷ l) (b'\n' ∷ s)))
      (omega (arith, one))
    ∙ ap (λ r. parse_lines rounds text r (i + (length (c ∷ l) + 1)) noted)
        (drop-line (length (c ∷ l) + 1) (c ∷ l) s refl)

length-header :
    (l : Bytes) (ls : List Bytes) → length (header (l ∷ ls)) ≡ length l + 1 + length (header ls)
length-header l ls = omega (arith, length-append l (b'\n' ∷ header ls))

pub length-header_2 : (ls : List Bytes) → 2 ≤ length (header ls)
length-header_2 [] = omega arith
length-header_2 (l ∷ ls) = omega (arith, length-header l ls, length-header_2 ls)

pub parse_lines-header :
    (text : Bytes) (ls : List Bytes) (firm noted : OtaFirm)
    → note_length text firm ≡ returns noted
    → note_length text noted ≡ returns noted
    → noted.content_len ≢ 0
    → (rounds i : ℕ) (body : Bytes) → All IsLine ls
    → length (header ls) ≤ rounds
    → parse_lines rounds text (header ls ++ body) i firm
      ≡ returns (some (i + length (header ls)), noted)
parse_lines-header text ls firm noted e again found zero i body hl enough =
    absurd (omega (arith, length-header_2 ls))
parse_lines-header text [] firm noted e again found (suc rounds) i body hl enough =
    parse_lines-end text firm noted e rounds i body found
parse_lines-header text (l ∷ ls) firm noted e again found (suc rounds) i body (line, hl) enough =
    ap (λ r. parse_lines (suc rounds) text r i firm) (append_assoc l (b'\n' ∷ header ls) body)
    ∙ parse_lines-line text firm noted e rounds l (header ls ++ body) i line
    ∙ parse_lines-header text ls noted noted again again found rounds (i + (length l + 1)) body hl
        (omega (arith, length-header l ls))
    ∙ ap (λ k. returns (some k, noted)) (omega (arith, length-header l ls))
