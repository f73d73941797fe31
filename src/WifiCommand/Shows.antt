-- ===== src/WifiCommand/Shows.antt =====
-- The list that follows a scan.
use esp8266_rtos_projects.Prelude.{
  ℕ, zero, suc, ◌+◌, ◌%◌, ◌≤◌, ◌<◌, ◌≡◌, refl, true, false, none, some, List, [], ◌∷◌, ◌++◌,
  append_assoc, length, length-append, get_elem?, arith, ltb, if◌then◌else◌, Bool-cases, inl, inr,
  tests,
}
use esp8266_rtos_projects.WifiCommand.{show_aps, scan_done_handler}

get_elem-append {ℓ} :
    {A : Type ℓ} (before : List A) (x : A) (rest : List A)
    → get_elem? (before ++ x ∷ rest) (length before) ≡ some x
get_elem-append [] x rest = refl
get_elem-append (b ∷ before) x rest = get_elem-append before x rest

show_aps-rest {ℓ} :
    {A : Type ℓ} (rest before : List A) (fuel : ℕ)
    → length (before ++ rest) ≤ 255
    → length rest < fuel
    → show_aps fuel (length before) (length (before ++ rest)) (before ++ rest) ≡ some rest
unfolding show_aps
show_aps-rest rest before zero h f = absurd (omega arith)
show_aps-rest [] before (suc fuel) h f =
    let over : ltb (length before) (length (before ++ [])) ≡ false =
      ground (arith, length-append before []) in
    rw over refl
show_aps-rest (x ∷ rest) before (suc fuel) h f =
    let on : ltb (length before) (length (before ++ x ∷ rest)) ≡ true =
      ground (arith, length-append before (x ∷ rest)) in
    let next : (length before + 1) % 256 ≡ length (before ++ x ∷ []) =
      ground (arith, length-append before (x ∷ []), length-append before (x ∷ rest)) in
    let same : (before ++ x ∷ []) ++ rest ≡ before ++ x ∷ rest =
      append_assoc before (x ∷ []) rest in
    let later : show_aps fuel (length (before ++ x ∷ [])) (length (before ++ x ∷ rest))
          (before ++ x ∷ rest)
        ≡ some rest =
      rw (← same)
        (show_aps-rest rest (before ++ x ∷ []) fuel (ground (arith, same)) (omega arith)) in
    rw (on, get_elem-append before x rest, next, later) refl

show_aps-never {ℓ} :
    {A : Type ℓ} (fuel i n : ℕ) (records : List A)
    → 256 ≤ n
    → i < 256
    → show_aps fuel i n records ≡ none
unfolding show_aps
show_aps-never zero i n records big h = refl
show_aps-never (suc fuel) i n records big h =
    ground (arith, show_aps-never fuel ((i + 1) % 256) n records big)

-- The access points that a scan has found are all shown, in their order, if there are at most 255; with
-- more, the loop does not end on any fuel, since its counter has 8 bits and the number that it is compared
-- with has 16.
pub scan_done_handler-shows {ℓ} :
    {A : Type ℓ} (records : List A) (fuel : ℕ)
    → length records < fuel
    → scan_done_handler fuel true true records
      ≡ (if ltb (length records) 256 then some records else none)
unfolding scan_done_handler
scan_done_handler-shows records fuel f = elim (Bool-cases (ltb (length records) 256)) [
  | inl few ↦ rw few (show_aps-rest records [] fuel (omega (tests, few)) f)
  | inr many ↦ rw many (show_aps-never fuel 0 (length records) records (ground arith) (omega arith))
]
