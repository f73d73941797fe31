-- ===== src/Roaming/Room.antt =====
-- The loop ends, and the list of a short report fits into its buffer.
use esp8266_rtos_projects.Prelude.{
  ℕ, zero, suc, ◌+◌, ◌-◌, ◌%◌, size_mod, ◌*◌, ◌≤◌, ◌<◌, ◌≡◌, refl, Bool, true, false, not, some, [],
  ◌∷◌, Bytes, All, arith, ltb, ◌==◌, length, Bool-cases, inl, inr,
}
use esp8266_rtos_projects.Roaming.{
  Read, Neighbor, Out, pieces, put_all, after_element, Listed, listed, unlisted, reads_outside,
  runs_on, list_rounds, no_out, get_btm_neighbor_list, Callback, nothing, btm_query, outside,
  scan_instead, query_list, neighbor_report_recv_cb,
}
use esp8266_rtos_projects.Roaming.Fields.{read_element-Gives}
use esp8266_rtos_projects.Roaming.Pieces.{total-pieces, put_all-fits}
use esp8266_rtos_projects.Roaming.Reads.{Gives, gives, finds, IsByte}

-- How the list ends, and whether all that was printed went into its buffer.
abbrev pub IsListed : Listed → Type 0
IsListed (listed out) = Unit
IsListed (unlisted out) = Unit
IsListed reads_outside = ⊥
IsListed runs_on = ⊥

abbrev pub fits : Listed → Bool
fits (listed out) = not out.overflow
fits (unlisted out) = not out.overflow
fits reads_outside = false
fits runs_on = false

after_element-Gives :
    {P : Neighbor × (Bytes × ℕ) → Type 0} {r : Read (Neighbor × (Bytes × ℕ))} (Q : Listed → Type 0)
    (out : Out) (next : Neighbor × (Bytes × ℕ) → Listed)
    → Gives P r
    → Q (unlisted out)
    → ((e : Neighbor × (Bytes × ℕ)) → P e → Q (next e))
    → Q (after_element r out next)
after_element-Gives Q out next (gives {a = e} h) here then_on = then_on e h
after_element-Gives Q out next finds here then_on = here

list_rounds-IsListed :
    (rounds : ℕ) (bytes : Bytes) (report_len : ℕ) (out : Out)
    → report_len ≡ length bytes
    → report_len < size_mod
    → report_len < rounds
    → All IsByte bytes
    → IsListed (list_rounds rounds bytes report_len out)
unfolding list_rounds
list_rounds-IsListed zero bytes report_len out same small_len enough all = absurd (omega arith)
list_rounds-IsListed (suc rounds) bytes report_len out same small_len enough all =
    elim (Bool-cases (ltb report_len 15)) [
      | inl over ↦ rw over tt
      | inr more ↦ rw more (
          after_element-Gives IsListed out _
            (read_element-Gives bytes report_len same small_len (ground arith) all) tt
            (λ e (size, (left, (bytes_left, small))).
              list_rounds-IsListed rounds e.1.0 e.1.1 (put_all (pieces e.0) out) left (omega arith)
                (omega arith) bytes_left))
    ]

list_rounds-fits :
    (k rounds : ℕ) (bytes : Bytes) (report_len : ℕ) (out : Out)
    → report_len ≡ length bytes
    → report_len < size_mod
    → report_len < rounds
    → All IsByte bytes
    → report_len < 15 * k + 15
    → out.overflow ≡ false
    → out.len + 50 * k ≤ 512
    → fits (list_rounds rounds bytes report_len out) ≡ true
unfolding list_rounds
list_rounds-fits k zero bytes report_len out same small_len enough all short h room =
    absurd (omega arith)
list_rounds-fits k (suc rounds) bytes report_len out same small_len enough all short h room =
    elim (Bool-cases (ltb report_len 15)) [
      | inl over ↦ rw over (ground arith)
      | inr more ↦
          let long : 15 ≤ report_len = ground arith in
          rw more (
            after_element-Gives (λ l. fits l ≡ true) out _
              (read_element-Gives bytes report_len same small_len long all) (ground arith)
              (λ e (size, (left, (bytes_left, small))).
                let at_most = total-pieces e.0 small in
                let (dry, longer) = put_all-fits (pieces e.0) out h (omega arith) in
                list_rounds-fits (k - 1) rounds e.1.0 e.1.1 (put_all (pieces e.0) out) left
                  (omega arith) (omega arith) bytes_left (omega arith) dry (omega arith)))
    ]

-- Whatever bytes a report of less than 2 ^ 32 bytes has, with its length for `report_len`: nothing
-- outside it is read, neither a byte nor a part that goes beyond its end, and the reading ends, with the
-- list, or with none where the report is found invalid.
pub get_btm_neighbor_list-IsListed :
    (report : Bytes)
    → All IsByte report
    → length report < size_mod
    → IsListed (get_btm_neighbor_list report (length report))
unfolding get_btm_neighbor_list
get_btm_neighbor_list-IsListed [] all small_len = tt
get_btm_neighbor_list-IsListed (b ∷ report) all small_len =
    let some_bytes : (length (b ∷ report) == 0) ≡ false = ground arith in
    rw some_bytes (
      list_rounds-IsListed (suc (length (b ∷ report))) (b ∷ report) (length (b ∷ report)) no_out
        refl small_len (omega arith) all)

abbrev pub stays_inside : Callback → Bool
stays_inside nothing = true
stays_inside (btm_query text cand_list) = true
stays_inside outside = false

-- A report of 1 to 165 bytes, whatever they are, is handled inside the memory that there is for it:
-- nothing outside the report is read and, of at most ten neighbours that it can hold, the list fits
-- into its 512 bytes.
pub neighbor_report_recv_cb-inside :
    (first : ℕ) (report : Bytes) (val rrm_ctx : ℕ) (scan_ok : Bool)
    → All IsByte report
    → length report ≤ 164
    → stays_inside (neighbor_report_recv_cb (some (first ∷ report)) val rrm_ctx scan_ok) ≡ true
unfolding neighbor_report_recv_cb query_list scan_instead get_btm_neighbor_list
neighbor_report_recv_cb-inside first report val rrm_ctx scan_ok all short = ground (
  arith,
  list_rounds-fits 10 (suc (length report)) report
      ((length (first ∷ report) + size_mod - 1) % size_mod) no_out (omega arith) (omega arith)
      (omega arith) all (omega arith) refl (omega arith),
)
