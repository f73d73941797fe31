-- ===== src/Ota/Ends.antt =====
-- The loop of `esp_ota_firm_parse_msg` ends, while the update is not finished.
use esp8266_rtos_projects.Libc.Text.{strstr}
use esp8266_rtos_projects.Prelude.{
  ◌-◌, ◌≤◌, Option-cases, inl, inr, ltb, codes, c_string, length-take, length-drop, eq_self, ℕ,
  zero, suc, ◌+◌, ◌≡◌, refl, Bool, true, false, none, some, [], ◌∷◌, Bytes, drop, length, arith,
}
use esp8266_rtos_projects.Ota.{
  OtaFirm, FirmState, ota_init, ota_prepare, ota_start, ota_recved, ota_finish, Ended, returns,
  fatal, undefined, endless, note_length, content_length, parse_lines, parse_http, do_parse_msg,
  parse_rounds, parse_msg, is_finished, read_until,
}

abbrev pub ends : {A : Type 0} → Ended A → Bool
ends (returns a) = true
ends fatal = true
ends undefined = false
ends endless = false

-- The first Content-Length, if there is one, has a line end behind its value, which has less than 32
-- bytes.
abbrev pub field_is_sound : Bytes → Bool
field_is_sound field = elim (strstr (drop 16 field) (codes "\r\n")) [
  | none ↦ false
  | some after ↦ ltb (length (drop 16 field)) (32 + length after)
]

abbrev pub is_sound : Bytes → Bool
is_sound text = elim (strstr (c_string text) (codes "Content-Length")) [
  | none ↦ true
  | some field ↦ field_is_sound field
]

content_length-ends :
    (field : Bytes) → field_is_sound field ≡ true → ends (content_length field) ≡ true
unfolding content_length
content_length-ends field h = elim (Option-cases (strstr (drop 16 field) (codes "\r\n"))) [
  | inl e ↦ ground arith
  | inr (after, e) ↦
      ground (arith, length-take (length (drop 16 field) - length after) (drop 16 field))
]

note_length-ends :
    (text : Bytes) (firm : OtaFirm) → is_sound text ≡ true → ends (note_length text firm) ≡ true
unfolding note_length
note_length-ends text firm h =
    elim (Option-cases (strstr (c_string text) (codes "Content-Length"))) [
      | inl e ↦ ground arith
      | inr (field, e) ↦ ground (arith, content_length-ends field)
    ]

data Shape {A : Type 0} (r : Ended A) : Type 0 where
  returned : (a : A) → r ≡ returns a → Shape r
  died : r ≡ fatal → Shape r

Ended-Shape : {A : Type 0} (r : Ended A) → ends r ≡ true → Shape r
Ended-Shape (returns a) h = returned a refl
Ended-Shape fatal h = died refl
Ended-Shape undefined h = cc
Ended-Shape endless h = cc

read_until-some : (delim : ℕ) (s : Bytes) → 1 ≤ read_until delim s
unfolding read_until
read_until-some delim [] = omega arith
read_until-some delim (c ∷ s) = ground (arith, read_until-some delim s)

parse_lines-ends :
    (rounds : ℕ) (text rest : Bytes) (i : ℕ) (firm : OtaFirm)
    → is_sound text ≡ true
    → length rest ≤ rounds
    → ends (parse_lines rounds text rest i firm) ≡ true
unfolding parse_lines
parse_lines-ends zero text [] i firm h enough = refl
parse_lines-ends zero text (c ∷ s) i firm h enough = absurd (omega arith)
parse_lines-ends (suc rounds) text [] i firm h enough = refl
parse_lines-ends (suc rounds) text (c ∷ s) i firm h enough =
    elim (Ended-Shape (note_length text firm) (note_length-ends text firm h)) [
      | returned noted e ↦
          let later =
            parse_lines-ends rounds text (drop (read_until b'\n' (c ∷ s)) (c ∷ s))
              (i + read_until b'\n' (c ∷ s)) noted h
              (omega (
                arith,
                read_until-some b'\n' (c ∷ s),
                length-drop (read_until b'\n' (c ∷ s)) (c ∷ s),
              )) in
          rw (parse_lines, e) (ground (arith, later))
      | died e ↦ rw (parse_lines, e) (ground arith)
    ]

-- A round takes the whole message, or it has read the header and the next round takes the rest.
prepare-ends :
    (rounds : ℕ) (p : Bytes) (firm : OtaFirm)
    → firm.state ≡ ota_prepare
    → ends (parse_rounds (suc rounds) p firm) ≡ true
unfolding parse_rounds do_parse_msg
prepare-ends rounds p firm h = rw (h, parse_rounds, do_parse_msg, eq_self (length p)) refl

start-ends :
    (rounds : ℕ) (p : Bytes) (firm : OtaFirm)
    → firm.state ≡ ota_start
    → ends (parse_rounds (suc rounds) p firm) ≡ true
unfolding parse_rounds do_parse_msg
start-ends rounds p firm h = rw (h, parse_rounds, do_parse_msg, eq_self (length p)) refl

init-ends :
    (p : Bytes) (firm : OtaFirm)
    → is_sound p ≡ true
    → firm.state ≡ ota_init
    → ends (parse_rounds 2 p firm) ≡ true
unfolding parse_rounds do_parse_msg parse_http
init-ends p firm sound h =
    elim (Ended-Shape (parse_http p firm)
      (parse_lines-ends (length p) p p 0 firm sound (omega arith))) [
        | returned (none, f) e ↦ rw (h, parse_rounds, do_parse_msg, e, eq_self (length p)) refl
        | returned (some k, f) e ↦
            rw (h, parse_rounds, do_parse_msg, e)
              (ground (arith, prepare-ends 0 (drop k p) (record f { state = ota_prepare }) refl))
        | died e ↦ rw (h, parse_rounds, do_parse_msg, e) refl
      ]

state-ends :
    (st : FirmState) (p : Bytes) (firm : OtaFirm)
    → is_sound p ≡ true
    → firm.state ≡ st
    → is_finished st ≡ false
    → ends (parse_rounds 2 p firm) ≡ true
state-ends ota_init p firm sound e h = init-ends p firm sound e
state-ends ota_prepare p firm sound e h = prepare-ends 1 p firm e
state-ends ota_start p firm sound e h = start-ends 1 p firm e
state-ends ota_recved p firm sound e h = cc
state-ends ota_finish p firm sound e h = cc

-- While the update is not finished, two rounds of the loop are enough for any message in which the first
-- Content-Length, if there is one, has a line end behind its value, which has less than 32 bytes: the
-- loop ends, or it ends the task with an error, and no behaviour in it is undefined.
pub parse_msg-ends :
    (p : Bytes) (firm : OtaFirm)
    → is_sound p ≡ true
    → is_finished firm.state ≡ false
    → ends (parse_msg p firm) ≡ true
unfolding parse_msg
parse_msg-ends p firm sound h = state-ends firm.state p firm sound refl h
