-- ===== src/Ota/Body.antt =====
-- The body of the response, however it is cut into packets.
use esp8266_rtos_projects.Prelude.{
  eq_self, joined, ℕ, zero, suc, add_size, ◌+◌, ◌-◌, ◌≤◌, ◌<◌, ◌≡◌, ◌≢◌, refl, sym, ap, ◌∙◌, Bool,
  true, false, some, List, [], ◌∷◌, ◌++◌, append_assoc, append-nil, map, Bytes, ltb, lt→ltb, le→ltb,
  take-nil, ne→==, ltb→lt, Bool-cases, inl, inr, length, take, drop, take_all, All, arith,
}
use esp8266_rtos_projects.Ota.{
  OtaFirm, ota_start, ota_recved, on_packet, parse_msg, parse_rounds, do_parse_msg, packet, closed,
  receive_image, written, returns, sub_size, buffsize, text_buffsize,
}

ltb-false : (a b : ℕ) → ltb a b ≡ false → b ≤ a
ltb-false a b h = ground arith

-- What `recv` returns while the connection lasts.
abbrev pub IsPacket : Bytes → Type 0
IsPacket p = (p ≢ []) × (length p ≤ text_buffsize)

abbrev taken : OtaFirm → Bytes → OtaFirm
taken firm p = record firm {
  bytes = length p;
  state = ota_start;
  buf = p;
  write_bytes = firm.write_bytes + length p;
}

abbrev pub room : OtaFirm → ℕ
room firm = firm.ota_size - firm.write_bytes

-- An update that has begun and has room.
pub record IsStarted (firm : OtaFirm) : Type 0 where
  pub started : firm.state ≡ ota_start
  pub fits : firm.write_bytes ≤ firm.ota_size
  pub small : firm.ota_size < 2147483648

take_short {ℓ} :
    {A : Type ℓ} (n : ℕ) (xs ys : List A) → n ≤ length xs → take n (xs ++ ys) ≡ take n xs
take_short zero xs ys h = refl
take_short (suc n) [] ys h = elim h [ ]
take_short (suc n) (x ∷ xs) ys h = ap (λ t. x ∷ t) (take_short n xs ys (omega arith))

pub take_long {ℓ} :
    {A : Type ℓ} (n : ℕ) (xs ys : List A)
    → length xs ≤ n
    → take n (xs ++ ys) ≡ xs ++ take (n - length xs) ys
take_long n [] ys h = ap (λ k. take k ys) (omega arith)
take_long zero (x ∷ xs) ys h = elim h [ ]
take_long (suc n) (x ∷ xs) ys h =
    ap (λ t. x ∷ t) (take_long n xs ys (omega arith) ∙ ap (λ k. xs ++ take k ys) (omega arith))

-- A message that is taken whole needs one round.
pub parse_rounds-whole :
    (rounds : ℕ) (p : Bytes) (firm f : OtaFirm)
    → do_parse_msg firm firm.state p ≡ returns (length p, f)
    → parse_rounds (suc rounds) p firm ≡ returns f
unfolding parse_rounds
parse_rounds-whole rounds p firm f e = rw (e, parse_rounds, eq_self (length p)) refl

pub parse_rounds-more :
    (rounds k : ℕ) (p : Bytes) (firm f : OtaFirm)
    → do_parse_msg firm firm.state p ≡ returns (k, f)
    → k < length p
    → parse_rounds (suc rounds) p firm ≡ parse_rounds rounds (drop k p) f
unfolding parse_rounds
parse_rounds-more rounds k p firm f e h =
    rw (e, parse_rounds, ne→== (length p) k (omega (arith, h))) refl

abbrev cut : OtaFirm → Bytes → OtaFirm
cut firm p = record firm {
  bytes = room firm;
  state = ota_recved;
  buf = p;
  write_bytes = firm.ota_size;
}

module _ (firm : OtaFirm) (h : IsStarted firm) (p : Bytes) (short : length p ≤ text_buffsize) where
  no_wrap : add_size firm.write_bytes (length p) ≡ firm.write_bytes + length p
  no_wrap = omega (arith, h.fits, h.small)

  at_start : do_parse_msg firm firm.state p ≡ do_parse_msg firm ota_start p
  at_start = ap (λ v. do_parse_msg firm v p) h.started

  start-fits :
      length p ≤ room firm → do_parse_msg firm ota_start p ≡ returns (length p, taken firm p)
  unfolding do_parse_msg
  start-fits fit =
      rw
        (
          no_wrap,
          le→ltb firm.ota_size (firm.write_bytes + length p) (omega (arith, h.fits)),
          no_wrap,
        )
        refl

  start-over : room firm < length p → do_parse_msg firm ota_start p ≡ returns (length p, cut firm p)
  unfolding do_parse_msg
  start-over over =
      rw
        (
          no_wrap,
          lt→ltb firm.ota_size (firm.write_bytes + length p) (omega (arith, h.fits)),
          left,
          all,
        )
        refl
    where
      left : sub_size firm.ota_size firm.write_bytes ≡ room firm
      left = omega (arith, h.fits, h.small)

      all : add_size firm.write_bytes (room firm) ≡ firm.ota_size
      all = omega (arith, h.fits, h.small)

  on_packet-fits : length p ≤ room firm → on_packet p firm ≡ returns (some p, true, taken firm p)
  unfolding on_packet parse_msg
  on_packet-fits fit =
      rw
        (
          on_packet,
          parse_rounds-whole 1 p firm (taken firm p) (at_start ∙ start-fits fit),
          le→ltb (buffsize + 1) (length p) (omega (arith, short)),
          take_all (length p) p (omega arith),
        )
        refl

  on_packet-over :
      room firm < length p
      → on_packet p firm ≡ returns (some (take (room firm) p), false, cut firm p)
  unfolding on_packet parse_msg
  on_packet-over over =
      rw
        (
          on_packet,
          parse_rounds-whole 1 p firm (cut firm p) (at_start ∙ start-over over),
          le→ltb (buffsize + 1) (room firm) (omega (arith, short)),
        )
        refl

  taken-IsStarted : length p ≤ room firm → IsStarted (taken firm p)
  taken-IsStarted fit = record { started = refl; fits = omega (arith, h.fits); small = h.small }

-- While the flash takes what is written, the image is the announced number of bytes of the body, or
-- all of it if the connection closes before.
module _ (write_ok : Bytes → Bool) (takes : (b : Bytes) → write_ok b ≡ true) where
  pub receive_image-body :
      (pieces : List Bytes) (image : Bytes) (firm : OtaFirm)
      → IsStarted firm
      → All IsPacket pieces
      → receive_image write_ok (map packet pieces ++ closed ∷ []) image firm
        ≡ written (image ++ take (room firm) (joined pieces))
  unfolding receive_image
  receive_image-body [] image firm h hp =
      ap written (sym (ap (λ t. image ++ t) (take-nil (room firm)) ∙ append-nil image))
  receive_image-body (p ∷ ps) image firm h ((some_bytes, short), hps) =
      elim (Bool-cases (ltb (room firm) (length p))) [
        | inl over ↦
            rw
              (
                on_packet-over firm h p short (ltb→lt (room firm) (length p) over),
                receive_image,
                takes (take (room firm) p),
                take_short (room firm) p (joined ps)
                    (omega (arith, ltb→lt (room firm) (length p) over)),
              )
              refl
        | inr fit ↦
            rw
              (
                on_packet-fits firm h p short (ltb-false (room firm) (length p) fit),
                receive_image,
                takes p,
                receive_image-body ps (image ++ p) (taken firm p)
                    (taken-IsStarted firm h p short (ltb-false (room firm) (length p) fit)) hps,
                take_long (room firm) p (joined ps) (ltb-false (room firm) (length p) fit),
              )
              (ap written (
                append_assoc image p _
                ∙ ap (λ k. image ++ (p ++ take k (joined ps))) (omega (arith, h.fits))))
      ]
