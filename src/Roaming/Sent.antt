-- ===== src/Roaming/Sent.antt =====
-- A report as it is sent, and its subelements.
use esp8266_rtos_projects.Prelude.{
  ℕ, zero, suc, ◌/◌, ◌%◌, ◌<◌, ◌≡◌, refl, true, false, ◌&&◌, List, [], ◌∷◌, ◌++◌, Bytes, arith, ltb,
  ◌==◌, length, length-append, take_append, drop_append, joined, map, Bool-cases, inl, inr,
}
use esp8266_rtos_projects.Roaming.{
  got, Subelements, keep_subelement, note_subelement, read_subelements, Neighbor, get_le32,
  eid_neighbor_report, eid_measure_report,
}

-- A subelement: its id, and its bytes.
pub record Sub : Type 0 where
  pub id : ℕ
  pub body : Bytes

abbrev pub sub_bytes : Sub → Bytes
sub_bytes s = s.id ∷ length s.body ∷ s.body

-- A neighbour as it is sent.
pub record Sent : Type 0 where
  pub b0 : ℕ
  pub b1 : ℕ
  pub b2 : ℕ
  pub b3 : ℕ
  pub b4 : ℕ
  pub b5 : ℕ
  pub info : ℕ
  pub op_class : ℕ
  pub channel : ℕ
  pub phy_type : ℕ
  pub subs : List Sub

abbrev pub le32 : ℕ → Bytes → Bytes
le32 n rest = n % 256 ∷ n / 256 % 256 ∷ n / 65536 % 256 ∷ n / 16777216 ∷ rest

abbrev pub optional : Sent → Bytes
optional s = joined (map sub_bytes s.subs)

abbrev pub payload : Sent → Bytes
payload s =
    s.b0
    ∷ s.b1
    ∷ s.b2
    ∷ s.b3
    ∷ s.b4
    ∷ s.b5
    ∷ le32 s.info (s.op_class ∷ s.channel ∷ s.phy_type ∷ optional s)

abbrev pub element : Sent → Bytes
element s = eid_neighbor_report ∷ length (payload s) ∷ payload s

abbrev pub neighbor : Sent → Neighbor
neighbor s = record {
  bssid = s.b0 ∷ s.b1 ∷ s.b2 ∷ s.b3 ∷ s.b4 ∷ s.b5 ∷ [];
  info = s.info;
  op_class = s.op_class;
  channel = s.channel;
  phy_type = s.phy_type;
}

pub note_subelement-got :
    (s_id : ℕ) (body : Bytes) (subs : Subelements)
    → (noted : Subelements) × (note_subelement s_id body subs ≡ got noted)
unfolding note_subelement
note_subelement-got s_id (a ∷ b ∷ c ∷ body) subs =
    elim (Bool-cases (s_id == eid_measure_report && ltb 3 (length (a ∷ b ∷ c ∷ body)))) [
      | inl long ↦ (keep_subelement c (a ∷ b ∷ c ∷ body) subs, rw long refl)
      | inr short ↦ (subs, rw short refl)
    ]
note_subelement-got s_id body subs = (subs, ground arith)

read_subelements-more :
    (s : Sub) (subs : List Sub) (rounds : ℕ) (known : Subelements)
    → length (joined (map sub_bytes (s ∷ subs))) < suc rounds
    → ltb 2 (length (sub_bytes s ++ joined (map sub_bytes subs))) ≡ true
    → (noted : Subelements) × (note_subelement s.id s.body known ≡ got noted)
    → ((known : Subelements)
        → length (joined (map sub_bytes subs)) < rounds
        → (noted : Subelements) × (read_subelements rounds (joined (map sub_bytes subs)) known
            ≡ got noted))
    → (noted : Subelements) × (read_subelements
          (suc rounds)
          (joined (map sub_bytes (s ∷ subs)))
          known
        ≡ got noted)
unfolding read_subelements
read_subelements-more s subs rounds known h long (noted, e) later =
    let more = joined (map sub_bytes subs) in
    let (end, f) = later noted (omega (arith, length-append s.body more)) in
    let there : ltb (length (s.body ++ more)) (length s.body) ≡ false =
      ground (arith, length-append s.body more) in
    (
      end,
      rw (long, there, take_append s.body more (length s.body) refl, e, drop_append s.body more) f,
    )

pub read_subelements-got :
    (subs : List Sub) (rounds : ℕ) (known : Subelements)
    → length (joined (map sub_bytes subs)) < rounds
    → (noted : Subelements) × (read_subelements rounds (joined (map sub_bytes subs)) known
        ≡ got noted)
unfolding read_subelements
read_subelements-got [] zero known h = absurd (omega arith)
read_subelements-got [] (suc rounds) known h = (known, refl)
read_subelements-got (s ∷ subs) zero known h = absurd (omega arith)
read_subelements-got (s ∷ subs) (suc rounds) known h =
    elim (Bool-cases (ltb 2 (length (sub_bytes s ++ joined (map sub_bytes subs))))) [
      | inl long ↦
          read_subelements-more s subs rounds known h long (note_subelement-got s.id s.body known)
            (read_subelements-got subs rounds)
      | inr short ↦ (known, rw short refl)
    ]

pub get_le32-le32 : (n : ℕ) (rest : Bytes) → get_le32 (le32 n rest) ≡ n
unfolding get_le32
get_le32-le32 n rest = omega arith
