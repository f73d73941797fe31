-- ===== src/Roaming/Reads.antt =====
-- No byte outside the report is read, and the loops end.
use esp8266_rtos_projects.Prelude.{
  ℕ, zero, suc, ◌<◌, ◌≡◌, refl, Bool, true, false, ◌&&◌, Option, none, some, List, [], ◌∷◌, Bytes,
  arith, ltb, ◌==◌, length, length-drop, take, drop, get_elem?, if◌then◌else◌, Bool-cases, ltb→lt,
  inl, inr,
}
use esp8266_rtos_projects.Roaming.{
  Read, read_then, read_at, read_slice, got, invalid, overread, Subelements, note_subelement,
  read_subelements, eid_measure_report,
}

-- A read gives a value of which `P` holds, or finds the report invalid: it never takes a byte that is
-- not there, and no loop runs on.
pub data Gives {ℓ} {A : Type ℓ} (P : A → Type 0) : Read A → Type ℓ where
  gives : {a : A} → P a → Gives P (got a)
  finds : Gives P invalid

abbrev pub Any {ℓ} : {A : Type ℓ} → A → Type 0
Any a = Unit

abbrev pub IsByte : ℕ → Type 0
IsByte b = b < 256

get_elem-there {ℓ} :
    {A : Type ℓ} (xs : List A) (i : ℕ) → i < length xs → (x : A) × (get_elem? xs i ≡ some x)
get_elem-there [] i h = absurd (omega arith)
get_elem-there (x ∷ xs) zero h = (x, refl)
get_elem-there (x ∷ xs) (suc i) h = get_elem-there xs i (omega arith)

Gives-there :
    (o : Option ℕ) (b : ℕ) → o ≡ some b → Gives Any (elim o [ none ↦ overread | some b ↦ got b ])
Gives-there none b h = ground arith
Gives-there (some c) b h = gives tt

pub Gives-read_at : (bytes : Bytes) (i : ℕ) → i < length bytes → Gives Any (read_at bytes i)
Gives-read_at bytes i h = let (b, e) = get_elem-there bytes i h in Gives-there _ b e

pub Gives-read_then {ℓ κ} :
    {A : Type ℓ} {B : Type κ} {Q : A → Type 0} {P : B → Type 0} {r : Read A} {f : A → Read B}
    → Gives Q r
    → ((a : A) → Q a → Gives P (f a))
    → Gives P (read_then r f)
Gives-read_then (gives {a} h) k = k a h
Gives-read_then finds k = finds

pub Gives-read_slice {ℓ} :
    {B : Type ℓ} {P : B → Type 0} (f : Bytes × Bytes → Read B) (n : ℕ) (bytes : Bytes)
    → ltb (length bytes) n ≡ false
    → Gives P (f (take n bytes, drop n bytes))
    → Gives P (read_then (read_slice n bytes) f)
Gives-read_slice f n bytes there h = rw there h

pub Gives-if {ℓ} :
    {A : Type ℓ} {P : A → Type 0} {b : Bool} {r : Read A}
    → (b ≡ false → Gives P r)
    → Gives P (if b then invalid else r)
Gives-if {b = true} h = finds
Gives-if {b = false} h = h refl

note_subelement-Gives :
    (s_id : ℕ) (body : Bytes) (subs : Subelements) → Gives Any (note_subelement s_id body subs)
unfolding note_subelement
note_subelement-Gives s_id body subs =
    elim (Bool-cases (s_id == eid_measure_report && ltb 3 (length body))) [
      | inl long ↦
          rw long (Gives-read_then (Gives-read_at body 2 (ground arith)) (λ type _. gives tt))
      | inr short ↦ rw short (gives tt)
    ]

pub read_subelements-Gives :
    (rounds : ℕ) (rest : Bytes) (subs : Subelements)
    → length rest < rounds
    → Gives Any (read_subelements rounds rest subs)
unfolding read_subelements
read_subelements-Gives zero rest subs h = absurd (omega arith)
read_subelements-Gives (suc rounds) rest subs h = elim (Bool-cases (ltb 2 (length rest))) [
  | inl more ↦
      let long : 2 < length rest = ltb→lt 2 (length rest) more in
      rw more (
        Gives-read_then (Gives-read_at rest 0 (omega arith)) (λ s_id _.
          Gives-read_then (Gives-read_at rest 1 (omega arith)) (λ s_len _. Gives-if (λ fits.
            Gives-read_slice _ s_len (drop 2 rest) fits (
              Gives-read_then (note_subelement-Gives s_id (take s_len (drop 2 rest)) subs)
                (λ noted _.
                  read_subelements-Gives rounds (drop s_len (drop 2 rest)) noted
                    (omega (arith, length-drop s_len (drop 2 rest), length-drop 2 rest))))))))
  | inr short ↦ rw short (gives tt)
]
