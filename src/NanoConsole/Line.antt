-- ===== src/NanoConsole/Line.antt =====
-- A line of words typed at the console, and the command that is called.
use mathlib.Core.Path.{subst}
use esp8266_rtos_projects.Prelude.{
  ℕ, zero, suc, ◌+◌, ◌-◌, ◌<◌, ◌≡◌, ◌≢◌, inl, inr, refl, sym, ap, ap₂, ◌∙◌, Bool, true, false,
  Bool-cases, ◌&&◌, ◌||◌, ◌==◌, str_eq, if◌then◌else◌, Option, none, some, Option-cases, List, [],
  ◌∷◌, ◌++◌, append_assoc, append-nil, Bytes, ne→==, length, length-append, length-map, map, drop,
  take-append-drop, get_or, set, c_string, c_string-append, All, arith,
}
use esp8266_rtos_projects.NanoConsole.{
  Console, Call, get_cmd, count_ends, copy_args, alloc_args, enter, on_char, nc_loop,
  nc_thread_entry, nc_read_buf,
}
use esp8266_rtos_projects.NanoConsole.Typing.{
  Typed, IsPlain, put, put-Typed, type_plain, left_by, IsKey, typing, type_keys,
}
use esp8266_rtos_projects.NanoConsole.Words.{
  keys, full, IsWord, nonzero, left_by-keys, count_ends-full, copy_args-full, EndsPlain,
  EndsPlain-keys,
}

get_or-last : (u r : Bytes) (c k : ℕ) → k ≡ length u → get_or ((u ++ c ∷ []) ++ r) k 0 ≡ c
get_or-last [] r c zero e = refl
get_or-last [] r c (suc k) e = absurd (omega arith)
get_or-last (b ∷ u) r c zero e = absurd (omega arith)
get_or-last (b ∷ u) r c (suc k) e = get_or-last u r c k (omega arith)

starts : (s : Console) (t : Bytes) → Typed s t → s.pbuf ≡ t ++ drop s.num s.pbuf
starts s t h = sym (ap (λ b. b ++ drop s.num s.pbuf) (sym h.holds) ∙ take-append-drop s.num s.pbuf)

-- The call for what `get_cmd` finds.
abbrev found_call : List Bytes → Bytes → List Bytes → List Call
found_call cmds w ws = elim (get_cmd cmds w) [
  | none ↦ []
  | some name ↦ record { name = name; args = w ∷ ws } ∷ []
]

found_call-none :
    (cmds : List Bytes) (w : Bytes) (ws : List Bytes)
    → get_cmd cmds w ≡ none
    → found_call cmds w ws ≡ []
found_call-none cmds w ws e = rw (found_call, e) refl

found_call-some :
    (cmds : List Bytes) (w name : Bytes) (ws : List Bytes)
    → get_cmd cmds w ≡ some name
    → found_call cmds w ws ≡ record { name = name; args = w ∷ ws } ∷ []
found_call-some cmds w name ws e = rw (found_call, e) refl

-- Whether a word is one of the names, byte for byte.
abbrev pub same : Bytes → Bytes → Bool
same [] [] = true
same (a ∷ s) (b ∷ t) = (a == b) && same s t
same _ _ = false

abbrev pub is_name : Bytes → List Bytes → Bool
is_name w [] = false
is_name w (name ∷ names) = same name w || is_name w names

-- What is to be called for a line of words: the command whose name is the first word, if there is one.
abbrev pub called : List Bytes → Bytes → List Bytes → List Call
called cmds w ws = if is_name w cmds then record { name = w; args = w ∷ ws } ∷ [] else []

same-str_eq : (s t : Bytes) → same s t ≡ str_eq s t
same-str_eq [] [] = refl
same-str_eq [] (b ∷ t) = refl
same-str_eq (a ∷ s) [] = refl
same-str_eq (a ∷ s) (b ∷ t) = ground (arith, same-str_eq s t)

same_equal : (s t : Bytes) → same s t ≡ true → s ≡ t
same_equal [] [] h = refl
same_equal [] (b ∷ t) h = cc
same_equal (a ∷ s) [] h = cc
same_equal (a ∷ s) (b ∷ t) h = ap₂ ◌∷◌ (ground arith) (same_equal s t (ground arith))

get_cmd-is_name :
    (cmds : List Bytes) (w : Bytes) → get_cmd cmds w ≡ (if is_name w cmds then some w else none)
unfolding get_cmd
get_cmd-is_name [] w = refl
get_cmd-is_name (name ∷ cmds) w = elim (Bool-cases (same name w)) [
  | inl equal ↦ ground (arith, same-str_eq name w, same_equal name w equal)
  | inr differ ↦ ground (arith, same-str_eq name w, get_cmd-is_name cmds w)
]

found_call-called :
    (cmds : List Bytes) (w : Bytes) (ws : List Bytes) → found_call cmds w ws ≡ called cmds w ws
found_call-called cmds w ws = ground (arith, get_cmd-is_name cmds w)

module _ (cmds : List Bytes) (s : Console) (t w : Bytes) (ws : List Bytes) (h : Typed s t)
    (short : length t < nc_read_buf) (e : EndsPlain t) (line : t ++ 0 ∷ [] ≡ full (w ∷ ws))
    (words : All IsWord (w ∷ ws)) where
  last_is : get_or s.pbuf (s.num - 1) 0 ≡ e.last
  last_is =
      ap (λ p. get_or p (s.num - 1) 0) (starts s t h ∙ ap (λ b. b ++ drop s.num s.pbuf) e.parts)
      ∙ get_or-last e.before (drop s.num s.pbuf) e.last (s.num - 1)
          (omega (arith, h.at, ap length e.parts, length-append e.before (e.last ∷ [])))

  ended : Typed (put 0 s) (full (w ∷ ws))
  ended = subst (λ b. Typed (put 0 s) b) line (put-Typed 0 s t (λ z. cc) short h)

  behind : Bytes
  behind = drop (s.num + 1) (set s.pbuf s.num 0)

  first_word : c_string (set s.pbuf s.num 0) ≡ w
  unfolding behind
  first_word =
      ap c_string (starts (put 0 s) (full (w ∷ ws)) ended)
      ∙ ap c_string (append_assoc w (0 ∷ full ws) behind)
      ∙ c_string-append w (full ws ++ behind) (nonzero w words.0.1)

  all_words : alloc_args (set s.pbuf s.num 0) (s.num + 1) ≡ w ∷ ws
  unfolding alloc_args behind
  all_words =
      ap (λ b. copy_args (count_ends b) (set s.pbuf s.num 0)) ended.holds
      ∙ ap (λ n. copy_args n (set s.pbuf s.num 0)) (count_ends-full (w ∷ ws) words)
      ∙ ap (copy_args (length (w ∷ ws))) (starts (put 0 s) (full (w ∷ ws)) ended)
      ∙ copy_args-full (w ∷ ws) behind words

  enter-words : (enter cmds true s).1 ≡ found_call cmds w ws
  unfolding enter
  enter-words = elim (Option-cases (get_cmd cmds w)) [
    | inl missing ↦
        rw (enter, last_is, ne→== e.last 0 e.not_nul, ne→== s.num 0 some_text, first_word, missing)
          (sym (found_call-none cmds w ws missing))
    | inr (name, found) ↦
        rw
          (
            enter,
            last_is,
            ne→== e.last 0 e.not_nul,
            ne→== s.num 0 some_text,
            first_word,
            found,
            last_is,
            ne→== e.last 0 e.not_nul,
            all_words,
          )
          (sym (found_call-some cmds w name ws found))
  ]
    where
      some_text : s.num ≢ 0
      some_text = omega (arith, h.at, ap length e.parts, length-append e.before (e.last ∷ []))

on_char-line_end :
    (cmds : List Bytes) (s : Console)
    → s.num < nc_read_buf - 1
    → on_char cmds true b'\n' s ≡ enter cmds true s
unfolding on_char
on_char-line_end cmds s room = ground arith

keys-cons : (c : ℕ) (w : Bytes) (ws : List Bytes) → keys (c ∷ w) ws ≡ c ∷ keys w ws
keys-cons c w [] = refl
keys-cons c w (v ∷ ws) = refl

All-IsKey : (w : Bytes) (ws : List Bytes) → All IsPlain w → All IsWord ws → All IsKey (keys w ws)
All-IsKey [] [] h hs = tt
All-IsKey [] (v ∷ ws) h hs = (inr refl, All-IsKey v ws hs.0.1 hs.1)
All-IsKey (c ∷ w) [] h hs = (inl h.0, All-IsKey w [] h.1 hs)
All-IsKey (c ∷ w) (v ∷ ws) h hs = (inl h.0, All-IsKey w (v ∷ ws) h.1 hs)

loop_last :
    (cmds : List Bytes) (s : Console)
    → s.num < nc_read_buf - 1
    → (nc_loop cmds ((some b'\n', true) ∷ []) s).1 ≡ (enter cmds true s).1
unfolding nc_loop
loop_last cmds s room =
    append-nil (on_char cmds true b'\n' s).1 ∙ ap (λ p. p.1) (on_char-line_end cmds s room)

loop_first :
    (cmds : List Bytes) (c : ℕ) (rest : List (Option ℕ × Bool)) (s : Console)
    → IsPlain c
    → Typed s []
    → (nc_loop cmds ((some c, true) ∷ rest) s).1 ≡ (nc_loop cmds rest (put c s)).1
unfolding nc_loop
loop_first cmds c rest s p h = rw (nc_loop, type_plain cmds s [] (omega arith) h c p) refl

map-keys :
    (c : ℕ) (w : Bytes) (ws : List Bytes)
    → IsPlain c
    → map left_by (keys (c ∷ w) ws) ≡ c ∷ map left_by (keys w ws)
map-keys c w ws p = rw (keys-cons c w ws, ne→== c b' ' p.not_blank) refl

-- Words of plain characters, typed with a blank between each two and ended by a line end, at most
-- 127 characters in all, call the command that has the first word for its name, if there is one, with
-- exactly these words as its arguments; if not, nothing is called. The memory of the buffer must hold
-- no blank at first, since the code looks at the byte behind the text.
pub nc_thread_entry-words :
    (cmds : List Bytes) (block w : Bytes) (ws : List Bytes)
    → length block ≡ nc_read_buf
    → All (λ c. c ≢ b' ') block
    → All IsWord (w ∷ ws)
    → length (keys w ws) < nc_read_buf - 1
    → nc_thread_entry cmds (some block) (typing (keys w ws) ++ (some b'\n', true) ∷ [])
      ≡ called cmds w ws
unfolding nc_thread_entry
nc_thread_entry-words cmds block [] ws size blank hw short = absurd (hw.0.0 refl)
nc_thread_entry-words cmds block (c ∷ w) ws size blank hw short =
    let (s', same, typed) =
      type_keys cmds (keys w ws) line_end (put c fresh) (c ∷ []) (All-IsKey w ws hw.0.1.1 hw.1)
        (omega arith) (omega (arith, ap length (keys-cons c w ws)))
        (put-Typed c fresh [] hw.0.1.0.not_blank (omega arith) start) in
    let fits : length text < nc_read_buf - 1 =
      omega (arith, length-map (keys w ws) left_by, ap length (keys-cons c w ws)) in
    ap (λ k. (nc_loop cmds (typing k ++ line_end) fresh).1) (keys-cons c w ws)
    ∙ loop_first cmds c (typing (keys w ws) ++ line_end) fresh hw.0.1.0 start
    ∙ ap (λ p. p.1) same
    ∙ loop_last cmds s' (omega (arith, typed.at, fits))
    ∙ enter-words cmds s' text (c ∷ w) ws typed (omega (arith, fits))
        (subst EndsPlain (map-keys c w ws hw.0.1.0) (EndsPlain-keys (c ∷ w) ws hw.0 hw.1))
        (ap (λ b. b ++ 0 ∷ []) (sym (map-keys c w ws hw.0.1.0)) ∙ left_by-keys (c ∷ w) ws hw.0 hw.1)
        hw
    ∙ found_call-called cmds (c ∷ w) ws
  where
    fresh : Console
    fresh = record { num = 0; pbuf = block }

    start : Typed fresh []
    start = record { at = refl; holds = refl; size = size; no_blank = blank }

    line_end : List (Option ℕ × Bool)
    line_end = (some b'\n', true) ∷ []

    text : Bytes
    text = c ∷ map left_by (keys w ws)
