-- ===== src/PersistentSockets/Isolation.antt =====
-- The server is one number for each connection.
use esp8266_rtos_projects.Prelude.{
  ℕ, ◌+◌, ◌%◌, ◌<◌, ◌≡◌, refl, ap, ◌∙◌, false, Bool-cases, inl, inr, List, [], ◌∷◌, ◌==◌, ==_iff,
  if◌then◌else◌, length, map, size_mod, arith, All,
}
use esp8266_rtos_projects.PersistentSockets.{
  Session, Reply, handled, Request, one_more, Sessions, Site, serve, serve_all,
}
use esp8266_rtos_projects.PersistentSockets.Counter.{
  Command, apply_command, request, IsShort, current, stored, shown, handle-request, current-stored,
}

-- What a store of sessions is for: a connection finds what was kept for it, and nothing else touches it.
pub record KeepsApart {Store : Type 0} (server : Sessions Store) : Type 0 where
  pub own : (k : ℕ) (s : Session) (store : Store) → server.session_of k (server.keep k s store) ≡ s
  pub others :
      (j k : ℕ) (s : Session) (store : Store)
      → (j == k) ≡ false
      → server.session_of j (server.keep k s store) ≡ server.session_of j store

abbrev pub request_on : ℕ × Command → ℕ × Request
request_on (k, c) = (k, request c)

abbrev pub IsShortOn : ℕ × Command → Type 0
IsShortOn (k, c) = IsShort c

abbrev pub put_number : ℕ → ℕ → (ℕ → ℕ) → ℕ → ℕ
put_number k m numbers j = if j == k then m else numbers j

-- The answers of one number for each connection.
abbrev pub expected : List (ℕ × Command) → (ℕ → ℕ) → List (ℕ × Reply)
expected [] numbers = []
expected ((k, c) ∷ cs) numbers =
    (k, shown (apply_command c (numbers k)))
    ∷ expected cs (put_number k (apply_command c (numbers k)) numbers)

-- The number of a connection.
abbrev pub number_of : {Store : Type 0} → Sessions Store → Store → ℕ → ℕ
number_of server store k = current (server.session_of k store)

module _ {Store : Type 0} (server : Sessions Store) (apart : KeepsApart server) where
  -- The store after a command on connection `k`.
  abbrev after : ℕ → Command → Store → Store
  after k c store =
      let s = server.session_of k store in
      server.keep k (stored (apply_command c (current s)) s) store

  serve-request :
      (k : ℕ) (c : Command) (site : Site Store)
      → IsShort c
      → serve server k (request c) site
        ≡ handled (
          shown (apply_command c (number_of server site.sessions k)),
          record { visitors = one_more site.visitors; sessions = after k c site.sessions },
        )
  unfolding serve
  serve-request k c site short =
      let s = server.session_of k site.sessions in
      rw (serve, handle-request c site.visitors s.sess_ctx s.free_ctx short) refl

  number_of-after :
      (k : ℕ) (c : Command) (store : Store) (numbers : ℕ → ℕ)
      → ((j : ℕ) → number_of server store j ≡ numbers j)
      → (j : ℕ)
      → number_of server (after k c store) j ≡ put_number k (apply_command c (numbers k)) numbers j
  number_of-after k c store numbers same j = elim (Bool-cases (j == k)) [
    | inl here ↦ rw here (
        ap (number_of server (after k c store)) ((==_iff j k).0 here)
        ∙ ap current (apart.own k _ store)
        ∙ current-stored (apply_command c (number_of server store k))
            (server.session_of k store).sess_ctx (server.session_of k store).free_ctx
        ∙ ap (apply_command c) (same k))
    | inr there ↦ rw there (ap current (apart.others j k _ store there) ∙ same j)
  ]

  serve_all-more :
      (k : ℕ) (r : Request) (rest : List (ℕ × Request)) (site site' end : Site Store)
      (reply : Reply) (replies : List (ℕ × Reply))
      → serve server k r site ≡ handled (reply, site')
      → serve_all server rest site' ≡ handled (replies, end)
      → serve_all server ((k, r) ∷ rest) site ≡ handled ((k, reply) ∷ replies, end)
  unfolding serve_all
  serve_all-more k r rest site site' end reply replies e h = rw (serve_all, e, h) refl

  serve_all-numbers :
      (cs : List (ℕ × Command)) (site : Site Store) (numbers : ℕ → ℕ)
      → ((j : ℕ) → number_of server site.sessions j ≡ numbers j)
      → All IsShortOn cs
      → site.visitors < size_mod
      → (end : Site Store) × ((serve_all server (map request_on cs) site
            ≡ handled (expected cs numbers, end))
          × (end.visitors ≡ (site.visitors + length cs) % size_mod))
  unfolding serve_all
  serve_all-numbers [] site numbers same short small_count = (site, (refl, omega arith))
  serve_all-numbers ((k, c) ∷ cs) site numbers same (short, more_short) small_count =
      let m = apply_command c (numbers k) in
      let next : Site Store = record {
        visitors = one_more site.visitors;
        sessions = after k c site.sessions;
      } in
      let (end, (e, count)) =
        serve_all-numbers cs next (put_number k m numbers)
          (number_of-after k c site.sessions numbers same) more_short (omega arith) in
      (
        end,
        (
          serve_all-more k (request c) (map request_on cs) site next end (shown m)
              (expected cs (put_number k m numbers))
              (serve-request k c site short
                ∙ ap (λ n. handled (shown (apply_command c n), next)) (same k))
              e,
          omega (arith, count),
        ),
      )

  -- With a store that keeps the sessions apart: requests on any connections, in any order, whose bodies
  -- have one to nine bytes, and with memory for the numbers, are all answered; the answers are those of
  -- one number for each connection, which starts at what its session holds, or at 0 where it holds
  -- nothing, to which `post` adds, which `put` sets and `get` shows, modulo 2 ^ 32 and printed as an
  -- `int`; and the count of visitors goes up by one for each request, modulo 2 ^ 32.
  pub serve_all-expected :
      (cs : List (ℕ × Command)) (site : Site Store)
      → All IsShortOn cs
      → site.visitors < size_mod
      → (end : Site Store) × ((serve_all server (map request_on cs) site
            ≡ handled (expected cs (number_of server site.sessions), end))
          × (end.visitors ≡ (site.visitors + length cs) % size_mod))
  serve_all-expected cs site short small_count =
      serve_all-numbers cs site (number_of server site.sessions) (λ j. refl) short small_count
