-- ===== src/WifiProv/Config/Receive.antt =====
-- The loop that reads the body of the request.
use esp8266_rtos_projects.Prelude.{
  joined, ℕ, ◌+◌, ◌-◌, ◌≤◌, ◌≡◌, ◌≢◌, refl, sym, ap, List, [], ◌∷◌, ◌++◌, append_assoc, append-nil,
  Bytes, length, length-append, length-take, take, take_all, All, arith, map, lt→ltb, le→ltb,
}
use esp8266_rtos_projects.WifiProv.Config.{Recv, chunk, timeout, failed, complete, receive}

-- However the network cuts the rest of the body into pieces that are not empty, the loop puts
-- it together behind what it has, and ends with all of it.
pub receive-pieces :
    (total : ℕ) (pieces : List Bytes) (buf : Bytes)
    → All (λ p. p ≢ []) pieces
    → length buf + length (joined pieces) ≡ total
    → receive total (map chunk pieces) buf ≡ complete (buf ++ joined pieces)
unfolding receive
receive-pieces total [] buf h e =
    rw (le→ltb (length buf) total (omega arith)) (ap complete (sym (append-nil buf)))
receive-pieces total ([] ∷ ps) buf (hp, hps) e = absurd (hp refl)
receive-pieces total ((c ∷ cs) ∷ ps) buf (hp, hps) e =
    rw
      (
        lt→ltb (length buf) total (omega (arith, length-append (c ∷ cs) (joined ps))),
        take_all (total - length buf) (c ∷ cs) (omega (arith, length-append (c ∷ cs) (joined ps))),
        receive-pieces total ps (buf ++ c ∷ cs) hps
            (omega (arith, length-append (c ∷ cs) (joined ps), length-append buf (c ∷ cs))),
      )
      (ap complete (append_assoc buf (c ∷ cs) (joined ps)))

-- Whatever the calls return, in pieces of any length, with timeouts and failures: a body that
-- the handler goes on with has exactly the announced length.
pub length-receive :
    (total : ℕ) (calls : List Recv) (buf : Bytes) {body : Bytes}
    → length buf ≤ total
    → receive total calls buf ≡ complete body
    → length body ≡ total
unfolding receive
length-receive total [] buf h e = ground arith
length-receive total (timeout ∷ rest) buf h e = ground arith
length-receive total (failed ∷ rest) buf h e = ground arith
length-receive total (chunk bytes ∷ rest) buf {body} h e = ground (
  arith,
  length-receive total rest (buf ++ piece) {body = body},
  length-append buf piece,
  length-take (total - length buf) bytes,
)
  where
    piece : Bytes
    piece = take (total - length buf) bytes
