-- ===== src/Gate/Ws/Stream.antt =====
-- The bytes that reading a websocket connection to its end gives. (gate/ws/wsconn.go)
use gira.Prelude.{
  ℕ, zero, suc, ◌≡◌, refl, sym, ap, ◌∙◌, Bool, true, false, Option, none, some, List, [], ◌∷◌, ◌++◌,
  append_assoc,
}
use gira.Gate.Ws.{Bytes, Reader, Conn, Error, closed, read_failed, result, new_conn, read}

-- Reads until there is an error, at most this many.
unfoldable pub drain : ℕ → Conn → Bytes × Option Error
unfolding read
drain zero c = ([], none)
drain (suc n) c = elim (read c) [
  | result c' bytes none ↦ (bytes ++ (drain n c').0, (drain n c').1)
  | result c' bytes (some error) ↦ (bytes, some error)
]

abbrev pub joined : List Bytes → Bytes
joined [] = []
joined (p ∷ ps) = p ++ joined ps

-- Reads that are enough: one for each piece of a message, one for each end, and one more.
abbrev pub reads_then : List Bytes → ℕ → ℕ
reads_then [] n = suc n
reads_then (p ∷ ps) n = suc (reads_then ps n)

abbrev pub reads_of : List Reader → ℕ
reads_of [] = 1
reads_of (r ∷ rs) = reads_then r.pieces (reads_of rs)

-- Behind the pieces of a message: the bytes that come with its end are lost if no message follows.
abbrev pub ending : Bytes → Bool → List Reader → Bytes × Option Error → Bytes × Option Error
ending last true rs rest = (last, some read_failed)
ending last false [] rest = ([], some closed)
ending last false (r ∷ rs) rest = (last ++ rest.0, rest.1)

-- The messages as one stream, with the error that ends it.
unfoldable pub received : List Reader → Bytes × Option Error
received [] = ([], some closed)
received (r ∷ rs) = let e = ending r.last r.broken rs (received rs) in (joined r.pieces ++ e.0, e.1)

abbrev at : List Bytes → Bytes → Bool → List Reader → Conn
at ps last broken rs = record {
  reader = some (record { pieces = ps; last = last; broken = broken });
  messages = rs;
}

drain-pieces :
    (ps : List Bytes) (last : Bytes) (broken : Bool) (rs : List Reader) (n : ℕ)
    (end : Bytes × Option Error)
    → drain (suc n) (at [] last broken rs) ≡ end
    → drain (reads_then ps n) (at ps last broken rs) ≡ (joined ps ++ end.0, end.1)
unfolding drain
drain-pieces [] last broken rs n end h = h
drain-pieces (p ∷ ps) last broken rs n end h =
    ap (λ (x : Bytes × Option Error). (p ++ x.0, x.1)) (drain-pieces ps last broken rs n end h)
    ∙ ap (λ b. (b, end.1)) (sym (append_assoc p (joined ps) end.0))

drain-first :
    (ps : List Bytes) (n : ℕ) (r : Reader) (rs : List Reader)
    → drain (reads_then ps n) (new_conn (r ∷ rs))
      ≡ drain (reads_then ps n) record { reader = some r; messages = rs }
unfolding drain
drain-first [] n r rs = refl
drain-first (p ∷ ps) n r rs = refl

drain-ending :
    (last : Bytes) (broken : Bool) (rs : List Reader)
    → drain (reads_of rs) (new_conn rs) ≡ received rs
    → drain (suc (reads_of rs)) (at [] last broken rs) ≡ ending last broken rs (received rs)
unfolding drain
drain-ending last true rs h = refl
drain-ending last false [] h = refl
drain-ending last false (r ∷ rs) h =
    ap (λ (x : Bytes × Option Error). (last ++ x.0, x.1))
      (sym (drain-first r.pieces (reads_of rs) r rs) ∙ h)

-- Reads of a new websocket connection, repeated until an error, give exactly the messages as one
-- stream and the error that ends it: all pieces and last bytes of the messages in order, up to the
-- first broken one. Only the bytes that come together with the end of the last message are lost.
-- One read for each piece and each end, and one more, are enough.
pub drain-received :
    (messages : List Reader) → drain (reads_of messages) (new_conn messages) ≡ received messages
unfolding drain received
drain-received [] = refl
drain-received (r ∷ rs) =
    drain-first r.pieces (reads_of rs) r rs
    ∙ drain-pieces r.pieces r.last r.broken rs (reads_of rs)
        (ending r.last r.broken rs (received rs))
        (drain-ending r.last r.broken rs (drain-received rs))
