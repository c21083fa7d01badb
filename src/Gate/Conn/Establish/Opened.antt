-- ===== src/Gate/Conn/Establish/Opened.antt =====
-- From the first read to the start of the goroutines. (gate/conn.go)
use gira.Prelude.{
  ℕ, ◌<◌, ◌≤◌, ◌≡◌, refl, sym, ap, ◌∙◌, ◌⊎◌, inl, inr, true, false, none, some, List, [], ◌∷◌, ◌++◌,
  append_assoc, length, joined, map, arith, subst, All, Bool, not, if◌then◌else◌, All-append, ◌+◌,
}
use gira.Prelude.Keys.{text_eqb}
use gira.Gate.Packet.{Packet, Decoder, packets, head_length, decode, handshake, handshake_ack}
use gira.Gate.Packet
use gira.Gate.Packet.Wire.{wire, wires, IsValid, IsByte, encode-wire}
use gira.Gate.Packet.Stream.{pending}
use gira.Gate.Packet.Reading.{Reading}
use gira.Gate.Conn.{Conn, Env, working, handshaking, invalid_handler}
use gira.Gate.Conn.Receive.{Read, arrived}
use gira.Gate.Conn.Establish.{
  Shake, done, shake_of, recv_handshake, recv_handshake_ack, answer_handshake, waiting, establish,
  crash, refuses, leave, third_part,
}
use gira.Gate.Conn.Establish.Accepted.{Acked, recv_handshake-Shaken, recv_handshake_ack-Acked}

abbrev pub reply_packet : List ℕ → Packet
reply_packet reply = record { typ = handshake; size = length reply; body = reply }

-- The server accepts this handshake: it reads the token, the validator passes it, the reply can be
-- made and written. The secret is what the token decrypts to, if the server has an RSA key.
pub record Approved (w : Env) (c : Conn) (hp : Packet) (secret reply : List ℕ) : Type 0 where
  pub typ : hp.typ ≡ handshake
  pub token : List ℕ
  pub parsed : w.token_of hp.body ≡ some token
  pub key :
      ((w.rsa_private_key ≡ []) × (secret ≡ c.session.secret))
      ⊎ ((text_eqb w.rsa_private_key [] ≡ false)
          × (w.rsa_decrypt token w.rsa_private_key ≡ some secret))
  pub valid : w.validator hp.body ≡ none
  pub replied : w.reply_of c.session.id ≡ some reply
  pub writes : w.write_succeeds (wire (reply_packet reply)) ≡ true

-- The connection behind its answer to the handshake.
abbrev pub answered : Conn → Decoder → List ℕ → List ℕ → Conn
answered c d secret reply = record c {
  decoder = d;
  session = record (c.session) { secret = secret };
  written = c.written ++ (wire (reply_packet reply) ∷ []);
}

answer_handshake-Approved :
    (w : Env) (c : Conn) (hp : Packet) (secret reply : List ℕ) (d : Decoder)
    → Approved w c hp secret reply
    → answer_handshake w (record c { decoder = d }) hp ≡ (answered c d secret reply, none)
unfolding answer_handshake
answer_handshake-Approved w c hp secret reply d a =
    let out : Packet.encode handshake reply ≡ Packet.bytes (wire (reply_packet reply)) =
      encode-wire handshake reply refl in
    go a.key out
  where
    go :
        ((w.rsa_private_key ≡ []) × (secret ≡ c.session.secret))
          ⊎ ((text_eqb w.rsa_private_key [] ≡ false)
              × (w.rsa_decrypt a.token w.rsa_private_key ≡ some secret))
        → Packet.encode handshake reply ≡ Packet.bytes (wire (reply_packet reply))
        → answer_handshake w (record c { decoder = d }) hp ≡ (answered c d secret reply, none)
    go (inl (no_key, same)) out = ground (arith, a.typ, a.parsed, a.valid, a.replied, a.writes)
    go (inr (has_key, dec)) out = ground (arith, a.typ, a.parsed, a.valid, a.replied, a.writes)

map-append_arrived :
    (xs ys : List (List ℕ)) → map arrived xs ++ map arrived ys ≡ map arrived (xs ++ ys)
map-append_arrived [] ys = refl
map-append_arrived (x ∷ xs) ys = rw (map-append_arrived xs ys)

joined-append : (xs ys : List (List ℕ)) → joined (xs ++ ys) ≡ joined xs ++ joined ys
joined-append [] ys = refl
joined-append (x ∷ xs) ys = rw (joined-append xs ys, append_assoc)

-- Behind a stream that is read to its end, the next one is read.
Reading-next :
    (d : Decoder) (left pieces : List (List ℕ)) (qs : List Packet)
    → Reading d (joined left) []
    → All IsValid qs
    → All IsByte (joined pieces)
    → joined pieces ≡ wires qs
    → Reading d (joined (left ++ pieces)) qs
Reading-next d left pieces qs r v ab e =
    let both : pending d ++ joined (left ++ pieces) ≡ wires qs =
      ap (λ (x : List ℕ). pending d ++ x) (joined-append left pieces)
      ∙ sym (append_assoc (pending d) (joined left) (joined pieces))
      ∙ ap (λ (x : List ℕ). x ++ joined pieces) r.stream
      ∙ e in
    record {
      ready = r.ready;
      all_bytes =
          subst (All IsByte) (sym (joined-append left pieces))
            (All-append (joined left) (joined pieces) IsByte (r.all_bytes, ab));
      valid = v;
      stream = both;
    }

-- What `establish` comes to behind the first part of the handshake.
abbrev second_part : ℕ → Conn × Shake → (Conn × ℕ) × Shake
second_part errors first = elim first.1 [
  | waiting ↦ ((first.0, errors), waiting)
  | crash ↦ ((first.0, errors), crash)
  | refuses e ↦ ((leave true first.0, errors + 1), refuses e)
  | done ps more ↦
      third_part errors (recv_handshake_ack (record first.0 { status = handshaking }) more)
]

-- The connection is open, with the packets `left` behind the acknowledgement and the pieces to come;
-- or the end of the acknowledgement stays in the buffer, with fewer than four bytes.
abbrev pub Opened : Conn → ℕ → List Packet → (Conn × ℕ) × Shake → Type 0
Opened c errors qs r =
    ((d : Decoder) × (left rest : List Packet) × (pieces : List (List ℕ)) × (r
        ≡ ((record c { decoder = d; status = working }, errors), done left (map arrived pieces)))
      × (qs ≡ left ++ rest)
      × Reading d (joined pieces) rest)
    ⊎ ((c' : Conn) × (r ≡ ((c', errors), waiting)) × (length c'.decoder.buf < head_length))

third_part-Acked :
    (c : Conn) (errors : ℕ) (qs : List Packet) (r : Conn × Shake)
    → Acked (record c { status = handshaking }) qs r
    → Opened c errors qs (third_part errors r)
third_part-Acked c errors qs r (inl (d, left, rest, pieces, e, split, reading)) =
    inl (d, left, rest, pieces, ap (third_part errors) e, split, reading)
third_part-Acked c errors qs r (inr (c', e, few)) = inr (c', ap (third_part errors) e, few)

establish-second_part :
    (w : Env) (c : Conn) (errors : ℕ) (reads : List Read)
    → w.has_handler ≡ true
    → establish w c errors reads ≡ second_part errors (recv_handshake w c reads)
unfolding establish
establish-second_part w c errors reads has =
    ap
      (λ (b : Bool).
        if not b
        then ((leave false c, errors), refuses invalid_handler)
        else second_part errors (recv_handshake w c reads))
      has

acked_behind :
    (c : Conn) (errors : ℕ) (ack : Packet) (qs : List Packet) (piece : List ℕ)
    (pieces left : List (List ℕ))
    → ack.typ ≡ handshake_ack
    → All IsValid (ack ∷ qs)
    → All IsByte (piece ++ joined pieces)
    → piece ++ joined pieces ≡ wires (ack ∷ qs)
    → Reading c.decoder (joined left) []
    → Opened c errors qs (
        third_part errors (
          recv_handshake_ack
            (record c { status = handshaking })
            (map arrived left ++ map arrived (piece ∷ pieces))))
acked_behind c errors ack qs piece pieces [] t v ab e r = third_part-Acked c errors qs _ (
    recv_handshake_ack-Acked ack piece pieces (record c { status = handshaking }) qs t
      (Reading-next c.decoder [] (piece ∷ pieces) (ack ∷ qs) r v ab e))
acked_behind c errors ack qs piece pieces (l ∷ left) t v ab e r =
    let c' = record c { status = handshaking } in
    third_part-Acked c errors qs _ (
      subst (λ (x : List Read). Acked c' qs (recv_handshake_ack c' (arrived l ∷ x)))
        (sym (map-append_arrived left (piece ∷ pieces)))
        (recv_handshake_ack-Acked ack l (left ++ piece ∷ pieces) c' qs t
          (Reading-next c.decoder (l ∷ left) (piece ∷ pieces) (ack ∷ qs) r v ab e)))

-- A client sends a handshake that the server accepts, with at least four bytes of data, to a server
-- with a handler, and then the acknowledgement and other valid packets; the bytes of both parts
-- arrive in any pieces, at least one, those of the second behind all of the first. Then the
-- connection is open: its status is working, the session has the secret of the handshake, the reply
-- has been written, no handshake error is counted, and the packets behind the acknowledgement that
-- have been read, and the stream of the others, go on to the goroutines in order. Or the server
-- still waits for the acknowledgement, with fewer than four bytes in the buffer.
pub establish-Opened :
    (w : Env) (c : Conn) (errors : ℕ) (hp ack : Packet) (qs : List Packet) (secret reply : List ℕ)
    (chunk : List ℕ) (chunks : List (List ℕ)) (piece : List ℕ) (pieces : List (List ℕ))
    → w.has_handler ≡ true
    → Approved w c hp secret reply
    → 4 ≤ hp.size
    → Reading c.decoder (chunk ++ joined chunks) (hp ∷ [])
    → ack.typ ≡ handshake_ack
    → All IsValid (ack ∷ qs)
    → All IsByte (piece ++ joined pieces)
    → piece ++ joined pieces ≡ wires (ack ∷ qs)
    → Opened
        (answered c c.decoder secret reply)
        errors
        qs
        (establish w c errors (map arrived (chunk ∷ chunks) ++ map arrived (piece ∷ pieces)))
establish-Opened w c errors hp ack qs secret reply chunk chunks piece pieces has a long r t v ab e =
    let more = map arrived (piece ∷ pieces) in
    let (d, left, r', shaken) = recv_handshake-Shaken w hp more chunk chunks c long r in
    let first =
      shaken
      ∙ ap (shake_of (map arrived left ++ more))
          (answer_handshake-Approved w c hp secret reply d a) in
    subst (Opened (answered c c.decoder secret reply) errors qs)
      (sym (
        establish-second_part w c errors (map arrived (chunk ∷ chunks) ++ more) has
        ∙ ap (second_part errors) first))
      (acked_behind (answered c d secret reply) errors ack qs piece pieces left t v ab e r')
