-- ===== src/Gate/Conn/Establish/Accepted.antt =====
-- Handshakes that succeed. (gate/conn.go)
use gira.Prelude.{
  ℕ, ◌<◌, ◌≤◌, ◌≡◌, refl, sym, ap, ◌⊎◌, inl, inr, Option, none, some, List, [], ◌∷◌, ◌++◌, length,
  length-append, joined, map, arith, subst, All-append_left,
}
use gira.Gate.Packet.{Packet, Decoder, packets, head_length, decode, handshake_ack, int_to_bytes}
use gira.Gate.Packet.Wire.{wire, wires, header, IsByte}
use gira.Gate.Packet.Stream.{pending_of}
use gira.Gate.Packet.Chunks.{length-int_to_bytes}
use gira.Gate.Packet.Reading.{Reading, Drained, decode-Reading, decode-Drained}
use gira.Gate.Conn.{Conn, Env, working}
use gira.Gate.Conn.Receive.{Read, arrived}
use gira.Gate.Conn.Establish.{
  Shake, done, shake_of, recv_handshake, recv_handshake_ack, answer_handshake, waiting,
}

-- A packet with at least four bytes of data does not stay pending.
not_held_back :
    (size : Option ℕ) (typ : ℕ) (buf : List ℕ) (p : Packet)
    → 4 ≤ p.size
    → p.size ≡ length p.body
    → length buf < head_length
    → pending_of size typ buf ++ [] ≡ wires (p ∷ [])
    → ⊥
unfolding wire header
not_held_back none typ buf p long filled few e = omega (
  arith,
  ap length e,
  length-append buf [],
  length-append (header p.typ p.size ++ p.body) [],
  length-append (int_to_bytes p.size) p.body,
  length-int_to_bytes p.size,
)
not_held_back (some n) typ buf p long filled few e = omega (
  arith,
  ap length e,
  length-append (header typ n ++ buf) [],
  length-append (int_to_bytes n) buf,
  length-int_to_bytes n,
  length-append (header p.typ p.size ++ p.body) [],
  length-append (int_to_bytes p.size) p.body,
  length-int_to_bytes p.size,
)

Drained-long :
    (d : Decoder) (p : Packet) → 4 ≤ p.size → Reading d [] (p ∷ []) → Drained d (p ∷ []) → ⊥
Drained-long d p long r (inl none_left) = cc
Drained-long d p long r (inr few) =
    not_held_back d.size d.typ d.buf p long r.valid.0.filled few r.stream

-- The handshake packet came alone, and is answered; `left` are the pieces behind it.
abbrev pub Shaken : Env → Conn → Packet → List Read → List (List ℕ) → Type 0
Shaken w c hp more chunks =
    (d : Decoder) × (left : List (List ℕ)) × Reading d (joined left) []
    × (recv_handshake w c (map arrived chunks ++ more)
        ≡ shake_of (map arrived left ++ more) (answer_handshake w (record c { decoder = d }) hp))

Shaken-step :
    (w : Env) (c : Conn) (hp : Packet) (more : List Read) (chunk : List ℕ) (chunks : List (List ℕ))
    (ps rest : List Packet)
    → (decode c.decoder chunk).1 ≡ packets ps
    → hp ∷ [] ≡ ps ++ rest
    → Reading (decode c.decoder chunk).0 (joined chunks) rest
    → (rest ≡ hp ∷ [] → Shaken w (record c { decoder = (decode c.decoder chunk).0 }) hp more chunks)
    → Shaken w c hp more (chunk ∷ chunks)
unfolding recv_handshake
Shaken-step w c hp more chunk chunks [] rest given split r again =
    let (d, left, r', e) = again (sym split) in (d, left, r', rw (given, recv_handshake) e)
Shaken-step w c hp more chunk chunks (p ∷ []) [] given split r again =
    let same : p ≡ hp = cc in
    ((decode c.decoder chunk).0, chunks, r, rw (given, recv_handshake, same) refl)
Shaken-step w c hp more chunk chunks (p ∷ []) (q ∷ rest) given split r again = cc
Shaken-step w c hp more chunk chunks (p ∷ q ∷ ps) rest given split r again = cc

pub recv_handshake-Shaken :
    (w : Env) (hp : Packet) (more : List Read) (chunk : List ℕ) (chunks : List (List ℕ)) (c : Conn)
    → 4 ≤ hp.size
    → Reading c.decoder (chunk ++ joined chunks) (hp ∷ [])
    → Shaken w c hp more (chunk ∷ chunks)
recv_handshake-Shaken w hp more chunk [] c long r =
    let (ps, rest, given, split, r') = decode-Reading c.decoder chunk [] (hp ∷ []) r in
    Shaken-step w c hp more chunk [] ps rest given split r' (λ e. absurd (
      Drained-long (decode c.decoder chunk).0 hp long
        (subst (λ (x : List Packet). Reading (decode c.decoder chunk).0 [] x) e r')
        (subst (λ (x : List Packet). Drained (decode c.decoder chunk).0 x) e
          (decode-Drained c.decoder chunk ps rest r.ready
            (All-append_left IsByte chunk [] r.all_bytes) given r'))))
recv_handshake-Shaken w hp more chunk (chunk' ∷ chunks) c long r =
    let (ps, rest, given, split, r') =
      decode-Reading c.decoder chunk (joined (chunk' ∷ chunks)) (hp ∷ []) r in
    Shaken-step w c hp more chunk (chunk' ∷ chunks) ps rest given split r' (λ e.
      recv_handshake-Shaken w hp more chunk' chunks
        (record c { decoder = (decode c.decoder chunk).0 }) long
        (subst
          (λ (x : List Packet). Reading (decode c.decoder chunk).0 (joined (chunk' ∷ chunks)) x) e
          r'))

-- The acknowledgement came, with the packets `left` behind it and the pieces `pieces` to come; or its
-- end stays in the buffer, with fewer than four bytes.
abbrev pub Acked : Conn → List Packet → Conn × Shake → Type 0
Acked c qs r =
    ((d : Decoder) × (left rest : List Packet) × (pieces : List (List ℕ)) × (r
        ≡ (record c { decoder = d; status = working }, done left (map arrived pieces)))
      × (qs ≡ left ++ rest)
      × Reading d (joined pieces) rest)
    ⊎ ((c' : Conn) × (r ≡ (c', waiting)) × (length c'.decoder.buf < head_length))

ack_step :
    (c : Conn) (ack : Packet) (qs : List Packet) (chunk : List ℕ) (chunks : List (List ℕ))
    (ps rest : List Packet)
    → ack.typ ≡ handshake_ack
    → (decode c.decoder chunk).1 ≡ packets ps
    → ack ∷ qs ≡ ps ++ rest
    → Reading (decode c.decoder chunk).0 (joined chunks) rest
    → (rest ≡ ack ∷ qs
        → Acked
            (record c { decoder = (decode c.decoder chunk).0 })
            qs
            (recv_handshake_ack
              (record c { decoder = (decode c.decoder chunk).0 })
              (map arrived chunks)))
    → Acked c qs (recv_handshake_ack c (map arrived (chunk ∷ chunks)))
unfolding recv_handshake_ack
ack_step c ack qs chunk chunks [] rest t given split r again =
    rw (given, recv_handshake_ack) (again (sym split))
ack_step c ack qs chunk chunks (p ∷ ps) rest t given split r again =
    let same : p ≡ ack = cc in
    let others : qs ≡ ps ++ rest = cc in
    rw (given, recv_handshake_ack, same, t)
      (inl ((decode c.decoder chunk).0, ps, rest, chunks, refl, others, r))

pub recv_handshake_ack-Acked :
    (ack : Packet) (chunk : List ℕ) (chunks : List (List ℕ)) (c : Conn) (qs : List Packet)
    → ack.typ ≡ handshake_ack
    → Reading c.decoder (chunk ++ joined chunks) (ack ∷ qs)
    → Acked c qs (recv_handshake_ack c (map arrived (chunk ∷ chunks)))
recv_handshake_ack-Acked ack chunk [] c qs t r =
    let (ps, rest, given, split, r') = decode-Reading c.decoder chunk [] (ack ∷ qs) r in
    ack_step c ack qs chunk [] ps rest t given split r' (λ e. inr (
      record c { decoder = (decode c.decoder chunk).0 },
      (unfold recv_handshake_ack in refl),
      (few_left (decode c.decoder chunk).0 rest e (
          decode-Drained c.decoder chunk ps rest r.ready
            (All-append_left IsByte chunk [] r.all_bytes) given r')),
    ))
  where
    few_left :
        (d : Decoder) (rest : List Packet)
        → rest ≡ ack ∷ qs
        → Drained d rest
        → length d.buf < head_length
    few_left d rest e (inl none_left) = cc
    few_left d rest e (inr few) = few
recv_handshake_ack-Acked ack chunk (chunk' ∷ chunks) c qs t r =
    let (ps, rest, given, split, r') =
      decode-Reading c.decoder chunk (joined (chunk' ∷ chunks)) (ack ∷ qs) r in
    ack_step c ack qs chunk (chunk' ∷ chunks) ps rest t given split r' (λ e.
      recv_handshake_ack-Acked ack chunk' chunks (record c { decoder = (decode c.decoder chunk).0 })
        qs t
        (subst
          (λ (x : List Packet). Reading (decode c.decoder chunk).0 (joined (chunk' ∷ chunks)) x) e
          r'))
