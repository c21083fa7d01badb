-- ===== src/Gate/Packet/Stream.antt =====
-- What the decoder does to the byte stream, however the reads cut it. (gate/packet/codec.go)
use gira.Prelude.{
  ℕ, zero, suc, ◌<◌, ◌≤◌, ◌≡◌, sym, ap, ◌∙◌, inl, inr, false, Bool-cases, Option, none, some, List,
  [], ◌∷◌, ◌++◌, append-nil, append_assoc, length, length-drop, length-take, subst, ltb→lt, take,
  drop, take-append-drop, All, All-append, All-drop, arith, ltb,
}
use gira.Gate.Packet.{
  Packet, Decoder, Error, Outcome, packets, fails, panic, stuck, bad_type, max_packet_size,
  head_length, forward, decode_loop,
}
use gira.Gate.Packet.Wire.{
  IsByte, IsValid, header, wire, wires, wires-append, IsBad, Forwards, forward-Forwards,
}

-- The bytes that the decoder has received and not given back in a packet yet.
abbrev pub pending_of : Option ℕ → ℕ → List ℕ → List ℕ
pending_of none typ buf = buf
pending_of (some n) typ buf = header typ n ++ buf

abbrev pub pending : Decoder → List ℕ
pending c = pending_of c.size c.typ c.buf

-- A header that has been read is one that the decoder accepts.
abbrev pub HeaderIsGood : Option ℕ → ℕ → Type 0
HeaderIsGood none typ = Unit
HeaderIsGood (some n) typ = (n ≤ max_packet_size) × (bad_type typ ≡ false)

pub record IsReady (c : Decoder) : Type 0 where
  pub good : HeaderIsGood c.size c.typ
  pub all_bytes : All IsByte c.buf

-- No whole packet is left in the buffer.
abbrev pub WaitsFor : Option ℕ → List ℕ → Type 0
WaitsFor none buf = length buf < head_length
WaitsFor (some n) buf = length buf < n

-- The outcome accounts for the bytes `before`: they are the packets given out and what is pending,
-- or valid packets and then a bad header.
abbrev pub Accounts : List ℕ → Decoder × Outcome → Type 0
Accounts before (c, packets ps) = (wires ps ++ pending c ≡ before) × All IsValid ps × IsReady c
Accounts before (c, fails e) =
    (ps : List Packet) × (rest : List ℕ) × All IsValid ps
    × (wires ps ++ rest ≡ before)
    × IsBad e rest
Accounts before (c, panic) = ⊥
Accounts before (c, stuck) = ⊥

abbrev pub WaitsAfter : Decoder × Outcome → Type 0
WaitsAfter (c, packets ps) = WaitsFor c.size c.buf
WaitsAfter (c, _) = Unit

-- The packet that the loop takes off the buffer.
abbrev head_packet : Decoder → ℕ → Packet
head_packet c n = record { typ = c.typ; size = n; body = take n c.buf }

head_packet-IsValid :
    (c : Decoder) (n : ℕ)
    → n ≤ max_packet_size
    → bad_type c.typ ≡ false
    → n ≤ length c.buf
    → IsValid (head_packet c n)
head_packet-IsValid c n h g l = record {
  known = g;
  within = h;
  filled = omega (arith, length-take n c.buf);
}

take-append_drop {ℓ} :
    {A : Type ℓ} (n : ℕ) (xs rest : List A) → take n xs ++ (drop n xs ++ rest) ≡ xs ++ rest
take-append_drop n xs rest =
    sym (append_assoc (take n xs) (drop n xs) rest) ∙ rw (take-append-drop n xs)

-- Taking the packet off moves its bytes from what is pending to what is given out.
wires-head_packet :
    (c : Decoder) (n : ℕ) (found : List Packet)
    → wires (found ++ head_packet c n ∷ []) ++ drop n c.buf
      ≡ wires found ++ (header c.typ n ++ c.buf)
unfolding wire
wires-head_packet c n found =
    simp (wires-append, append_assoc, append-nil, take-append-drop n c.buf)

-- The outcome accounts for `before`, and no whole packet waits.
abbrev pub Settles : List ℕ → Decoder × Outcome → Type 0
Settles before r = Accounts before r × WaitsAfter r

-- What follows a call of `forward`, in the loop and before it.
pub forward-Settles :
    (before buf : List ℕ) (found : List Packet) (r : Decoder × Option Error)
    (k : Decoder → Decoder × Outcome)
    → Forwards buf r
    → All IsValid found
    → wires found ++ buf ≡ before
    → ((c : Decoder) (n : ℕ)
        → c.size ≡ some n
        → n ≤ max_packet_size
        → bad_type c.typ ≡ false
        → All IsByte c.buf
        → suc (length c.buf) ≤ length buf
        → wires found ++ (header c.typ n ++ c.buf) ≡ before
        → Settles before (k c))
    → Settles before (elim r.1 [ some e ↦ (r.0, fails e) | none ↦ k r.0 ])
forward-Settles before buf found (c, some e) k bad av eq next = ((found, buf, av, eq, bad), tt)
forward-Settles before buf found (c, none) k (n, sz, le, good, front, len, ab) av eq next =
    next c n sz le good ab (omega arith) (ap (λ (b : List ℕ). wires found ++ b) front ∙ eq)

-- `decode_loop` at a decoder that knows its next size.
pub decode_loop-at :
    (before : List ℕ) (fuel : ℕ) (found : List Packet) (c : Decoder) (n : ℕ)
    → c.size ≡ some n
    → Settles before (decode_loop fuel (record { buf = c.buf; size = some n; typ = c.typ }) found)
    → Settles before (decode_loop fuel c found)
decode_loop-at before fuel found c n e h =
    subst
      (λ (s : Option ℕ).
        Settles before (decode_loop fuel (record { buf = c.buf; size = s; typ = c.typ }) found))
      (sym e) h

pub decode_loop-Settles :
    (before : List ℕ) (fuel : ℕ) (buf : List ℕ) (n typ : ℕ) (found : List Packet)
    → length buf < fuel
    → n ≤ max_packet_size
    → bad_type typ ≡ false
    → All IsByte buf
    → All IsValid found
    → wires found ++ (header typ n ++ buf) ≡ before
    → Settles before (decode_loop fuel (record { buf = buf; size = some n; typ = typ }) found)
unfolding decode_loop
decode_loop-Settles before zero buf n typ found fl sn gt ab av eq = absurd (omega arith)
decode_loop-Settles before (suc fuel) buf n typ found fl sn gt ab av eq =
    elim (Bool-cases (ltb (length buf) n)) [
      | inl short ↦
          rw short ((eq, av, record { good = (sn, gt); all_bytes = ab }), ltb→lt _ _ short)
      | inr whole ↦
          let p : Packet = record { typ = typ; size = n; body = take n buf } in
          let av' : All IsValid (found ++ p ∷ []) = All-append found (p ∷ []) IsValid (
            av,
            (
              head_packet-IsValid (record { buf = buf; size = none; typ = typ }) n sn gt
                  (ground (arith, whole)),
              tt,
            ),
          ) in
          let eq' : wires (found ++ p ∷ []) ++ drop n buf ≡ before =
            wires-head_packet (record { buf = buf; size = none; typ = typ }) n found ∙ eq in
          elim (Bool-cases (ltb (length (drop n buf)) head_length)) [
            | inl last ↦
                rw (whole, last)
                  (
                    (eq', av', record { good = tt; all_bytes = All-drop IsByte n buf ab }),
                    ltb→lt _ _ last,
                  )
            | inr more ↦
                rw (whole, more)
                  (forward-Settles before (drop n buf) (found ++ p ∷ [])
                    (forward (record { buf = drop n buf; size = some n; typ = typ }))
                    (λ c. decode_loop fuel c (found ++ p ∷ []))
                    (forward-Forwards (record { buf = drop n buf; size = some n; typ = typ })
                      (All-drop IsByte n buf ab) (ground (arith, more)))
                    av' eq'
                    λ c m sz le good ab' shrink front. decode_loop-at before fuel _ c m sz (
                      decode_loop-Settles before fuel c.buf m c.typ _
                        (omega (arith, length-drop n buf)) le good ab' av' front))
          ]
    ]
