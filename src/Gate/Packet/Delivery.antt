-- ===== src/Gate/Packet/Delivery.antt =====
-- When packets come out: all of them from one read, and a short one late. (gate/packet/codec.go)
use gira.Prelude.{
  ℕ, ◌*◌, ◌+◌, ◌<◌, ◌≤◌, ◌≡◌, refl, sym, ap, ◌∙◌, inl, inr, false, Option, none, some, List, [],
  ◌∷◌, ◌++◌, append-nil, append_assoc, length, length-append, subst, All, arith, ltb,
}
use gira.Gate.Packet.{
  Packet, Decoder, Error, Outcome, packets, fails, panic, stuck, bad_type, max_packet_size,
  head_length, forward, decode_loop, decode, encode, bytes, new_decoder, int_to_bytes,
}
use gira.Gate.Packet.Wire.{IsByte, IsValid, header, wire, wires, encode-wire}
use gira.Gate.Packet.Stream.{pending_of, pending, HeaderIsGood, IsReady, WaitsFor, WaitsAfter}
use gira.Gate.Packet.Chunks.{
  append-left_cancel, size_of_header, length-int_to_bytes, decode_stream, decode_waits,
}

-- A decoder that waits, with a stream of whole packets pending, has none of them.
pub waits-nil_sized :
    (size : Option ℕ) (typ : ℕ) (buf : List ℕ) (rest : List Packet)
    → HeaderIsGood size typ
    → WaitsFor size buf
    → All IsValid rest
    → pending_of size typ buf ≡ wires rest
    → rest ≡ []
unfolding wire header
waits-nil_sized size typ buf [] g w v e = refl
waits-nil_sized none typ buf (p ∷ ps) g w v e = absurd (
    omega (
      arith,
      ap length e,
      length-append (header p.typ p.size ++ p.body) (wires ps),
      length-append (int_to_bytes p.size) p.body,
      length-int_to_bytes p.size,
    ))
waits-nil_sized (some n) typ buf (p ∷ ps) g w v e =
    let heads =
      append-left_cancel (header typ n) (header p.typ p.size) buf (p.body ++ wires ps)
        (omega (arith, length-int_to_bytes n, length-int_to_bytes p.size))
        (e ∙ append_assoc (header p.typ p.size) p.body (wires ps)) in
    let sizes : n ≡ p.size = size_of_header n p.size g.0 v.0.within (cc (heads.0)) in
    absurd (omega (arith, ap length heads.1, length-append p.body (wires ps), v.0.filled, sizes))

pub new_decoder-IsReady : IsReady new_decoder
unfolding new_decoder
new_decoder-IsReady = record { good = tt; all_bytes = tt }

pub WaitsAfter→WaitsFor :
    (r : Decoder × Outcome) (ps : List Packet)
    → r.1 ≡ packets ps
    → WaitsAfter r
    → WaitsFor r.0.size r.0.buf
WaitsAfter→WaitsFor (c, packets qs) ps e w = w
WaitsAfter→WaitsFor (c, fails x) ps e w = cc
WaitsAfter→WaitsFor (c, panic) ps e w = cc
WaitsAfter→WaitsFor (c, stuck) ps e w = cc

length-wires_pos : (q : Packet) (qs : List Packet) → head_length ≤ length (wires (q ∷ qs))
unfolding wire header
length-wires_pos q qs = omega (
  arith,
  length-append (header q.typ q.size ++ q.body) (wires qs),
  length-append (int_to_bytes q.size) q.body,
  length-int_to_bytes q.size,
)

-- Whole valid packets, of bytes, that arrive in one read of a new connection all come out of one
-- call of `Decode`.
pub decode-wires :
    (qs : List Packet)
    → All IsValid qs
    → All IsByte (wires qs)
    → (decode new_decoder (wires qs)).1 ≡ packets qs
unfolding new_decoder
decode-wires [] v ab = unfold decode in refl
decode-wires (q ∷ qs) v ab =
    let all = q ∷ qs in
    let (ps, rest, given, split, left, v', ready) =
      decode_stream new_decoder (wires all) [] all new_decoder-IsReady ab v
        (append-nil (wires all)) in
    elim (decode_waits new_decoder (wires all) new_decoder-IsReady ab) [
      | inl few ↦ absurd (omega (arith, length-wires_pos q qs))
      | inr w ↦
          let r = decode new_decoder (wires all) in
          let none_left : rest ≡ [] =
            waits-nil_sized r.0.size r.0.typ r.0.buf rest ready.good
              (WaitsAfter→WaitsFor r ps given w) v' (sym (append-nil (pending r.0)) ∙ left) in
          given
          ∙ ap packets (
              sym (append-nil ps) ∙ ap (λ (xs : List Packet). ps ++ xs) (sym none_left) ∙ sym split)
    ]

-- The wire form of one packet, read by a new decoder, gives out this packet.
pub decode-wire :
    (p : Packet)
    → IsValid p
    → All IsByte (wire p)
    → (decode new_decoder (wire p)).1 ≡ packets (p ∷ [])
decode-wire p valid ab =
    ap (λ (xs : List ℕ). (decode new_decoder xs).1) (sym (append-nil (wire p)))
    ∙ decode-wires (p ∷ []) (valid, tt) (subst (All IsByte) (sym (append-nil (wire p))) ab)

-- What `Encode` writes for a known type and at most 64 KiB of data, a new decoder gives back as one
-- packet with that type and data.
pub decode_packet-encode :
    (typ : ℕ) (body : List ℕ)
    → bad_type typ ≡ false
    → length body ≤ max_packet_size
    → All IsByte (header typ (length body) ++ body)
    → (bs : List ℕ) × (encode typ body ≡ bytes bs)
      × ((decode new_decoder bs).1
          ≡ packets (record { typ = typ; size = length body; body = body } ∷ []))
unfolding wire
decode_packet-encode typ body good small ab =
    let p : Packet = record { typ = typ; size = length body; body = body } in
    (
      wire p,
      encode-wire typ body good,
      decode-wire p (record { known = good; within = small; filled = refl }) ab,
    )

-- `forward` on the header of a short packet.
forward_short :
    (t0 typ n : ℕ) (rest : List ℕ)
    → bad_type typ ≡ false
    → n < 4
    → forward (record { buf = typ ∷ 0 ∷ 0 ∷ n ∷ rest; size = none; typ = t0 })
      ≡ (record { buf = rest; size = some n; typ = typ }, none)
unfolding forward
forward_short t0 typ n rest good h =
    let e : (0 + 0) * 256 * 256 + n ≡ n = omega arith in
    let f : ltb max_packet_size n ≡ false = ground arith in rw (good, e, f)

-- What follows `forward` in a call of `Decode`.
abbrev resume : ℕ → Decoder × Option Error → Decoder × Outcome
resume fuel r = elim r.1 [ some e ↦ (r.0, fails e) | none ↦ decode_loop fuel r.0 [] ]

-- A decoder with nothing pending; `last` is the type that it has read last.
abbrev pub idle : ℕ → Decoder
idle last = record { buf = []; size = none; typ = last }

-- A packet of known type with one to three bytes of data, whose header arrives first at a decoder
-- with nothing pending: neither the read of the header nor that of the data gives it out, though
-- the same bytes in one read do.
pub decode_held_back :
    (last typ : ℕ) (body : List ℕ)
    → bad_type typ ≡ false
    → 0 < length body
    → length body < 4
    → (decode (idle last) (header typ (length body))).1 ≡ packets []
      × (decode (decode (idle last) (header typ (length body))).0 body).1 ≡ packets []
      × (decode (idle last) (header typ (length body) ++ body)).1
        ≡ packets (record { typ = typ; size = length body; body = body } ∷ [])
unfolding decode header int_to_bytes decode_loop
decode_held_back last typ (a ∷ []) good lo hi =
    let first = ap (resume 5) (forward_short last typ 1 [] good (omega arith)) in
    (
      ap (λ (r : Decoder × Outcome). r.1) first,
      ap (λ (r : Decoder × Outcome). (decode r.0 (a ∷ [])).1) first,
      ap (λ (r : Decoder × Option Error). (resume 6 r).1)
          (forward_short last typ 1 (a ∷ []) good (omega arith)),
    )
decode_held_back last typ (a ∷ b ∷ []) good lo hi =
    let first = ap (resume 5) (forward_short last typ 2 [] good (omega arith)) in
    (
      ap (λ (r : Decoder × Outcome). r.1) first,
      ap (λ (r : Decoder × Outcome). (decode r.0 (a ∷ b ∷ [])).1) first,
      ap (λ (r : Decoder × Option Error). (resume 7 r).1)
          (forward_short last typ 2 (a ∷ b ∷ []) good (omega arith)),
    )
decode_held_back last typ (a ∷ b ∷ c ∷ []) good lo hi =
    let first = ap (resume 5) (forward_short last typ 3 [] good (omega arith)) in
    (
      ap (λ (r : Decoder × Outcome). r.1) first,
      ap (λ (r : Decoder × Outcome). (decode r.0 (a ∷ b ∷ c ∷ [])).1) first,
      ap (λ (r : Decoder × Option Error). (resume 8 r).1)
          (forward_short last typ 3 (a ∷ b ∷ c ∷ []) good (omega arith)),
    )
decode_held_back last typ [] good lo hi = absurd (omega arith)
decode_held_back last typ (_ ∷ _ ∷ _ ∷ _ ∷ _) good lo hi = absurd (omega arith)
