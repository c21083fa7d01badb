-- ===== src/Gate/Packet/Chunks.antt =====
-- `Decode` over a whole connection: no byte is lost, made up or reordered, whatever the reads cut.
-- (gate/packet/codec.go)
use gira.Prelude.{
  ℕ, suc, ◌<◌, ◌≤◌, ◌≡◌, refl, sym, ap, ◌∙◌, ◌⊎◌, inl, inr, Bool-cases, Option, none, some, List,
  [], ◌∷◌, ◌++◌, append_assoc, length, ltb→lt, All, All-append, arith, ltb,
}
use gira.Gate.Packet.{
  Packet, Decoder, Error, Outcome, packets, fails, panic, stuck, max_packet_size, wrong_packet_type,
  packet_size_exceed, head_length, forward, decode_loop, decode, bytes_to_int, int_to_bytes,
}
use gira.Gate.Packet.Wire.{
  IsByte, IsValid, header, wire, wires, IsBad, forward-Forwards, bytes_to_int-int_to_bytes,
}
use gira.Gate.Packet.Stream.{
  pending_of, pending, HeaderIsGood, IsReady, Accounts, WaitsAfter, forward-Settles, decode_loop-at,
  decode_loop-Settles,
}

-- What `Decode` has been given, with the bytes of this read added.
decode-Accounts_sized :
    (size : Option ℕ) (typ : ℕ) (buf input : List ℕ)
    → HeaderIsGood size typ
    → All IsByte (buf ++ input)
    → let r = decode (record { buf = buf; size = size; typ = typ }) input in
      Accounts (pending_of size typ (buf ++ input)) r
      × ((length (buf ++ input) < head_length) ⊎ WaitsAfter r)
unfolding decode
decode-Accounts_sized size typ buf input good ab =
    elim (Bool-cases (ltb (length (buf ++ input)) head_length)) [
      | inl few ↦ rw few ((refl, tt, record { good = good; all_bytes = ab }), inl (ltb→lt _ _ few))
      | inr enough ↦ rw enough (go size good (ground (arith, enough)))
    ]
  where
    all : List ℕ
    all = buf ++ input

    go :
        (s : Option ℕ)
        → HeaderIsGood s typ
        → head_length ≤ length all
        → let c' : Decoder = record { buf = all; size = s; typ = typ } in
          let r : Decoder × Outcome = elim s [
            | some n ↦ decode_loop (suc (length all)) c' []
            | none ↦ elim (forward c').1 [
              | some e ↦ ((forward c').0, fails e)
              | none ↦ decode_loop (suc (length all)) (forward c').0 []
            ]
          ] in
          Accounts (pending_of s typ all) r × ((length all < head_length) ⊎ WaitsAfter r)
    go (some n) g enough =
        let h =
          decode_loop-Settles (header typ n ++ all) (suc (length all)) all n typ [] (omega arith)
            g.0 g.1 ab tt refl in
        (h.0, inr h.1)
    go none g enough =
        let c' : Decoder = record { buf = all; size = none; typ = typ } in
        let h =
          forward-Settles all all [] (forward c') (λ c. decode_loop (suc (length all)) c [])
            (forward-Forwards c' ab enough) tt refl
            (λ c m sz le good' ab' shrink front. decode_loop-at all (suc (length all)) [] c m sz (
              decode_loop-Settles all (suc (length all)) c.buf m c.typ [] (omega arith) le good' ab'
                tt front)) in
        (h.0, inr h.1)

decode-Accounts_both :
    (c : Decoder) (input : List ℕ)
    → IsReady c
    → All IsByte input
    → Accounts (pending c ++ input) (decode c input)
      × ((length (c.buf ++ input) < head_length) ⊎ WaitsAfter (decode c input))
decode-Accounts_both c input ready ab = sized c.size ready.good
  where
    sized :
        (s : Option ℕ)
        → HeaderIsGood s c.typ
        → let r = decode (record { buf = c.buf; size = s; typ = c.typ }) input in
          Accounts (pending_of s c.typ c.buf ++ input) r
          × ((length (c.buf ++ input) < head_length) ⊎ WaitsAfter r)
    sized none g =
        decode-Accounts_sized none c.typ c.buf input g
          (All-append c.buf input IsByte (ready.all_bytes, ab))
    sized (some n) g = rw (append_assoc (header c.typ n) c.buf input) (
        decode-Accounts_sized (some n) c.typ c.buf input g
          (All-append c.buf input IsByte (ready.all_bytes, ab)))

-- A call of `Decode` on a decoder in a good state returns, without a panic. If it gives packets
-- out, they are valid, and their wire form followed by what is then pending is what was pending
-- followed by the bytes read, and the decoder is in a good state again. If it fails, those bytes
-- are valid packets followed by a header with an unknown type or a size above the limit, as the
-- error says.
pub decode-Accounts :
    (c : Decoder) (input : List ℕ)
    → IsReady c
    → All IsByte input
    → Accounts (pending c ++ input) (decode c input)
decode-Accounts c input ready ab = (decode-Accounts_both c input ready ab).0

-- A call of `Decode` on a decoder in a good state that gives no error leaves no whole packet
-- behind, unless the buffer with the bytes read holds fewer than four bytes.
pub decode_waits :
    (c : Decoder) (input : List ℕ)
    → IsReady c
    → All IsByte input
    → (length (c.buf ++ input) < head_length) ⊎ WaitsAfter (decode c input)
decode_waits c input ready ab = (decode-Accounts_both c input ready ab).1

-- Two valid packets at the head of the same bytes are one packet.
pub append-left_cancel {ℓ} :
    {A : Type ℓ} (xs ys a b : List A)
    → length xs ≡ length ys
    → xs ++ a ≡ ys ++ b
    → (xs ≡ ys) × (a ≡ b)
append-left_cancel [] [] a b l e = (refl, e)
append-left_cancel [] (y ∷ ys) a b l e = absurd (omega arith)
append-left_cancel (x ∷ xs) [] a b l e = absurd (omega arith)
append-left_cancel (x ∷ xs) (y ∷ ys) a b l e = ground (arith, append-left_cancel xs ys a b)

pub size_of_header :
    (n m : ℕ) → n ≤ max_packet_size → m ≤ max_packet_size → int_to_bytes n ≡ int_to_bytes m → n ≡ m
size_of_header n m hn hm e =
    sym (bytes_to_int-int_to_bytes n (omega arith))
    ∙ ap bytes_to_int e
    ∙ bytes_to_int-int_to_bytes m (omega arith)

pub length-int_to_bytes : (n : ℕ) → length (int_to_bytes n) ≡ 3
unfolding int_to_bytes
length-int_to_bytes n = refl

cons_inj {ℓ} : {A : Type ℓ} (x y : A) (xs ys : List A) → x ∷ xs ≡ y ∷ ys → (x ≡ y) × (xs ≡ ys)
cons_inj x y xs ys e = (cc, cc)

wire_inj :
    (p q : Packet) (a b : List ℕ)
    → IsValid p
    → IsValid q
    → wire p ++ a ≡ wire q ++ b
    → (p ≡ q) × (a ≡ b)
unfolding wire header
wire_inj p q a b vp vq e =
    let heads =
      append-left_cancel (header p.typ p.size) (header q.typ q.size) (p.body ++ a) (q.body ++ b)
        (omega (arith, length-int_to_bytes p.size, length-int_to_bytes q.size))
        (sym (append_assoc (header p.typ p.size) p.body a)
          ∙ e
          ∙ append_assoc (header q.typ q.size) q.body b) in
    let fields = cons_inj p.typ q.typ (int_to_bytes p.size) (int_to_bytes q.size) heads.0 in
    let sizes : p.size ≡ q.size = size_of_header p.size q.size vp.within vq.within fields.1 in
    let bodies =
      append-left_cancel p.body q.body a b (omega (arith, vp.filled, vq.filled)) heads.1 in
    (λ i. record { typ = fields.0 i; size = sizes i; body = bodies.0 i }, bodies.1)

wire-ne-nil : (p : Packet) (rest : List ℕ) → wire p ++ rest ≡ [] → ⊥
unfolding wire header
wire-ne-nil p rest e = cc

-- Valid packets at the head of a stream of valid packets are the first ones of that stream.
wires-prefix :
    (ps qs : List Packet) (a : List ℕ)
    → All IsValid ps
    → All IsValid qs
    → wires ps ++ a ≡ wires qs
    → (rest : List Packet) × (qs ≡ ps ++ rest) × (a ≡ wires rest) × All IsValid rest
wires-prefix [] qs a vp vq e = (qs, refl, e, vq)
wires-prefix (p ∷ ps) [] a vp vq e =
    absurd (wire-ne-nil p (wires ps ++ a) (sym (append_assoc (wire p) (wires ps) a) ∙ e))
wires-prefix (p ∷ ps) (q ∷ qs) a vp vq e =
    let h =
      wire_inj p q (wires ps ++ a) (wires qs) vp.0 vq.0
        (sym (append_assoc (wire p) (wires ps) a) ∙ e) in
    let (rest, f, g, v) = wires-prefix ps qs a vp.1 vq.1 h.1 in (rest, λ i. sym h.0 i ∷ f i, g, v)

-- No stream of valid packets begins with a bad header.
IsBad-cases :
    (e : Error) (t b1 b2 b3 : ℕ) (r : List ℕ) (q : Packet)
    → IsValid q
    → t ≡ q.typ
    → b1 ∷ b2 ∷ b3 ∷ [] ≡ int_to_bytes q.size
    → ¬ IsBad e (t ∷ b1 ∷ b2 ∷ b3 ∷ r)
IsBad-cases wrong_packet_type t b1 b2 b3 r q v et es bad = cc (v.known, et, bad)
IsBad-cases packet_size_exceed t b1 b2 b3 r q v et es bad = absurd (
    omega (
      arith,
      ltb→lt _ _ bad.1,
      v.within,
      ap bytes_to_int es,
      bytes_to_int-int_to_bytes q.size (omega (arith, v.within)),
    ))

not-IsBad-wires :
    (e : Error) (rest more : List ℕ) (qs : List Packet)
    → All IsValid qs
    → rest ++ more ≡ wires qs
    → ¬ IsBad e rest
unfolding wire header int_to_bytes
not-IsBad-wires e [] more qs v eq bad = bad
not-IsBad-wires e (_ ∷ []) more qs v eq bad = bad
not-IsBad-wires e (_ ∷ _ ∷ []) more qs v eq bad = bad
not-IsBad-wires e (_ ∷ _ ∷ _ ∷ []) more qs v eq bad = bad
not-IsBad-wires e (t ∷ b1 ∷ b2 ∷ b3 ∷ r) more [] v eq bad = cc
not-IsBad-wires e (t ∷ b1 ∷ b2 ∷ b3 ∷ r) more (q ∷ qs) v eq bad =
    IsBad-cases e t b1 b2 b3 r q v.0 (cc) (cc) bad

-- A decoder in a good state is reading a stream of valid packets, whatever part of it has arrived.
-- Then each call of `Decode` succeeds and gives out the next packets of the stream in order, and
-- what is then pending, followed by the bytes still to come, is the wire form of the others; the
-- decoder is in a good state again.
pub decode_stream :
    (c : Decoder) (input future : List ℕ) (qs : List Packet)
    → IsReady c
    → All IsByte input
    → All IsValid qs
    → pending c ++ (input ++ future) ≡ wires qs
    → (ps rest : List Packet) × ((decode c input).1 ≡ packets ps)
      × (qs ≡ ps ++ rest)
      × (pending (decode c input).0 ++ future ≡ wires rest)
      × All IsValid rest
      × IsReady (decode c input).0
decode_stream c input future qs ready ab vq eq =
    go (decode c input) (decode-Accounts c input ready ab)
  where
    go :
        (r : Decoder × Outcome)
        → Accounts (pending c ++ input) r
        → (ps rest : List Packet) × (r.1 ≡ packets ps)
          × (qs ≡ ps ++ rest)
          × (pending r.0 ++ future ≡ wires rest)
          × All IsValid rest
          × IsReady r.0
    go (c', packets ps) (acc, vp, ready') =
        let (rest, e1, e2, v) = wires-prefix ps qs (pending c' ++ future) vp vq (
          sym (append_assoc (wires ps) (pending c') future)
          ∙ ap (λ (b : List ℕ). b ++ future) acc
          ∙ append_assoc (pending c) input future
          ∙ eq) in
        (ps, rest, refl, e1, e2, v, ready')
    go (c', fails e) (ps, rest, vp, acc, bad) =
        let (qs', e1, e2, v) = wires-prefix ps qs (rest ++ future) vp vq (
          sym (append_assoc (wires ps) rest future)
          ∙ ap (λ (b : List ℕ). b ++ future) acc
          ∙ append_assoc (pending c) input future
          ∙ eq) in
        absurd (not-IsBad-wires e rest future qs' v e2 bad)
    go (c', panic) h = absurd h
    go (c', stuck) h = absurd h
