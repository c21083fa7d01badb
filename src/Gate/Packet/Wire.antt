-- ===== src/Gate/Packet/Wire.antt =====
-- The wire format of a packet, and what reading one header does. (gate/packet/codec.go)
use gira.Prelude.{
  ℕ, suc, ◌<◌, ◌≤◌, ◌≡◌, refl, ap, inl, inr, false, true, Bool-cases, Option, none, some, List, [],
  ◌∷◌, ◌++◌, append_assoc, length, All, arith, ltb,
}
use gira.Gate.Packet.{
  Packet, Decoder, Error, wrong_packet_type, packet_size_exceed, bytes, bytes_to_int, int_to_bytes,
  bad_type, max_packet_size, head_length, forward, encode,
}

abbrev pub IsByte : ℕ → Type 0
IsByte b = b < 256

-- What the decoder accepts: a known type, a size within the limit, and as many bytes as it says.
pub record IsValid (p : Packet) : Type 0 where
  pub known : bad_type p.typ ≡ false
  pub within : p.size ≤ max_packet_size
  pub filled : p.size ≡ length p.body

unfoldable pub header : ℕ → ℕ → List ℕ
header typ size = typ ∷ int_to_bytes size

unfoldable pub wire : Packet → List ℕ
wire p = header p.typ p.size ++ p.body

abbrev pub wires : List Packet → List ℕ
wires [] = []
wires (p ∷ ps) = wire p ++ wires ps

pub wires-append : (ps qs : List Packet) → wires (ps ++ qs) ≡ wires ps ++ wires qs
wires-append [] qs = refl
wires-append (p ∷ ps) qs = rw (wires-append ps qs, append_assoc)

-- `Encode` writes the wire format of the packet with this type and this body.
pub encode-wire :
    (typ : ℕ) (body : List ℕ)
    → bad_type typ ≡ false
    → encode typ body ≡ bytes (wire (record { typ = typ; size = length body; body = body }))
unfolding encode wire header
encode-wire typ body h = rw h

-- The three bytes of the length are its digits.
pub int_to_bytes-bytes_to_int :
    (b1 b2 b3 : ℕ)
    → IsByte b1
    → IsByte b2
    → IsByte b3
    → int_to_bytes (bytes_to_int (b1 ∷ b2 ∷ b3 ∷ [])) ≡ b1 ∷ b2 ∷ b3 ∷ []
unfolding int_to_bytes bytes_to_int
int_to_bytes-bytes_to_int b1 b2 b3 h1 h2 h3 = ground arith

pub bytes_to_int-int_to_bytes : (n : ℕ) → n < 16777216 → bytes_to_int (int_to_bytes n) ≡ n
unfolding int_to_bytes bytes_to_int
bytes_to_int-int_to_bytes n h = omega arith

-- A stream that cannot go on: its next header has an unknown type or a size above the limit.
abbrev pub IsBad : Error → List ℕ → Type 0
IsBad e (t ∷ b1 ∷ b2 ∷ b3 ∷ rest) = elim e [
  | wrong_packet_type ↦ bad_type t ≡ true
  | packet_size_exceed ↦
      (bad_type t ≡ false) × (ltb max_packet_size (bytes_to_int (b1 ∷ b2 ∷ b3 ∷ [])) ≡ true)
]
IsBad e _ = ⊥

-- What `forward` makes of a buffer that holds a header: an error for a bad one, and otherwise a
-- decoder whose header and buffer make up the bytes that were there.
abbrev pub Forwards : List ℕ → Decoder × Option Error → Type 0
Forwards buf (c, some e) = IsBad e buf
Forwards buf (c, none) =
    (n : ℕ) × (c.size ≡ some n)
    × (n ≤ max_packet_size)
    × (bad_type c.typ ≡ false)
    × (header c.typ n ++ c.buf ≡ buf)
    × (suc (suc (suc (suc (length c.buf)))) ≡ length buf)
    × All IsByte c.buf

forward-Forwards_cases :
    (c : Decoder) (t b1 b2 b3 : ℕ) (rest : List ℕ)
    → All IsByte (t ∷ b1 ∷ b2 ∷ b3 ∷ rest)
    → Forwards (t ∷ b1 ∷ b2 ∷ b3 ∷ rest) (forward (record c { buf = t ∷ b1 ∷ b2 ∷ b3 ∷ rest }))
unfolding forward header
forward-Forwards_cases c t b1 b2 b3 rest h = elim (Bool-cases (bad_type t)) [
  | inl bad ↦ rw bad bad
  | inr good ↦ elim (Bool-cases (ltb max_packet_size (bytes_to_int (b1 ∷ b2 ∷ b3 ∷ [])))) [
    | inl big ↦ rw (good, big) (good, big)
    | inr fits ↦
        rw (good, fits)
          (
            bytes_to_int (b1 ∷ b2 ∷ b3 ∷ []),
            refl,
            ground (arith, fits),
            good,
            ap (λ (xs : List ℕ). t ∷ xs ++ rest)
                (int_to_bytes-bytes_to_int b1 b2 b3 h.1.0 h.1.1.0 h.1.1.1.0),
            refl,
            h.1.1.1.1,
          )
  ]
]

forward-Forwards_buf :
    (c : Decoder) (buf : List ℕ)
    → All IsByte buf
    → head_length ≤ length buf
    → Forwards buf (forward (record c { buf = buf }))
forward-Forwards_buf c (t ∷ b1 ∷ b2 ∷ b3 ∷ rest) h n = forward-Forwards_cases c t b1 b2 b3 rest h
forward-Forwards_buf c [] h n = absurd (omega arith)
forward-Forwards_buf c (_ ∷ []) h n = absurd (omega arith)
forward-Forwards_buf c (_ ∷ _ ∷ []) h n = absurd (omega arith)
forward-Forwards_buf c (_ ∷ _ ∷ _ ∷ []) h n = absurd (omega arith)

pub forward-Forwards :
    (c : Decoder) → All IsByte c.buf → head_length ≤ length c.buf → Forwards c.buf (forward c)
forward-Forwards c = forward-Forwards_buf c c.buf
