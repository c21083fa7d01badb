-- ===== src/Gate/Packet/Reading.antt =====
-- A decoder in the middle of a stream of packets, one read after the other. (gate/packet/codec.go)
use gira.Prelude.{
  ℕ, ◌<◌, ◌≡◌, refl, sym, ◌∙◌, ◌⊎◌, inl, inr, List, [], ◌++◌, append-nil, length, All,
  All-append_left, All-append_right, arith,
}
use gira.Gate.Packet.{Packet, Decoder, packets, head_length, decode, new_decoder}
use gira.Gate.Packet.Wire.{IsByte, IsValid, wires}
use gira.Gate.Packet.Stream.{pending, IsReady}
use gira.Gate.Packet.Chunks.{decode_stream, decode_waits}
use gira.Gate.Packet.Delivery.{waits-nil_sized, new_decoder-IsReady, WaitsAfter→WaitsFor}

-- The decoder is in a good state, and what is pending, with the bytes `future` still to come, is the
-- wire form of the valid packets `qs`.
pub record Reading (c : Decoder) (future : List ℕ) (qs : List Packet) : Type 0 where
  pub ready : IsReady c
  pub all_bytes : All IsByte future
  pub valid : All IsValid qs
  pub stream : pending c ++ future ≡ wires qs

pub new_decoder-Reading :
    (qs : List Packet) → All IsValid qs → All IsByte (wires qs) → Reading new_decoder (wires qs) qs
unfolding new_decoder
new_decoder-Reading qs v ab = record {
  ready = new_decoder-IsReady;
  all_bytes = ab;
  valid = v;
  stream = refl;
}

pub decode-Reading :
    (c : Decoder) (input future : List ℕ) (qs : List Packet)
    → Reading c (input ++ future) qs
    → (ps rest : List Packet) × ((decode c input).1 ≡ packets ps)
      × (qs ≡ ps ++ rest)
      × Reading (decode c input).0 future rest
decode-Reading c input future qs r =
    let (ps, rest, given, split, left, v, ready) =
      decode_stream c input future qs r.ready (All-append_left IsByte input future r.all_bytes)
        r.valid r.stream in
    (
      ps,
      rest,
      given,
      split,
      record {
        ready = ready;
        all_bytes = All-append_right IsByte input future r.all_bytes;
        valid = v;
        stream = left;
      },
    )

-- Nothing of the stream is left, or fewer than four bytes are in the buffer.
abbrev pub Drained : Decoder → List Packet → Type 0
Drained c rest = (rest ≡ []) ⊎ (length c.buf < head_length)

few_bytes :
    (c : Decoder) (input : List ℕ)
    → length (c.buf ++ input) < head_length
    → length (decode c input).0.buf < head_length
unfolding decode
few_bytes c input h = ground arith

pub decode-Drained :
    (c : Decoder) (input : List ℕ) (ps rest : List Packet)
    → IsReady c
    → All IsByte input
    → (decode c input).1 ≡ packets ps
    → Reading (decode c input).0 [] rest
    → Drained (decode c input).0 rest
decode-Drained c input ps rest ready ab given r = elim (decode_waits c input ready ab) [
  | inl few ↦ inr (few_bytes c input few)
  | inr w ↦
      let d = (decode c input).0 in
      inl (
        waits-nil_sized d.size d.typ d.buf rest r.ready.good
          (WaitsAfter→WaitsFor (decode c input) ps given w) r.valid
          (sym (append-nil (pending d)) ∙ r.stream))
]
