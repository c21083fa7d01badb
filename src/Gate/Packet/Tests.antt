-- ===== src/Gate/Packet/Tests.antt =====
-- Concrete runs of the packet codec, and its theorems at concrete inputs.
use gira.Prelude.{ℕ, ◌≡◌, refl, some, List, [], ◌∷◌, ◌++◌, All, arith}
use gira.Gate.Packet.{
  Packet, Decoder, packets, fails, wrong_packet_type, packet_size_exceed, decode, decode_loop,
  forward, new_decoder, int_to_bytes,
}
use gira.Gate.Packet.Wire.{IsValid, header, wire, wires}
use gira.Gate.Packet.Stream.{pending, IsReady, Accounts}
use gira.Gate.Packet.Chunks.{decode-Accounts, decode_stream}

abbrev beat : Packet
beat = record { typ = 4; size = 0; body = [] }

abbrev hello : Packet
hello = record { typ = 3; size = 5; body = 104 ∷ 101 ∷ 108 ∷ 108 ∷ 111 ∷ [] }

two_in_one_read :
    (decode new_decoder (4 ∷ 0 ∷ 0 ∷ 0 ∷ 3 ∷ 0 ∷ 0 ∷ 5 ∷ 104 ∷ 101 ∷ [])).1 ≡ packets (beat ∷ [])
unfolding decode decode_loop forward new_decoder
two_in_one_read = refl

unknown_type : (decode new_decoder (11 ∷ 0 ∷ 0 ∷ 0 ∷ [])).1 ≡ fails wrong_packet_type
unfolding decode decode_loop forward new_decoder
unknown_type = refl

too_large : (decode new_decoder (3 ∷ 1 ∷ 0 ∷ 1 ∷ [])).1 ≡ fails packet_size_exceed
unfolding decode decode_loop forward new_decoder
too_large = refl

-- A decoder that has read the header of `hello` and two bytes of its data.
abbrev halfway : Decoder
halfway = record { buf = 104 ∷ 101 ∷ []; size = some 5; typ = 3 }

halfway-IsReady : IsReady halfway
halfway-IsReady = record { good = (omega arith, refl); all_bytes = omega arith }

hello-IsValid : IsValid hello
hello-IsValid = record { known = refl; within = omega arith; filled = refl }

beat-IsValid : IsValid beat
beat-IsValid = record { known = refl; within = omega arith; filled = refl }

abbrev rest_of_hello : List ℕ
rest_of_hello = 108 ∷ 108 ∷ 111 ∷ []

decode-Accounts_example : Accounts (pending halfway ++ rest_of_hello) (decode halfway rest_of_hello)
decode-Accounts_example = decode-Accounts halfway rest_of_hello halfway-IsReady (omega arith)

halfway_stream :
    pending halfway ++ (rest_of_hello ++ (4 ∷ 0 ∷ 0 ∷ 0 ∷ [])) ≡ wires (hello ∷ beat ∷ [])
unfolding wire header int_to_bytes
halfway_stream = refl

decode_stream_example :
    (ps rest : List Packet) × ((decode halfway rest_of_hello).1 ≡ packets ps)
    × (hello ∷ beat ∷ [] ≡ ps ++ rest)
    × (pending (decode halfway rest_of_hello).0 ++ (4 ∷ 0 ∷ 0 ∷ 0 ∷ []) ≡ wires rest)
    × All IsValid rest
    × IsReady (decode halfway rest_of_hello).0
decode_stream_example =
    decode_stream halfway rest_of_hello (4 ∷ 0 ∷ 0 ∷ 0 ∷ []) (hello ∷ beat ∷ []) halfway-IsReady
      (omega arith) (hello-IsValid, (beat-IsValid, tt)) halfway_stream
