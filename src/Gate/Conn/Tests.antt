-- ===== src/Gate/Conn/Tests.antt =====
-- Concrete connections, and the theorems about connections at them.
use gira.Prelude.{
  ◌≡◌, refl, inl, inr, false, List, [], ◌∷◌, ◌++◌, map, eqb, All, arith, if◌then◌else◌,
}
use gira.Prelude.Keys.{lookup, text_key}
use gira.Gate.Packet.{Packet, decode, decode_loop, forward, new_decoder, int_to_bytes}
use gira.Gate.Packet.Wire.{IsValid, header, wire, wires}
use gira.Gate.Packet.Delivery.{idle}
use gira.Gate.Packet.Reading.{Reading, Drained, new_decoder-Reading}
use gira.Gate.Message.{Routes, encode, encode_id, ok}
use gira.Gate.Message
use gira.Gate.Message.RoundTrip.{IsSendable}
use gira.Gate.Session.{new_session}
use gira.Gate.Conn.{Conn, Inbound, new_conn}
use gira.Gate.Conn.Receive.{
  arrived, goes_on, crash, read_loop, process_packets, process_packet, process_message, unsealed,
}
use gira.Gate.Conn.Inbox.{beat, message, HandedOn}
use gira.Gate.Conn.Crash.{process_packet-truncated_code}
use gira.Gate.Conn.Delivery.{carried, AllCarry, read_loop-delivers}
use gira.Gate.Conn.Establish.{done, waiting, recv_handshake_ack, establish}
use gira.Gate.Conn.Establish.Opened.{Approved, Opened, answered, establish-Opened}
use gira.Gate.Conn.Establish.Stalled.{ack_held_back}
use gira.Gate.Conn.Sample.{no_routes, plain, fresh}

abbrev beat_packet : Packet
beat_packet = record { typ = 4; size = 0; body = [] }

-- A notify to "a".
abbrev note : Message.Message
note = record { typ = 1; id = 0; route = 97 ∷ []; body = 1 ∷ []; compressed = false }

abbrev note_packet : Packet
note_packet = record { typ = 3; size = 4; body = 2 ∷ 1 ∷ 97 ∷ 1 ∷ [] }

abbrev noted : Inbound
noted = record { route = 97 ∷ []; payload = 1 ∷ []; req_id = 0 }

abbrev expect : Packet → List Inbound
expect p = if eqb p.typ 3 then noted ∷ [] else []

note-IsSendable : IsSendable no_routes note
unfolding lookup
note-IsSendable = record {
  known = omega arith;
  id_fits = omega arith;
  route_fits = λ e. omega arith;
  code_fits = λ c e. cc;
  has_data = λ e. omega arith;
}

note_encoded : encode no_routes note ≡ ok (2 ∷ 1 ∷ 97 ∷ 1 ∷ [])
unfolding encode lookup
note_encoded = refl

both-IsValid : All IsValid (beat_packet ∷ note_packet ∷ [])
both-IsValid = (
  record { known = refl; within = omega arith; filled = refl },
  (record { known = refl; within = omega arith; filled = refl }, tt),
)

both_carry : AllCarry plain expect (new_conn 1 0 4).session.secret (beat_packet ∷ note_packet ∷ [])
unfolding new_conn new_session
both_carry = (
  beat refl refl,
  (
    message note 0 (1 ∷ []) refl note-IsSendable note_encoded (inr (refl, refl)) (inl (refl, refl))
        refl,
    tt,
  ),
)

both-Reading :
    Reading new_decoder
      (4 ∷ 0 ∷ 0 ∷ 0 ∷ 3 ∷ 0 ∷ 0 ∷ 4 ∷ 2 ∷ 1 ∷ 97 ∷ 1 ∷ [])
      (beat_packet ∷ note_packet ∷ [])
unfolding wire header int_to_bytes
both-Reading = new_decoder-Reading (beat_packet ∷ note_packet ∷ []) both-IsValid (omega arith)

delivered :
    (read_loop plain fresh (
      arrived (4 ∷ 0 ∷ 0 ∷ 0 ∷ 3 ∷ 0 ∷ [])
      ∷ arrived (0 ∷ 4 ∷ 2 ∷ 1 ∷ 97 ∷ 1 ∷ [])
      ∷ [])).0.ch_message
    ≡ noted ∷ []
unfolding read_loop decode decode_loop forward new_decoder new_conn process_packets process_packet
    process_message unsealed Message.decode
delivered = refl

read_loop-delivers_example :
    (c' : Conn) × (ps rest : List Packet) × (read_loop plain fresh
        (map arrived ((4 ∷ 0 ∷ 0 ∷ 0 ∷ 3 ∷ 0 ∷ []) ∷ (0 ∷ 4 ∷ 2 ∷ 1 ∷ 97 ∷ 1 ∷ []) ∷ []))
      ≡ (c', goes_on))
    × (beat_packet ∷ note_packet ∷ [] ≡ ps ++ rest)
    × HandedOn fresh c' (carried expect ps)
    × Reading c'.decoder [] rest
    × Drained c'.decoder rest
unfolding new_conn
read_loop-delivers_example =
    read_loop-delivers plain refl expect (4 ∷ 0 ∷ 0 ∷ 0 ∷ 3 ∷ 0 ∷ [])
      ((0 ∷ 4 ∷ 2 ∷ 1 ∷ 97 ∷ 1 ∷ []) ∷ []) fresh (beat_packet ∷ note_packet ∷ []) refl both-Reading
      both_carry

-- The handshake `{"":}` and the acknowledgement `{}`.
abbrev hello : Packet
hello = record { typ = 1; size = 5; body = 123 ∷ 34 ∷ 34 ∷ 58 ∷ 125 ∷ [] }

abbrev ack : Packet
ack = record { typ = 2; size = 2; body = 123 ∷ 125 ∷ [] }

hello-Reading : Reading new_decoder (1 ∷ 0 ∷ 0 ∷ 5 ∷ 123 ∷ 34 ∷ 34 ∷ 58 ∷ 125 ∷ []) (hello ∷ [])
unfolding wire header int_to_bytes
hello-Reading =
    new_decoder-Reading (hello ∷ [])
      (record { known = refl; within = omega arith; filled = refl }, tt) (omega arith)

hello-Approved : Approved plain fresh hello [] (123 ∷ 125 ∷ [])
unfolding new_conn new_session
hello-Approved = record {
  typ = refl;
  token = [];
  parsed = refl;
  key = inl (refl, refl);
  valid = refl;
  replied = refl;
  writes = refl;
}

ack_bytes : 2 ∷ 0 ∷ 0 ∷ 2 ∷ 123 ∷ 125 ∷ [] ≡ wires (ack ∷ [])
unfolding wire header int_to_bytes
ack_bytes = refl

establish-Opened_example : Opened (answered fresh fresh.decoder [] (123 ∷ 125 ∷ [])) 0 [] (
    establish plain fresh 0 (
      map arrived ((1 ∷ 0 ∷ 0 ∷ 5 ∷ 123 ∷ 34 ∷ []) ∷ (34 ∷ 58 ∷ 125 ∷ []) ∷ [])
      ++ map arrived ((2 ∷ 0 ∷ 0 ∷ 2 ∷ 123 ∷ 125 ∷ []) ∷ [])))
establish-Opened_example =
    establish-Opened plain fresh 0 hello ack [] [] (123 ∷ 125 ∷ []) (1 ∷ 0 ∷ 0 ∷ 5 ∷ 123 ∷ 34 ∷ [])
      ((34 ∷ 58 ∷ 125 ∷ []) ∷ []) (2 ∷ 0 ∷ 0 ∷ 2 ∷ 123 ∷ 125 ∷ []) [] refl hello-Approved
      (omega arith) hello-Reading refl
      (record { known = refl; within = omega arith; filled = refl }, tt) (omega arith) ack_bytes

ack_held_back_example :
    ((recv_handshake_ack
        (record fresh { decoder = idle 1 })
        (arrived (header 2 2) ∷ arrived (123 ∷ 125 ∷ []) ∷ [])).1
      ≡ waiting)
    × ((recv_handshake_ack
          (record fresh { decoder = idle 1 })
          (arrived (header 2 2 ++ 123 ∷ 125 ∷ []) ∷ [])).1
        ≡ done [] [])
ack_held_back_example =
    ack_held_back (record fresh { decoder = idle 1 }) 1 (123 ∷ 125 ∷ []) refl (omega arith)
      (omega arith)

process_packet-truncated_code_example :
    process_packet plain fresh (record { typ = 3; size = 2; body = 3 ∷ 7 ∷ [] })
    ≡ (record fresh { last_at = 5 }, crash)
process_packet-truncated_code_example = process_packet-truncated_code plain fresh 3 7 refl refl refl
