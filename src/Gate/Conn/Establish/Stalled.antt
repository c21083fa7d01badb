-- ===== src/Gate/Conn/Establish/Stalled.antt =====
-- Handshakes that stall. (gate/conn.go, gate/packet/codec.go)
use gira.Prelude.{ℕ, ◌<◌, ◌≡◌, refl, ap, ◌∙◌, List, [], ◌∷◌, ◌++◌, length}
use gira.Gate.Packet.{Packet, Decoder, packets, decode, handshake_ack}
use gira.Gate.Packet.Wire.{header}
use gira.Gate.Packet.Delivery.{idle, decode_held_back}
use gira.Gate.Conn.{Conn}
use gira.Gate.Conn.Receive.{arrived}
use gira.Gate.Conn.Establish.{done, waiting, recv_handshake_ack}

ack_waits :
    (c : Conn) (first second : List ℕ)
    → (decode c.decoder first).1 ≡ packets []
    → (decode (decode c.decoder first).0 second).1 ≡ packets []
    → (recv_handshake_ack c (arrived first ∷ arrived second ∷ [])).1 ≡ waiting
unfolding recv_handshake_ack
ack_waits c first second e e' = rw (e, recv_handshake_ack) (rw (e', recv_handshake_ack))

ack_taken :
    (c : Conn) (input : List ℕ) (p : Packet)
    → (decode c.decoder input).1 ≡ packets (p ∷ [])
    → p.typ ≡ handshake_ack
    → (recv_handshake_ack c (arrived input ∷ [])).1 ≡ done [] []
unfolding recv_handshake_ack
ack_taken c input p e t = rw (e, recv_handshake_ack) (rw (t, recv_handshake_ack))

-- An acknowledgement with one to three bytes of data that arrives as a header and then its data, at
-- a decoder with nothing pending: with all of its bytes read `recvHandshakeAck` still waits, though
-- the same bytes in one read end the handshake.
pub ack_held_back :
    (c : Conn) (last : ℕ) (body : List ℕ)
    → c.decoder ≡ idle last
    → 0 < length body
    → length body < 4
    → let head = header handshake_ack (length body) in
      ((recv_handshake_ack c (arrived head ∷ arrived body ∷ [])).1 ≡ waiting)
      × ((recv_handshake_ack c (arrived (head ++ body) ∷ [])).1 ≡ done [] [])
ack_held_back c last body e lo hi =
    let head = header handshake_ack (length body) in
    let ack : Packet = record { typ = handshake_ack; size = length body; body = body } in
    let (first, second, whole) = decode_held_back last handshake_ack body refl lo hi in
    (
      ack_waits c head body (ap (λ (d : Decoder). (decode d head).1) e ∙ first)
          (ap (λ (d : Decoder). (decode (decode d head).0 body).1) e ∙ second),
      ack_taken c (head ++ body) ack (ap (λ (d : Decoder). (decode d (head ++ body)).1) e ∙ whole)
          refl,
    )
