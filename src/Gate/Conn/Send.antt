-- ===== src/Gate/Conn/Send.antt =====
-- What the server's sends put on the wire. (gate/conn.go)
use gira.Prelude.{ℕ, ◌<◌, ◌≡◌, refl, inl, inr, true, none, some, List, [], ◌∷◌, ◌++◌, length, arith}
use gira.Gate.Packet.{Packet, data_type}
use gira.Gate.Packet.Wire.{wire, encode-wire}
use gira.Gate.Message.{Routes, response, push, encode}
use gira.Gate.Message
use gira.Gate.Message.RoundTrip.{IsSendable, decode-encode}
use gira.Gate.Conn.{Conn, Env, send, serialize, send_message, message_of, push_to, respond}
use gira.Gate.Conn.Inbox.{Sealed}

-- The data packet with this content.
abbrev pub data_packet : List ℕ → Packet
data_packet em = record { typ = data_type; size = length em; body = em }

-- The connection with one more frame to write.
abbrev pub sending : Conn → Packet → Conn
sending c p = record c { ch_send = c.ch_send ++ (wire p ∷ []) }

serialize-Sealed :
    (w : Env) (c : Conn) (payload body : List ℕ)
    → Sealed w c.session.secret payload body
    → (serialize w c payload).0 ≡ some body
unfolding serialize
serialize-Sealed w c payload body (inl (plain, same)) = ground arith
serialize-Sealed w c payload body (inr (has, ci, e, good, enc)) = ground arith

send_message-sending :
    (w : Env) (c : Conn) (m : Message.Message)
    → c.send_open ≡ true
    → IsSendable w.routes m
    → (em : List ℕ) × (encode w.routes m ≡ Message.Result.ok em)
      × (send_message w c m ≡ (sending c (data_packet em), none))
unfolding send_message send
send_message-sending w c m is_open s =
    let (em, enc, dec) = decode-encode w.routes m [] s in
    let framed = encode-wire data_type em refl in (em, enc, ground (arith, enc, framed))

-- A response to a request goes out as one data packet with the message of its id and the payload
-- under the session's secret.
pub respond-sending :
    (w : Env) (c : Conn) (mid : ℕ) (payload body : List ℕ)
    → c.send_open ≡ true
    → 0 < mid
    → Sealed w c.session.secret payload body
    → IsSendable w.routes (message_of response mid body)
    → (em : List ℕ) × (encode w.routes (message_of response mid body) ≡ Message.Result.ok em)
      × (respond w c mid payload ≡ (sending c (data_packet em), none))
unfolding respond
respond-sending w c mid payload body is_open pos sealed s =
    let (em, enc, sent) = send_message-sending w c (message_of response mid body) is_open s in
    (em, enc, ground (arith, serialize-Sealed w c payload body sealed, sent))

pub push_to-sending :
    (w : Env) (c : Conn) (payload body : List ℕ)
    → c.send_open ≡ true
    → Sealed w c.session.secret payload body
    → IsSendable w.routes (message_of push 0 body)
    → (em : List ℕ) × (encode w.routes (message_of push 0 body) ≡ Message.Result.ok em)
      × (push_to w c payload ≡ (sending c (data_packet em), none))
unfolding push_to
push_to-sending w c payload body is_open sealed s =
    let (em, enc, sent) = send_message-sending w c (message_of push 0 body) is_open s in
    (em, enc, ground (arith, serialize-Sealed w c payload body sealed, sent))
