-- ===== src/Gate/Conn/Receive.antt =====
-- gate/conn.go: what the reading goroutine does with packets, and the two reads of the handshake.
use gira.Prelude.{ℕ, true, false, Option, none, some, List, [], ◌∷◌, ◌++◌, eqb, if◌then◌else◌}
use gira.Prelude.Keys.{text_eqb}
use gira.Gate.Packet.{
  Packet, packets, stuck, decode, data_type, handshake, handshake_ack, heartbeat, refused, bytes,
}
use gira.Gate.Packet
use gira.Gate.Message.{request, notify}
use gira.Gate.Message
use gira.Gate.Crypto.{des_decrypt}
use gira.Gate.Crypto
use gira.Gate.Session.{get_secret}
use gira.Gate.Conn.{
  Conn, Env, Error, Inbound, broken_pipe, invalid_packet, invalid_message, invalid_handler,
  read_fail, packet_error, message_error, crypto_error, is_closed,
}

-- How the handling of a packet ends: the loop goes on, stops without an error or with one, or the
-- program crashes in a panic that nothing recovers.
pub data Step : Type 0 where
  goes_on ended crash : Step
  stops : Error → Step

abbrev pub request_id : Message.Message → Option ℕ
request_id msg =
    if eqb msg.typ request then some msg.id else if eqb msg.typ notify then some 0 else none

-- The payload, decrypted if the session has a secret.
unfoldable pub unsealed : Env → Conn → List ℕ → Crypto.Result
unfolding get_secret
unsealed w c input =
    if text_eqb (get_secret c.session) []
    then Crypto.Result.ok input
    else des_decrypt w.new_cipher input (get_secret c.session)

-- The middlewares get the message, and then the channel.
abbrev pub deliver : Conn → Inbound → Conn
deliver c m = record c { served = c.served ++ (m ∷ []); ch_message = c.ch_message ++ (m ∷ []) }

-- A panic is recovered. A missing handler is an error, but the message is delivered.
unfoldable pub process_message : Env → Conn → Message.Message → Conn × Step
unfolding unsealed
process_message w c msg = elim (request_id msg) [
  | none ↦ (c, stops invalid_message)
  | some id ↦ elim (unsealed w c msg.body) [
    | Crypto.Result.fails e ↦ (c, stops (crypto_error e))
    | Crypto.Result.panic ↦ (c, stops broken_pipe)
    | Crypto.Result.ok payload ↦ (
      deliver c (record { route = msg.route; payload = payload; req_id = id }),
      if w.has_handler then goes_on else stops invalid_handler,
    )
  ]
]

-- Nothing recovers a panic of `message.Decode`.
unfoldable pub process_packet : Env → Conn → Packet → Conn × Step
unfolding process_message
process_packet w c p =
    let c' = record c { last_at = w.now } in
    if eqb p.typ data_type
    then elim (Message.decode w.routes p.body w.beyond) [
      | Message.Result.ok msg ↦ process_message w c' msg
      | Message.Result.fails e ↦ (c', stops (message_error e))
      | Message.Result.panic ↦ (c', crash)
    ]
    else (c', if eqb p.typ heartbeat then goes_on else stops invalid_packet)

-- `for i := range packets`
unfoldable pub process_packets : Env → Conn → List Packet → Conn × Step
unfolding process_packet
process_packets w c [] = (c, goes_on)
process_packets w c (p ∷ ps) = elim (process_packet w c p).1 [
  | goes_on ↦ process_packets w (process_packet w c p).0 ps
  | other ↦ process_packet w c p
]

-- What `conn.Read` gives.
pub data Read : Type 0 where
  arrived : List ℕ → Read
  failed : Read

-- The loop of the reading goroutine, while reads come. The decoder never is `stuck`.
unfoldable pub read_loop : Env → Conn → List Read → Conn × Step
unfolding process_packets
read_loop w c [] = (c, goes_on)
read_loop w c (failed ∷ reads) = (c, stops read_fail)
read_loop w c (arrived input ∷ reads) =
    let c' = record c { decoder = (decode c.decoder input).0 } in
    elim (is_closed c.status) [
      | true ↦ (c, ended)
      | false ↦ elim (decode c.decoder input).1 [
        | packets ps ↦ elim (process_packets w c' ps).1 [
          | goes_on ↦ read_loop w (process_packets w c' ps).0 reads
          | other ↦ process_packets w c' ps
        ]
        | Packet.Outcome.fails e ↦ (c', stops (packet_error e))
        | Packet.Outcome.panic ↦ (c', crash)
        | stuck ↦ (c', crash)
      ]
    ]

-- `Recv`, where the caller's context does not end. It waits on an open channel with nothing in it.
pub data Received : Type 0 where
  message : Inbound → Received
  no_more waits : Received

unfoldable pub recv : Conn → Conn × Received
recv c = elim c.ch_message [
  | m ∷ ms ↦ (record c { ch_message = ms }, message m)
  | [] ↦ (c, if c.message_open then waits else no_more)
]

-- When the reading goroutine returns, it closes its channel.
unfoldable pub close_messages : Conn → Conn
close_messages c = record c { message_open = false }
