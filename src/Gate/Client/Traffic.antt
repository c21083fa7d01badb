-- ===== src/Gate/Client/Traffic.antt =====
-- gate/client/client.go: requests, notifies, and what the reading goroutine does with packets.
use gira.Prelude.{
  ℕ, Bool, true, false, Option, none, some, List, [], ◌∷◌, ◌++◌, ltb, eqb, if◌then◌else◌,
}
use gira.Prelude.Keys.{text_eqb, lookup, store, remove, number_key}
use gira.Gate.Packet.{Packet, packets, stuck, bytes, refused, data_type, heartbeat}
use gira.Gate.Packet
use gira.Gate.Message.{Text, request, notify, response, push}
use gira.Gate.Message
use gira.Gate.Crypto.{des_decrypt}
use gira.Gate.Crypto
use gira.Gate.Conn.Receive.{Read, arrived, failed}
use gira.Gate.Client.{
  Client, Env, Error, broken_pipe, close_closed_session, not_working, read_fail, packet_error,
  message_error, working_status, closed_status,
}

-- How the handling of a packet ends: the loop goes on, stops with an error, or the program crashes.
pub data Step : Type 0 where
  goes_on crash : Step
  stops : Error → Step

-- A send on a closed channel panics, and the panic is made an error.
abbrev pub put : Client → List ℕ → Client × Option Error
put c out =
    if c.write_open
    then (record c { ch_write = c.ch_write ++ (out ∷ []) }, none)
    else (c, some broken_pipe)

-- Encode and frame a message, and send it to the writing goroutine.
abbrev pub put_message : Env → Client → Message.Message → Client × Option Error
put_message w c m = elim (Message.encode w.routes m) [
  | Message.Result.fails e ↦ (c, some (message_error e))
  | Message.Result.panic ↦ (c, some broken_pipe)
  | Message.Result.ok em ↦ elim (Packet.encode data_type em) [
    | refused e ↦ (c, some (packet_error e))
    | bytes out ↦ put c out
  ]
]

-- The route of a request is stored before anything is sent.
unfoldable pub send : Env → Client → ℕ → ℕ → Text → List ℕ → Client × Option Error
send w c typ req_id route payload =
    if eqb c.status closed_status
    then (c, some broken_pipe)
    else put_message w
        (if eqb typ request
          then record c { response_router = store req_id route c.response_router }
          else c)
        (record { typ = typ; id = req_id; route = route; body = payload; compressed = false })

unfoldable pub send_notify : Env → Client → Text → List ℕ → Client × Option Error
unfolding send
send_notify w c route payload = send w c notify 0 route payload

unfoldable pub send_request : Env → Client → Text → ℕ → List ℕ → Client × Option Error
unfolding send
send_request w c route req_id payload = send w c request req_id route payload

unfoldable pub close : Client → Client × Option Error
close c =
    if eqb c.status closed_status
    then (c, some close_closed_session)
    else (record c { status = closed_status; cancelled = true }, none)

abbrev pub is_inbound : ℕ → Bool
is_inbound typ = if eqb typ response then true else eqb typ push

-- What is not a response or a push is dropped, and so is what cannot be decrypted. Nothing recovers
-- a panic of the decryption.
unfoldable pub process_message : Env → Client → Message.Message → Client × Step
process_message w c msg =
    if is_inbound msg.typ
    then (if text_eqb c.secret_key []
        then (record c { ch_message = c.ch_message ++ (msg ∷ []) }, goes_on)
        else elim (des_decrypt w.new_cipher msg.body c.secret_key) [
          | Crypto.Result.fails e ↦ (c, goes_on)
          | Crypto.Result.panic ↦ (c, crash)
          | Crypto.Result.ok payload ↦ (
            record c { ch_message = c.ch_message ++ (record msg { body = payload } ∷ []) },
            goes_on,
          )
        ])
    else (c, goes_on)

-- `conn.lastAt = time.Now().Unix()`, where the packet was handled without an error.
abbrev pub stamp : Env → Client × Step → Client × Step
stamp w (c, goes_on) = (record c { last_at = w.now }, goes_on)
stamp w (c, crash) = (c, crash)
stamp w (c, stops e) = (c, stops e)

-- A heartbeat is answered, and on a closed channel this send panics. Other packets are only logged.
unfoldable pub process_packet : Env → Client → Packet → Client × Step
unfolding process_message
process_packet w c p =
    if eqb p.typ data_type
    then (if ltb c.status working_status
        then (c, stops not_working)
        else elim (Message.decode w.routes p.body w.beyond) [
          | Message.Result.ok msg ↦ stamp w (process_message w c msg)
          | Message.Result.fails e ↦ (c, stops (message_error e))
          | Message.Result.panic ↦ (c, crash)
        ])
    else (if eqb p.typ heartbeat
        then (if c.write_open
            then (
              record c { ch_write = c.ch_write ++ (c.heartbeat_packet ∷ []); last_at = w.now },
              goes_on,
            )
            else (c, crash))
        else (record c { last_at = w.now }, goes_on))

-- `for _, p := range packets`
unfoldable pub process_packets : Env → Client → List Packet → Client × Step
unfolding process_packet
process_packets w c [] = (c, goes_on)
process_packets w c (p ∷ ps) = elim (process_packet w c p).1 [
  | goes_on ↦ process_packets w (process_packet w c p).0 ps
  | other ↦ process_packet w c p
]

-- The reading goroutine, while reads come.
unfoldable pub read_loop : Env → Client → List Read → Client × Step
unfolding process_packets
read_loop w c [] = (c, goes_on)
read_loop w c (failed ∷ reads) = (c, stops read_fail)
read_loop w c (arrived input ∷ reads) =
    let c' = record c { decoder = (Packet.decode c.decoder input).0 } in
    elim (Packet.decode c.decoder input).1 [
      | packets ps ↦ elim (process_packets w c' ps).1 [
        | goes_on ↦ read_loop w (process_packets w c' ps).0 reads
        | other ↦ process_packets w c' ps
      ]
      | Packet.Outcome.fails e ↦ (c', stops (packet_error e))
      | Packet.Outcome.panic ↦ (c', crash)
      | stuck ↦ (c', crash)
    ]

-- What `Recv` returns: type, route, request id and data.
pub record Reply : Type 0 where
  pub typ : ℕ
  pub route : Text
  pub req_id : ℕ
  pub payload : List ℕ

-- `Recv`, where the caller's context does not end: it waits on an open channel with nothing in it.
pub data Received : Type 0 where
  reply : Reply → Received
  no_more waits : Received

abbrev pub or_empty : Option Text → Text
or_empty none = []
or_empty (some route) = route

-- A response takes the route that its request left in the router, and takes it away.
abbrev pub reply_to : Client → Message.Message → Client × Received
reply_to c m =
    if eqb m.typ response
    then (
      record c { response_router = remove m.id c.response_router },
      reply (record {
        typ = m.typ;
        route = or_empty (lookup m.id c.response_router);
        req_id = m.id;
        payload = m.body;
      }),
    )
    else (c, reply (record { typ = m.typ; route = []; req_id = 0; payload = m.body }))

unfoldable pub recv : Client → Client × Received
recv c = elim c.ch_message [
  | m ∷ ms ↦ reply_to (record c { ch_message = ms }) m
  | [] ↦ (c, if c.message_open then waits else no_more)
]
