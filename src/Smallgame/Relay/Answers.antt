-- ===== src/Smallgame/Relay/Answers.antt =====
-- A request of a client on its way to the hall, and the hall's answer on its way back.
-- (framework/smallgame/gateway/server/session.go)
use gira.Prelude.{
  ℕ, ◌<◌, ◌≤◌, ◌≡◌, refl, sym, ap, ◌∙◌, inl, true, none, List, [], ◌∷◌, ◌++◌, map, arith, eqb_iff,
  subst, length, All,
}
use gira.Prelude.Keys.{number_key, lookup-store}
use gira.Gate.Packet.{Packet, decode, new_decoder, packets, max_packet_size, int_to_bytes}
use gira.Gate.Packet.Wire.{IsByte, wire, header}
use gira.Gate.Packet.Delivery.{decode-wire}
use gira.Gate.Message.{Text, Routes, Message, response, encode}
use gira.Gate.Message
use gira.Gate.Message.RoundTrip.{IsSendable}
use gira.Gate.Conn.{Conn, Inbound, message_of, respond}
use gira.Gate.Conn
use gira.Gate.Conn.Inbox.{after}
use gira.Gate.Conn.Receive
use gira.Gate.Conn.Send.{sending, respond-sending}
use gira.Gate.Conn.Send
use gira.Gate.Client.{Client, Env, working_status}
use gira.Gate.Client.Traffic.{process_packet, recv, reply, send_request}
use gira.Gate.Client.Answers.{recv-answered}
use gira.Gate.Client.Requests.{
  request_message, requesting, send_request-requesting, process_packet-requested,
}
use gira.Smallgame.Relay.{
  ClientSession, Stream, takes, Response, data_packet, request_of, on_message,
  process_stream_message,
}
use gira.Smallgame.Relay.Order.{on_message-delivers}

abbrev pub answer_of : ℕ → List ℕ → Response
answer_of mid payload = record { typ = data_packet; req_id = mid; payload = payload }

process_stream_message-respond :
    (w : Conn.Env) (s : Conn) (mid : ℕ) (payload : List ℕ)
    → 0 < mid
    → process_stream_message w s (answer_of mid payload) ≡ (respond w s mid payload).0
unfolding process_stream_message
process_stream_message-respond w s mid payload pos = ground (arith, eqb_iff mid 0)

-- The encoded message is bytes, and fits in a packet.
pub record FitsPacket (d : Routes) (m : Message) : Type 0 where
  pub encoded : List ℕ
  pub encodes : encode d m ≡ Message.Result.ok encoded
  pub fits : length encoded ≤ max_packet_size
  pub all_bytes : All IsByte encoded

decode-data_packet :
    (em : List ℕ)
    → length em ≤ max_packet_size
    → All IsByte em
    → (decode new_decoder (wire (Send.data_packet em))).1 ≡ packets (Send.data_packet em ∷ [])
unfolding wire header int_to_bytes
decode-data_packet em fits bytes =
    decode-wire (Send.data_packet em) (record { known = refl; within = fits; filled = refl })
      (omega arith, (omega arith, (omega arith, (omega arith, bytes))))

-- A client, a server and a gateway session share a dictionary, there is no secret, every connection
-- is open and idle, the hall's stream takes every message, and the request and its answer can be
-- encoded, each as at most 64 KiB of bytes. Then the client's request goes out as one packet; a new
-- decoder gives out exactly this packet, and it hands the server's handler one message; the session
-- sends the hall this message behind all that were pending; the hall's answer to its id goes out as
-- one packet; a new decoder gives out exactly this packet, and by it the client receives the answer
-- with the route of the request.
pub request-round_trip :
    (w : Conn.Env) (s : Conn) (v : Env) (c : Client) (route : Text) (mid : ℕ)
    (payload answer : List ℕ) (stream : ℕ → Stream) (r : ClientSession)
    → v.routes ≡ w.routes
    → v.new_cipher ≡ w.new_cipher
    → w.has_handler ≡ true
    → s.session.secret ≡ []
    → c.secret_key ≡ []
    → s.send_open ≡ true
    → c.status ≡ working_status
    → c.write_open ≡ true
    → c.ch_message ≡ []
    → 0 < mid
    → IsSendable w.routes (request_message route mid payload)
    → IsSendable w.routes (message_of response mid answer)
    → FitsPacket w.routes (request_message route mid payload)
    → FitsPacket w.routes (message_of response mid answer)
    → ((n : ℕ) → r.sends ≤ n → stream n ≡ takes)
    → let m : Inbound = record { route = route; payload = payload; req_id = mid } in
      let s' = after w s (m ∷ []) in
      (p q : Packet) × (send_request v c route mid payload ≡ (requesting c mid route p, none))
      × ((decode new_decoder (wire p)).1 ≡ packets (p ∷ []))
      × (Receive.process_packet w s p ≡ (s', Receive.goes_on))
      × ((on_message stream r m).sent
          ≡ r.sent ++ map (request_of r) r.pending_messages ++ (request_of r m ∷ []))
      × (process_stream_message w s' (answer_of mid answer) ≡ sending s' q)
      × ((decode new_decoder (wire q)).1 ≡ packets (q ∷ []))
      × ((recv (process_packet v (requesting c mid route p) q).0).1
          ≡ reply (record { typ = response; route = route; req_id = mid; payload = answer }))
request-round_trip w s v c route mid payload answer stream r routes ciphers handler plain bare
      is_open working writable idle pos ok_request ok_answer small_request small_answer well =
    let m : Inbound = record { route = route; payload = payload; req_id = mid } in
    let s' = after w s (m ∷ []) in
    let (em, enc, asked) =
      send_request-requesting v c route mid payload working writable
        (subst (λ d. IsSendable d (request_message route mid payload)) (sym routes) ok_request) in
    let enc' = ap (λ d. encode d (request_message route mid payload)) (sym routes) ∙ enc in
    let p = Send.data_packet em in
    let kept = lookup-store mid mid route c.response_router ∙ ground arith in
    let (am, aenc, given) =
      respond-sending w s' mid answer answer is_open pos (inl (plain, refl)) ok_answer in
    (
      p,
      Send.data_packet am,
      asked,
      framed small_request enc',
      process_packet-requested w s route mid payload em handler plain ok_request enc',
      (on_message-delivers stream r m well).1,
      process_stream_message-respond w s' mid answer pos ∙ ap (λ x. x.0) given,
      framed small_answer aenc,
      recv-answered w v (requesting c mid route p) mid route answer answer am routes ciphers working
          idle kept (inl (bare, refl)) ok_answer aenc,
    )
  where
    framed :
        {d : Routes} {m : Message} {em : List ℕ}
        → FitsPacket d m
        → encode d m ≡ Message.Result.ok em
        → (decode new_decoder (wire (Send.data_packet em))).1 ≡ packets (Send.data_packet em ∷ [])
    framed {em = em} small enc =
        let same : small.encoded ≡ em = cc in
        decode-data_packet em (subst (λ xs. length xs ≤ max_packet_size) same small.fits)
          (subst (All IsByte) same small.all_bytes)
