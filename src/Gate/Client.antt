-- ===== src/Gate/Client.antt =====
-- gate/client/client.go: the client's end of a connection, behind the dialling. Reads are a list of
-- events, channels are lists in the order of sending, as in the model of the server's connection.
-- JSON, RSA, random tokens and the clock are parameters.
pub mod Traffic
pub mod Answers
pub mod Requests
pub mod Sample
mod Tests
use gira.Prelude.{
  ℕ, ◌+◌, Bool, true, false, Option, none, some, List, [], ◌∷◌, ◌++◌, ltb, eqb, if◌then◌else◌,
}
use gira.Prelude.Keys.{text_eqb, lookup, store, remove, number_key}
use gira.Gate.Packet.{
  Packet, Decoder, packets, stuck, new_decoder, bytes, refused, handshake, handshake_ack, data_type,
  heartbeat,
}
use gira.Gate.Packet
use gira.Gate.Message.{Text, Routes, request, notify, response, push}
use gira.Gate.Message
use gira.Gate.Crypto.{Cipher, des_decrypt}
use gira.Gate.Crypto
use gira.Gate.Conn.Receive.{Read, arrived, failed}

-- In the order of the constants, from 1.
abbrev pub start_status : ℕ
start_status = 1

abbrev pub handshake_status : ℕ
handshake_status = 2

abbrev pub working_status : ℕ
working_status = 3

abbrev pub closed_status : ℕ
closed_status = 4

pub data Error : Type 0 where
  close_closed_session broken_pipe not_working handshake_error handshake_ack_error invalid_packet :
      Error
  read_fail write_fail json_fail rsa_fail random_fail : Error
  packet_error : Packet.Error → Error
  message_error : Message.Error → Error

-- The fields of `handshake_response`.
pub record Response : Type 0 where
  pub code : ℕ
  pub session : ℕ
  pub heartbeat : ℕ

-- `token` is the first eight characters of the random token, `handshake_payload` and `ack_payload`
-- the JSON of the two packets.
pub record Env : Type 0 where
  pub routes : Routes
  pub new_cipher : List ℕ → Option Cipher
  pub rsa_public_key : List ℕ
  pub token : Option Text
  pub rsa_encrypt : Text → List ℕ → Option Text
  pub handshake_payload : Text → Option (List ℕ)
  pub response_of : List ℕ → Option Response
  pub ack_payload : Option (List ℕ)
  pub write_succeeds : List ℕ → Bool
  pub beyond : List ℕ
  pub now : ℕ

pub record Client : Type 0 where
  pub status : ℕ
  pub secret_key : Text
  pub session_id : ℕ
  pub heartbeat : ℕ
  pub response_router : List (ℕ × Text)
  pub last_at : ℕ
  pub decoder : Decoder
  pub heartbeat_packet : List ℕ
  pub ch_write : List (List ℕ)
  pub write_open : Bool
  pub ch_message : List Message.Message
  pub message_open : Bool
  pub written : List (List ℕ)
  pub cancelled : Bool
  pub socket_open : Bool

-- `newClientConn`, with the heartbeat packet that `dial` makes. The channels are made by `dial`.
unfoldable pub new_client : ℕ → List ℕ → Client
unfolding new_decoder
new_client now beat = record {
  status = start_status;
  secret_key = [];
  session_id = 0;
  heartbeat = 30;
  response_router = [];
  last_at = now;
  decoder = new_decoder;
  heartbeat_packet = beat;
  ch_write = [];
  write_open = true;
  ch_message = [];
  message_open = true;
  written = [];
  cancelled = false;
  socket_open = true;
}

-- A write to the socket.
abbrev pub write : Env → Client → List ℕ → Client × Option Error
write w c out =
    if w.write_succeeds out
    then (record c { written = c.written ++ (out ∷ []) }, none)
    else (c, some write_fail)

-- Frame a payload and write it.
abbrev pub write_packet : Env → Client → ℕ → List ℕ → Client × Option Error
write_packet w c typ payload = elim (Packet.encode typ payload) [
  | refused e ↦ (c, some (packet_error e))
  | bytes out ↦ write w c out
]

-- `sendHandshake`. The token in clear is the secret of the session; what is sent is encrypted.
unfoldable pub send_handshake : Env → Client → Client × Option Error
send_handshake w c = elim w.token [
  | none ↦ (c, some random_fail)
  | some key ↦
      if text_eqb w.rsa_public_key []
      then elim (w.handshake_payload []) [
        | none ↦ (c, some json_fail)
        | some payload ↦ write_packet w c handshake payload
      ]
      else let c' = record c { secret_key = key } in
        elim (w.rsa_encrypt key w.rsa_public_key) [
          | none ↦ (c', some rsa_fail)
          | some token ↦ elim (w.handshake_payload token) [
            | none ↦ (c', some json_fail)
            | some payload ↦ write_packet w c' handshake payload
          ]
        ]
]

-- What `recvHandshakeAck` does with the one packet of the reply. The session id and the heartbeat
-- are set before the acknowledgement is written.
unfoldable pub acknowledge : Env → Client → Packet → Client × Option Error
acknowledge w c p =
    if eqb p.typ handshake
    then elim (w.response_of p.body) [
      | none ↦ (c, some json_fail)
      | some r ↦
          if eqb r.code 200
          then elim w.ack_payload [
            | none ↦ (c, some json_fail)
            | some payload ↦ elim (Packet.encode handshake_ack payload) [
              | refused e ↦ (c, some (packet_error e))
              | bytes out ↦
                  write w (record c { session_id = r.session; heartbeat = r.heartbeat }) out
            ]
          ]
          else (c, some handshake_error)
    ]
    else (c, some invalid_packet)

-- How a part of the client's reading ends: done, with the reads to come; waiting for a read; with an
-- error; or in a panic.
pub data Shake : Type 0 where
  done : List Read → Shake
  waiting crash : Shake
  refuses : Error → Shake

abbrev pub shake_of : List Read → Client × Option Error → Client × Shake
shake_of reads (c, none) = (c, done reads)
shake_of reads (c, some e) = (c, refuses e)

unfoldable pub recv_handshake_ack : Env → Client → List Read → Client × Shake
recv_handshake_ack w c [] = (c, waiting)
recv_handshake_ack w c (failed ∷ reads) = (c, refuses read_fail)
recv_handshake_ack w c (arrived input ∷ reads) =
    let c' = record c { decoder = (Packet.decode c.decoder input).0 } in
    elim (Packet.decode c.decoder input).1 [
      | packets ps ↦ elim ps [
        | [] ↦ recv_handshake_ack w c' reads
        | p ∷ more ↦ elim more [
          | [] ↦ shake_of reads (acknowledge w c' p)
          | q ∷ others ↦ (c', refuses invalid_packet)
        ]
      ]
      | Packet.Outcome.fails e ↦ (c', refuses (packet_error e))
      | Packet.Outcome.panic ↦ (c', crash)
      | stuck ↦ (c', crash)
    ]

-- `dial` on the socket `c`: `none` is a nil error. While a read is waited for there is no result.
pub data Dialled : Type 0 where
  connected : List Read → Dialled
  gives_up : Error → Dialled
  waits crashed : Dialled

abbrev pub hang_up : Client → Client
hang_up c = record c { socket_open = false }

unfoldable pub dial : Env → Client → List Read → Client × Dialled
dial w c reads =
    let sent = send_handshake w (record c { status = handshake_status }) in
    elim sent.1 [
      | some e ↦ (hang_up sent.0, gives_up handshake_error)
      | none ↦
          let shook = recv_handshake_ack w sent.0 reads in
          elim shook.1 [
            | refuses e ↦ (hang_up shook.0, gives_up handshake_ack_error)
            | waiting ↦ (shook.0, waits)
            | crash ↦ (shook.0, crashed)
            | done more ↦ (record shook.0 { status = working_status }, connected more)
          ]
    ]
