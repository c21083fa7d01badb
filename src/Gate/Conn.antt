-- ===== src/Gate/Conn.antt =====
-- gate/conn.go: one client connection. Reads are a list of events; the two channels and the writes
-- to the socket are lists in the order of sending, so that blocking on a full channel is not
-- modelled. Handlers get the connection when its channels are made.
pub mod Send
pub mod Sample
pub mod Receive
pub mod Inbox
pub mod Delivery
pub mod Crash
pub mod Establish
mod Tests
use mathlib.Core.Bool.{not}
use gira.Prelude.{
  ℕ, ◌+◌, Bool, true, false, Option, none, some, List, [], ◌∷◌, ◌++◌, eqb, if◌then◌else◌,
}
use gira.Prelude.Keys.{text_eqb}
use gira.Gate.Packet.{
  Packet, Decoder, Outcome, packets, fails, panic, stuck, decode, bytes, refused, new_decoder,
  data_type, handshake, handshake_ack, heartbeat, kick, server_suspend, server_resume, server_down,
  server_maintain,
}
use gira.Gate.Packet
use gira.Gate.Message.{Routes, request, notify, response, push}
use gira.Gate.Message
use gira.Gate.Crypto.{Cipher, ok, des_encrypt, des_decrypt}
use gira.Gate.Crypto
use gira.Gate.Session.{Session, new_session, get_secret, set_secret}

pub data Status : Type 0 where
  start handshaking working closed : Status

pub data Error : Type 0 where
  broken_pipe session_on_notify handshake_ack_error invalid_packet invalid_message : Error
  invalid_handler read_fail write_fail json_fail rsa_fail : Error
  validator_fail : ℕ → Error
  packet_error : Packet.Error → Error
  message_error : Message.Error → Error
  crypto_error : Crypto.Error → Error

-- What the connection uses of the server's settings and of other packages: the dictionary, DES,
-- the JSON and RSA of the handshake, the server's validator, and the writes that succeed. `beyond`
-- is what the decoder's buffer holds behind a packet, and `now` the clock.
pub record Env : Type 0 where
  pub routes : Routes
  pub new_cipher : List ℕ → Option Cipher
  pub rsa_private_key : List ℕ
  pub token_of : List ℕ → Option (List ℕ)
  pub rsa_decrypt : List ℕ → List ℕ → Option (List ℕ)
  pub validator : List ℕ → Option ℕ
  pub reply_of : ℕ → Option (List ℕ)
  pub write_succeeds : List ℕ → Bool
  pub has_handler : Bool
  pub beyond : List ℕ
  pub now : ℕ

-- A message for the handler. (gate/message.go)
pub record Inbound : Type 0 where
  pub route : List ℕ
  pub payload : List ℕ
  pub req_id : ℕ

-- `ch_send` and `ch_message` hold what was sent to the channels; `served` is what the middlewares
-- were given; `written` went straight to the socket.
pub record Conn : Type 0 where
  pub session : Session
  pub status : Status
  pub last_at : ℕ
  pub decoder : Decoder
  pub send_open : Bool
  pub message_open : Bool
  pub ch_send : List (List ℕ)
  pub ch_message : List Inbound
  pub served : List Inbound
  pub written : List (List ℕ)
  pub cancelled : Bool
  pub socket_open : Bool

-- `count` and `modifier` are those of `new_session`.
unfoldable pub new_conn : ℕ → ℕ → ℕ → Conn
unfolding new_session new_decoder
new_conn count modifier now = record {
  session = new_session count modifier;
  status = start;
  last_at = now;
  decoder = new_decoder;
  send_open = true;
  message_open = true;
  ch_send = [];
  ch_message = [];
  served = [];
  written = [];
  cancelled = false;
  socket_open = true;
}

-- A send on a closed channel panics, and the panic is made an error.
unfoldable pub send : Conn → List ℕ → Conn × Option Error
send c input =
    if c.send_open
    then (record c { ch_send = c.ch_send ++ (input ∷ []) }, none)
    else (c, some broken_pipe)

-- `none` in the first place is the nil slice of the error case.
unfoldable pub serialize : Env → Conn → List ℕ → Option (List ℕ) × Option Error
unfolding get_secret
serialize w c input =
    if text_eqb (get_secret c.session) []
    then (some input, none)
    else elim (des_encrypt w.new_cipher input (get_secret c.session)) [
      | ok out ↦ (some out, none)
      | Crypto.Result.fails e ↦ (none, some (crypto_error e))
      | Crypto.Result.panic ↦ (none, none)
    ]

abbrev pub or_nil : Option (List ℕ) → List ℕ
or_nil none = []
or_nil (some xs) = xs

-- Encode a message, frame it as a data packet, and send it.
unfoldable pub send_message : Env → Conn → Message.Message → Conn × Option Error
unfolding send
send_message w c msg = elim (Message.encode w.routes msg) [
  | Message.Result.fails e ↦ (c, some (message_error e))
  | Message.Result.panic ↦ (c, none)
  | Message.Result.ok em ↦ elim (Packet.encode data_type em) [
    | refused e ↦ (c, some (packet_error e))
    | bytes p ↦ send c p
  ]
]

abbrev pub message_of : ℕ → ℕ → List ℕ → Message.Message
message_of typ id payload = record {
  typ = typ;
  id = id;
  route = [];
  body = payload;
  compressed = false;
}

-- `Push`: an error of `serialize` is only logged, and the nil payload is sent. The route is not used.
unfoldable pub push_to : Env → Conn → List ℕ → Conn × Option Error
unfolding serialize send_message
push_to w c input = send_message w c (message_of push 0 (or_nil (serialize w c input).0))

-- `Response`
unfoldable pub respond : Env → Conn → ℕ → List ℕ → Conn × Option Error
unfolding serialize send_message
respond w c mid input =
    if eqb mid 0
    then (c, some session_on_notify)
    else send_message w c (message_of response mid (or_nil (serialize w c input).0))

-- `Kick` and the four `SendServer…Packet` methods.
unfoldable pub send_control : ℕ → Conn → List ℕ → Conn × Option Error
unfolding send
send_control typ c reason = elim (Packet.encode typ reason) [
  | refused e ↦ (c, some (packet_error e))
  | bytes p ↦ send c p
]

abbrev pub kick_packet : Conn → List ℕ → Conn × Option Error
kick_packet = send_control kick

abbrev pub send_server_suspend_packet : Conn → List ℕ → Conn × Option Error
send_server_suspend_packet = send_control server_suspend

abbrev pub send_server_resume_packet : Conn → List ℕ → Conn × Option Error
send_server_resume_packet = send_control server_resume

abbrev pub send_server_down_packet : Conn → List ℕ → Conn × Option Error
send_server_down_packet = send_control server_down

abbrev pub send_server_maintain_packet : Conn → List ℕ → Conn × Option Error
send_server_maintain_packet = send_control server_maintain

abbrev pub is_closed : Status → Bool
is_closed closed = true
is_closed _ = false

unfoldable pub close : Conn → Conn
close c = if is_closed c.status then c else record c { status = closed; cancelled = true }

-- `Session.Kick`: the error of the packet is dropped.
unfoldable pub kick_session : Conn → List ℕ → Conn
unfolding send_control close
kick_session c reason = close (kick_packet c reason).0
