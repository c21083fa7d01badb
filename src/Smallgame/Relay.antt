-- ===== src/Smallgame/Relay.antt =====
-- framework/smallgame/gateway/server/session.go: a client's session at the gateway, which hands the
-- client's messages to a hall and the hall's to the client. What the hall's stream does to a send is
-- a function of how many sends there have been, and the reads and selections come as lists.
pub mod Order
pub mod Answers
mod Tests
use gira.Prelude.{
  ℕ, ◌+◌, Bool, true, false, Option, none, some, List, [], ◌∷◌, ◌++◌, eqb, if◌then◌else◌,
}
use gira.Gate.Conn.{
  Conn, Inbound, respond, push_to, kick_session, send_server_suspend_packet,
  send_server_resume_packet,
}
use gira.Gate.Conn

-- `hallpb.ClientMessageRequest`
pub record Request : Type 0 where
  pub member_id : List ℕ
  pub session_id : ℕ
  pub req_id : ℕ
  pub payload : List ℕ

-- `sends` is how often a send was tried; `sent` is what the hall's streams took.
pub record ClientSession : Type 0 where
  pub session_id : ℕ
  pub member_id : List ℕ
  pub pending_messages : List Inbound
  pub sends : ℕ
  pub sent : List Request

unfoldable pub new_session : ℕ → List ℕ → ClientSession
new_session session_id member_id = record {
  session_id = session_id;
  member_id = member_id;
  pending_messages = [];
  sends = 0;
  sent = [];
}

-- The stream at one send: there is none, it takes the message, or `Send` fails.
pub data Stream : Type 0 where
  missing takes fails : Stream

abbrev pub request_of : ClientSession → Inbound → Request
request_of s m = record {
  member_id = s.member_id;
  session_id = s.session_id;
  req_id = m.req_id;
  payload = m.payload;
}

-- `processClientMessage`; `true` is a nil error.
abbrev pub tried : Stream → ClientSession → Inbound → ClientSession × Bool
tried takes s m = (record s { sends = s.sends + 1; sent = s.sent ++ (request_of s m ∷ []) }, true)
tried fails s m = (record s { sends = s.sends + 1 }, false)
tried missing s m = (record s { sends = s.sends + 1 }, false)

unfoldable pub process_client_message :
    (ℕ → Stream) → ClientSession → Inbound → ClientSession × Bool
process_client_message stream s m = tried (stream s.sends) s m

-- What follows a send: what comes if it succeeds, and what waits if not.
abbrev pub settled :
    (ClientSession → ClientSession) → List Inbound → ClientSession × Bool → ClientSession
settled goes_on waiting (s, true) = goes_on s
settled goes_on waiting (s, false) = record s { pending_messages = waiting }

-- `for len(session.pendingMessages) > 0`, over the pending messages.
unfoldable pub flush : (ℕ → Stream) → ClientSession → List Inbound → ClientSession
unfolding process_client_message
flush stream s [] = record s { pending_messages = [] }
flush stream s (p ∷ ps) =
    settled (λ t. flush stream t ps) (p ∷ ps) (process_client_message stream s p)

-- A message that could not be sent waits.
unfoldable pub send_or_wait : (ℕ → Stream) → ClientSession → Inbound → ClientSession
unfolding process_client_message
send_or_wait stream s m =
    settled (λ t. t) (s.pending_messages ++ (m ∷ [])) (process_client_message stream s m)

abbrev pub behind : List Inbound → (ℕ → Stream) → ClientSession → Inbound → ClientSession
behind [] stream s m = send_or_wait stream s m
behind (p ∷ ps) stream s m = record s { pending_messages = s.pending_messages ++ (m ∷ []) }

-- One round of the goroutine from the client to the hall.
unfoldable pub on_message : (ℕ → Stream) → ClientSession → Inbound → ClientSession
unfolding flush send_or_wait
on_message stream s m =
    let s' = flush stream s s.pending_messages in behind s'.pending_messages stream s' m

abbrev pub rounds : (ℕ → Stream) → ClientSession → List Inbound → ClientSession
rounds stream s [] = s
rounds stream s (m ∷ ms) = rounds stream (on_message stream s m) ms

-- The goroutine, with the first message and those received then.
unfoldable pub forward : (ℕ → Stream) → ClientSession → Inbound → List Inbound → ClientSession
unfolding on_message
forward stream s first ms = rounds stream (send_or_wait stream s first) ms

-- `hallpb.ClientMessageResponse`
pub data PacketType : Type 0 where
  data_packet user_instead kick_packet other_packet : PacketType

pub record Response : Type 0 where
  pub typ : PacketType
  pub req_id : ℕ
  pub payload : List ℕ

-- `processStreamMessage`: errors are dropped.
unfoldable pub process_stream_message : Conn.Env → Conn → Response → Conn
process_stream_message w c m = elim m.typ [
  | data_packet ↦
      if eqb m.req_id 0 then (push_to w c m.payload).0 else (respond w c m.req_id m.payload).0
  | user_instead ↦ kick_session c m.payload
  | kick_packet ↦ kick_session c m.payload
  | other_packet ↦ c
]

-- One attempt to find another hall: the session is over, no hall is well, or no stream can be
-- opened, and the next attempt comes a second later; or a hall has a stream.
pub data Attempt : Type 0 where
  over unavailable unreachable opened : Attempt

-- Whether the loop of attempts ends with a stream; `none` while it goes on.
abbrev pub reselect : List Attempt → Option Bool
reselect [] = none
reselect (over ∷ rest) = some false
reselect (unavailable ∷ rest) = reselect rest
reselect (unreachable ∷ rest) = reselect rest
reselect (opened ∷ rest) = some true

-- What `stream.Recv` gives: a message, an error when the session is over, or another one, with the
-- attempts that follow it.
pub data Received : Type 0 where
  message : Response → Received
  finished : Received
  closed : List Attempt → Received

-- The goroutine from the hall to the client; it ends when the session is over.
unfoldable pub backward : Conn.Env → Conn → List Received → Conn
unfolding process_stream_message
backward w c [] = c
backward w c (message m ∷ rs) = backward w (process_stream_message w c m) rs
backward w c (finished ∷ rs) = c
backward w c (closed attempts ∷ rs) =
    let c' = (send_server_suspend_packet c []).0 in
    elim (reselect attempts) [
      | none ↦ c'
      | some false ↦ c'
      | some true ↦ backward w (send_server_resume_packet c' []).0 rs
    ]
