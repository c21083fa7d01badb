-- ===== src/Smallgame/Relay/Tests.antt =====
-- A session with a hall that is away for a while, and a request that goes all the way.
use gira.Prelude.{ℕ, ◌≡◌, refl, none, [], ◌∷◌, ◌++◌, map, arith, eqb, if◌then◌else◌}
use gira.Prelude.Keys.{lookup, number_key, text_key}
use gira.Gate.Packet.{Packet, decode, new_decoder, packets}
use gira.Gate.Packet.Wire.{wire}
use gira.Gate.Message.{response, encode, encode_id}
use gira.Gate.Message.RoundTrip.{IsSendable}
use gira.Gate.Session.{new_session}
use gira.Gate.Conn.{Inbound, message_of, new_conn}
use gira.Gate.Conn.Inbox.{after}
use gira.Gate.Conn.Receive
use gira.Gate.Conn.Send.{sending}
use gira.Gate.Conn.Sample.{no_routes, plain, fresh}
use gira.Gate.Client.{new_client}
use gira.Gate.Client.Sample.{settings, client}
use gira.Gate.Client.Traffic.{process_packet, recv, reply, send_request}
use gira.Gate.Client.Requests.{request_message, requesting}
use gira.Smallgame.Relay.{
  ClientSession, Stream, missing, takes, fails, request_of, flush, send_or_wait, on_message,
  forward, process_client_message, process_stream_message,
}
use gira.Smallgame.Relay
use gira.Smallgame.Relay.Order.{forward-in_order, on_message-delivers}
use gira.Smallgame.Relay.Answers.{answer_of, FitsPacket, request-round_trip}

abbrev asks : ℕ → Inbound
asks n = record { route = []; payload = n ∷ []; req_id = n }

-- No stream at first, one that fails, and then one that takes what it gets.
abbrev recovering : ℕ → Stream
recovering n = if eqb n 0 then missing else if eqb n 1 then fails else takes

abbrev started : ClientSession
started = record { session_id = 9; member_id = 7 ∷ []; pending_messages = []; sends = 0; sent = [] }

abbrev waiting_one : ClientSession
waiting_one = record started { pending_messages = asks 1 ∷ []; sends = 1 }

waits : (forward recovering started (asks 1) (asks 2 ∷ [])).pending_messages ≡ asks 1 ∷ asks 2 ∷ []
unfolding forward on_message send_or_wait flush process_client_message
waits = refl

catches_up :
    map (λ r. r.req_id) (forward recovering started (asks 1) (asks 2 ∷ asks 3 ∷ [])).sent
    ≡ 1 ∷ 2 ∷ 3 ∷ []
unfolding forward on_message send_or_wait flush process_client_message
catches_up = refl

forward-in_order_example :
    (forward recovering started (asks 1) (asks 2 ∷ [])).sent
      ++ map
          (request_of started)
          (forward recovering started (asks 1) (asks 2 ∷ [])).pending_messages
    ≡ map (request_of started) (asks 1 ∷ asks 2 ∷ [])
unfolding Relay.new_session
forward-in_order_example = forward-in_order recovering 9 (7 ∷ []) (asks 1) (asks 2 ∷ [])

abbrev steady : ℕ → Stream
steady n = takes

on_message-delivers_example :
    ((on_message steady waiting_one (asks 2)).pending_messages ≡ [])
    × ((on_message steady waiting_one (asks 2)).sent
        ≡ []
          ++ map (request_of waiting_one) (asks 1 ∷ [])
          ++ (request_of waiting_one (asks 2) ∷ []))
on_message-delivers_example = on_message-delivers steady waiting_one (asks 2) (λ n l. refl)

asked-IsSendable : IsSendable no_routes (request_message (97 ∷ []) 7 (9 ∷ []))
unfolding lookup
asked-IsSendable = record {
  known = omega arith;
  id_fits = omega arith;
  route_fits = λ e. omega arith;
  code_fits = λ c e. cc;
  has_data = λ e. omega arith;
}

answered-IsSendable : IsSendable no_routes (message_of response 7 (8 ∷ []))
unfolding lookup
answered-IsSendable = record {
  known = omega arith;
  id_fits = omega arith;
  route_fits = λ e. omega arith;
  code_fits = λ c e. cc;
  has_data = λ e. omega arith;
}

asked-FitsPacket : FitsPacket no_routes (request_message (97 ∷ []) 7 (9 ∷ []))
unfolding encode encode_id lookup
asked-FitsPacket = record {
  encoded = 0 ∷ 7 ∷ 1 ∷ 97 ∷ 9 ∷ [];
  encodes = refl;
  fits = omega arith;
  all_bytes = (omega arith, (omega arith, (omega arith, (omega arith, (omega arith, tt)))));
}

answered-FitsPacket : FitsPacket no_routes (message_of response 7 (8 ∷ []))
unfolding encode encode_id lookup
answered-FitsPacket = record {
  encoded = 4 ∷ 7 ∷ 8 ∷ [];
  encodes = refl;
  fits = omega arith;
  all_bytes = (omega arith, (omega arith, (omega arith, tt)));
}

abbrev question : Inbound
question = record { route = 97 ∷ []; payload = 9 ∷ []; req_id = 7 }

request-round_trip_example :
    (p q : Packet) × (send_request settings client (97 ∷ []) 7 (9 ∷ [])
      ≡ (requesting client 7 (97 ∷ []) p, none))
    × ((decode new_decoder (wire p)).1 ≡ packets (p ∷ []))
    × (Receive.process_packet plain fresh p ≡ (after plain fresh (question ∷ []), Receive.goes_on))
    × ((on_message steady started question).sent ≡ [] ++ [] ++ (request_of started question ∷ []))
    × (process_stream_message plain (after plain fresh (question ∷ [])) (answer_of 7 (8 ∷ []))
        ≡ sending (after plain fresh (question ∷ [])) q)
    × ((decode new_decoder (wire q)).1 ≡ packets (q ∷ []))
    × ((recv (process_packet settings (requesting client 7 (97 ∷ []) p) q).0).1
        ≡ reply (record { typ = response; route = 97 ∷ []; req_id = 7; payload = 8 ∷ [] }))
unfolding new_client new_conn new_session
request-round_trip_example =
    request-round_trip plain fresh settings client (97 ∷ []) 7 (9 ∷ []) (8 ∷ []) steady started refl
      refl refl refl refl refl refl refl refl (omega arith) asked-IsSendable answered-IsSendable
      asked-FitsPacket answered-FitsPacket (λ n l. refl)
