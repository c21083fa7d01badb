-- ===== src/Gate/Client/Tests.antt =====
-- Concrete runs of the client, and its theorems at them.
use gira.Prelude.{ℕ, ◌≡◌, refl, inr, none, some, List, [], ◌∷◌, arith}
use gira.Prelude.Keys.{lookup, text_key, number_key}
use gira.Gate.Packet.{Packet}
use gira.Gate.Packet
use gira.Gate.Message.{response}
use gira.Gate.Message.RoundTrip.{IsSendable}
use gira.Gate.Crypto.{des_encrypt}
use gira.Gate.Crypto
use gira.Gate.Crypto.Sample.{moved, moved-IsCipher, key8}
use gira.Gate.Session.{new_session}
use gira.Gate.Conn.{Conn, message_of, respond, crypto_error, new_conn}
use gira.Gate.Conn.Receive
use gira.Gate.Conn.Inbox.{after, Sealed}
use gira.Gate.Conn.Send.{sending}
use gira.Gate.Conn.Sample.{no_routes, plain, fresh}
use gira.Gate.Client.{
  Client, new_client, dial, connected, send_handshake, recv_handshake_ack, acknowledge,
}
use gira.Gate.Client.Sample.{settings, client}
use gira.Gate.Client.Traffic.{goes_on, process_packet, recv, reply, send_request}
use gira.Gate.Client.Answers.{respond-recv}
use gira.Gate.Client.Requests.{
  requesting, request_message, send_request-delivered, send_request-refused,
}

-- A client that has the secret of the sample, and has asked "a" as request 7.
abbrev asking : Client
asking = record client { secret_key = key8; response_router = (7, 97 ∷ []) ∷ [] }

abbrev under_secret : Conn
under_secret = record fresh { session = record (new_session 1 0) { secret = key8 } }

-- The byte 9 under the secret.
abbrev nine : List ℕ
nine = 10 ∷ 8 ∷ 8 ∷ 8 ∷ 8 ∷ 8 ∷ 8 ∷ 8 ∷ []

nine-Sealed : Sealed plain key8 (9 ∷ []) nine
unfolding des_encrypt Crypto.pkcs5_padding Crypto.crypt_loop
nine-Sealed = inr (refl, moved, refl, moved-IsCipher, refl)

answer-IsSendable : IsSendable no_routes (message_of response 7 nine)
unfolding lookup
answer-IsSendable = record {
  known = omega arith;
  id_fits = omega arith;
  route_fits = λ e. omega arith;
  code_fits = λ c e. cc;
  has_data = λ e. omega arith;
}

respond-recv_example :
    (p : Packet) × (respond plain under_secret 7 (9 ∷ []) ≡ (sending under_secret p, none))
    × ((process_packet settings asking p).1 ≡ goes_on)
    × ((recv (process_packet settings asking p).0).1
        ≡ reply (record { typ = response; route = 97 ∷ []; req_id = 7; payload = 9 ∷ [] }))
    × (lookup 7 (recv (process_packet settings asking p).0).0.response_router ≡ none)
unfolding lookup new_client new_conn
respond-recv_example =
    respond-recv plain under_secret settings asking 7 (97 ∷ []) (9 ∷ []) nine refl refl refl refl
      refl refl refl (omega arith) nine-Sealed answer-IsSendable

question-IsSendable : IsSendable no_routes (request_message (97 ∷ []) 7 (9 ∷ []))
unfolding lookup
question-IsSendable = record {
  known = omega arith;
  id_fits = omega arith;
  route_fits = λ e. omega arith;
  code_fits = λ c e. cc;
  has_data = λ e. omega arith;
}

send_request-delivered_example :
    (p : Packet) × (send_request settings client (97 ∷ []) 7 (9 ∷ [])
      ≡ (requesting client 7 (97 ∷ []) p, none))
    × (lookup 7 (requesting client 7 (97 ∷ []) p).response_router ≡ some (97 ∷ []))
    × (Receive.process_packet plain fresh p ≡ (
      after plain fresh (record { route = 97 ∷ []; payload = 9 ∷ []; req_id = 7 } ∷ []),
      Receive.goes_on,
    ))
unfolding new_client new_conn new_session
send_request-delivered_example =
    send_request-delivered plain fresh settings client (97 ∷ []) 7 (9 ∷ []) refl refl refl refl refl
      question-IsSendable

send_request-refused_example :
    (p : Packet) × (send_request settings client (97 ∷ []) 7 (9 ∷ [])
      ≡ (requesting client 7 (97 ∷ []) p, none))
    × (Receive.process_packet plain under_secret p ≡ (
      record under_secret { last_at = 5 },
      Receive.stops (crypto_error Crypto.not_full_blocks),
    ))
unfolding new_client
send_request-refused_example =
    send_request-refused plain under_secret settings client (97 ∷ []) 7 (9 ∷ []) moved refl refl
      refl (λ e. absurd (omega arith)) refl refl question-IsSendable

-- The handshake, the reply of the server, and an open connection.
dials :
    (dial settings (new_client 4 []) (Receive.arrived (1 ∷ 0 ∷ 0 ∷ 2 ∷ 123 ∷ 125 ∷ []) ∷ [])).1
    ≡ connected []
unfolding dial send_handshake recv_handshake_ack acknowledge new_client Packet.encode
    Packet.int_to_bytes Packet.decode Packet.decode_loop Packet.forward Packet.new_decoder
dials = refl
