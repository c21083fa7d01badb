-- ===== src/Gate/Client/Answers.antt =====
-- Requests and answers between the client and the server. (gate/client/client.go, gate/conn.go)
use gira.Prelude.{
  ℕ, ◌<◌, ◌≡◌, refl, sym, ap, ◌∙◌, inl, inr, true, false, none, some, List, [], ◌∷◌, ◌++◌, arith,
  subst,
}
use gira.Prelude.Keys.{lookup, lookup-remove, number_key}
use gira.Gate.Packet.{Packet}
use gira.Gate.Message.{Text, Routes, request, response, push, encode}
use gira.Gate.Message
use gira.Gate.Message.RoundTrip.{IsSendable, received}
use gira.Gate.Crypto.{des_decrypt}
use gira.Gate.Crypto
use gira.Gate.Crypto.Padding.{des_decrypt-encrypt}
use gira.Gate.Conn.{Conn, message_of, respond}
use gira.Gate.Conn
use gira.Gate.Conn.Inbox.{Sealed, decode-body}
use gira.Gate.Conn.Send.{data_packet, sending, respond-sending}
use gira.Gate.Client.{Client, Env, working_status}
use gira.Gate.Client.Traffic.{Step, goes_on, process_message, process_packet, recv, reply}

-- A response that arrives at an open client under its secret is decrypted for `Recv`.
process_message-Sealed :
    (v : Env) (c : Client) (w : Conn.Env) (m : Message.Message) (payload : List ℕ)
    → v.new_cipher ≡ w.new_cipher
    → m.typ ≡ response
    → Sealed w c.secret_key payload m.body
    → process_message v c m
      ≡ (record c { ch_message = c.ch_message ++ (record m { body = payload } ∷ []) }, goes_on)
unfolding process_message
process_message-Sealed v c w m payload ciphers t (inl (plain, same)) = rw same (ground arith)
process_message-Sealed v c w m payload ciphers t (inr (has, ci, e, good, enc)) =
    let (out, enc', dec) = des_decrypt-encrypt w.new_cipher ci c.secret_key payload e good in
    let same : out ≡ m.body = cc in
    let opened : des_decrypt v.new_cipher m.body c.secret_key ≡ Crypto.Result.ok payload =
      ap (λ f. des_decrypt f m.body c.secret_key) ciphers
      ∙ ap (λ b. des_decrypt w.new_cipher b c.secret_key) (sym same)
      ∙ dec in
    ground (arith, opened)

-- The client behind a response that it has taken.
abbrev taken : Env → Client → ℕ → List ℕ → Client
taken v c mid payload = record c {
  ch_message =
      c.ch_message
      ++ (record { typ = response; id = mid; route = []; body = payload; compressed = false } ∷ []);
  last_at = v.now;
}

process_packet-response :
    (v : Env) (c : Client) (w : Conn.Env) (mid : ℕ) (payload body em : List ℕ)
    → v.routes ≡ w.routes
    → v.new_cipher ≡ w.new_cipher
    → c.status ≡ working_status
    → Sealed w c.secret_key payload body
    → IsSendable w.routes (message_of response mid body)
    → encode w.routes (message_of response mid body) ≡ Message.Result.ok em
    → process_packet v c (data_packet em) ≡ (taken v c mid payload, goes_on)
unfolding process_packet received
process_packet-response v c w mid payload body em routes ciphers open_still sealed s enc =
    let m = message_of response mid body in
    let dec : Message.decode v.routes em v.beyond ≡ Message.Result.ok (received w.routes m) =
      ap (λ d. Message.decode d em v.beyond) routes ∙ decode-body w.routes m em v.beyond s enc in
    ground
      (arith, dec, process_message-Sealed v c w (received w.routes m) payload ciphers refl sealed)

recv-taken :
    (v : Env) (c : Client) (mid : ℕ) (route : Text) (payload : List ℕ)
    → c.ch_message ≡ []
    → lookup mid c.response_router ≡ some route
    → ((recv (taken v c mid payload)).1
        ≡ reply (record { typ = response; route = route; req_id = mid; payload = payload }))
      × (lookup mid (recv (taken v c mid payload)).0.response_router ≡ none)
unfolding recv
recv-taken v c mid route payload idle asked =
    rw (idle, recv) (rw asked refl, lookup-remove mid mid c.response_router ∙ ground (arith))

-- The packet of an answer makes `Recv` return it.
pub recv-answered :
    (w : Conn.Env) (v : Env) (c : Client) (mid : ℕ) (route : Text) (payload body em : List ℕ)
    → v.routes ≡ w.routes
    → v.new_cipher ≡ w.new_cipher
    → c.status ≡ working_status
    → c.ch_message ≡ []
    → lookup mid c.response_router ≡ some route
    → Sealed w c.secret_key payload body
    → IsSendable w.routes (message_of response mid body)
    → encode w.routes (message_of response mid body) ≡ Message.Result.ok em
    → (recv (process_packet v c (data_packet em)).0).1
      ≡ reply (record { typ = response; route = route; req_id = mid; payload = payload })
recv-answered w v c mid route payload body em routes ciphers open_still idle asked sealed ok_message
      enc =
    ap (λ (r : Client × Step). (recv r.0).1)
      (process_packet-response v c w mid payload body em routes ciphers open_still sealed ok_message
        enc)
    ∙ (recv-taken v c mid route payload idle asked).0

-- A client with an open connection waits for the answer to its request, whose id is not 0, and has
-- no other message. The server, whose send channel is open, answers with a payload that can be
-- encrypted under the secret that both have and encoded with one dictionary. Then one data packet
-- goes out, and when it arrives at the client, `Recv` returns a response with the route of the
-- request, its id and the payload, and the route of the request is forgotten.
pub respond-recv :
    (w : Conn.Env) (s : Conn) (v : Env) (c : Client) (mid : ℕ) (route : Text)
    (payload body : List ℕ)
    → v.routes ≡ w.routes
    → v.new_cipher ≡ w.new_cipher
    → s.session.secret ≡ c.secret_key
    → s.send_open ≡ true
    → c.status ≡ working_status
    → c.ch_message ≡ []
    → lookup mid c.response_router ≡ some route
    → 0 < mid
    → Sealed w c.secret_key payload body
    → IsSendable w.routes (message_of response mid body)
    → (p : Packet) × (respond w s mid payload ≡ (sending s p, none))
      × ((process_packet v c p).1 ≡ goes_on)
      × ((recv (process_packet v c p).0).1
          ≡ reply (record { typ = response; route = route; req_id = mid; payload = payload }))
      × (lookup mid (recv (process_packet v c p).0).0.response_router ≡ none)
respond-recv w s v c mid route payload body routes ciphers secrets is_open open_still idle asked pos
      sealed ok_message =
    let sealed' = subst (λ k. Sealed w k payload body) (sym secrets) sealed in
    let (em, enc, sent) = respond-sending w s mid payload body is_open pos sealed' ok_message in
    let got =
      process_packet-response v c w mid payload body em routes ciphers open_still sealed ok_message
        enc in
    let (given, forgotten) = recv-taken v c mid route payload idle asked in
    (
      data_packet em,
      sent,
      ap (λ (r : Client × Step). r.1) got,
      ap (λ (r : Client × Step). (recv r.0).1) got ∙ given,
      ap (λ (r : Client × Step). lookup mid (recv r.0).0.response_router) got ∙ forgotten,
    )
