-- ===== src/Gate/Client/Requests.antt =====
-- Requests of the client as the server reads them. (gate/client/client.go, gate/conn.go)
use gira.Prelude.{
  ℕ, ◌≡◌, ◌≢◌, refl, sym, ap, ◌∙◌, inl, true, false, none, some, List, [], ◌∷◌, ◌++◌, length, arith,
  subst, ◌%◌,
}
use gira.Prelude.Keys.{text_eqb, lookup, store, lookup-store, number_key}
use gira.Gate.Packet.{Packet, data_type}
use gira.Gate.Packet.Wire.{wire, encode-wire}
use gira.Gate.Message.{Text, Routes, request, encode}
use gira.Gate.Message
use gira.Gate.Message.RoundTrip.{IsSendable, received, decode-encode}
use gira.Gate.Crypto.{Cipher, des_decrypt}
use gira.Gate.Crypto
use gira.Gate.Conn.{Conn, crypto_error}
use gira.Gate.Conn
use gira.Gate.Conn.Inbox.{message, process_packet-Carries, after, decode-body}
use gira.Gate.Conn.Receive
use gira.Gate.Conn.Send.{data_packet}
use gira.Gate.Client.{Client, Env, working_status}
use gira.Gate.Client.Traffic.{send_request}

-- The message that `Request` makes: the payload goes out as it is.
abbrev pub request_message : Text → ℕ → List ℕ → Message.Message
request_message route mid payload = record {
  typ = request;
  id = mid;
  route = route;
  body = payload;
  compressed = false;
}

-- The client behind a request.
abbrev pub requesting : Client → ℕ → Text → Packet → Client
requesting c mid route p = record c {
  response_router = store mid route c.response_router;
  ch_write = c.ch_write ++ (wire p ∷ []);
}

pub send_request-requesting :
    (v : Env) (c : Client) (route : Text) (mid : ℕ) (payload : List ℕ)
    → c.status ≡ working_status
    → c.write_open ≡ true
    → IsSendable v.routes (request_message route mid payload)
    → (em : List ℕ) × (encode v.routes (request_message route mid payload) ≡ Message.Result.ok em)
      × (send_request v c route mid payload ≡ (requesting c mid route (data_packet em), none))
unfolding send_request
send_request-requesting v c route mid payload open_still is_open s =
    let (em, enc, dec) = decode-encode v.routes (request_message route mid payload) [] s in
    let framed = encode-wire data_type em refl in (em, enc, ground (arith, enc, framed))

-- The packet of a request hands the handler its message.
pub process_packet-requested :
    (w : Conn.Env) (s : Conn) (route : Text) (mid : ℕ) (payload em : List ℕ)
    → w.has_handler ≡ true
    → s.session.secret ≡ []
    → IsSendable w.routes (request_message route mid payload)
    → encode w.routes (request_message route mid payload) ≡ Message.Result.ok em
    → Receive.process_packet w s (data_packet em) ≡ (
      after w s (record { route = route; payload = payload; req_id = mid } ∷ []),
      Receive.goes_on,
    )
process_packet-requested w s route mid payload em has plain ok_message enc =
    process_packet-Carries w s (data_packet em) _ has (
      message (request_message route mid payload) mid payload refl ok_message enc (inl (refl, refl))
        (inl (plain, refl)) refl)

-- A client with an open connection sends a request that its dictionary, which the server shares,
-- can encode, and the session has no secret. Then one packet goes out and the route is kept for the
-- answer, and the packet, when it arrives at a server with a handler, hands the handler and the
-- middlewares one message with the route, the payload and the id of the request.
pub send_request-delivered :
    (w : Conn.Env) (s : Conn) (v : Env) (c : Client) (route : Text) (mid : ℕ) (payload : List ℕ)
    → v.routes ≡ w.routes
    → w.has_handler ≡ true
    → s.session.secret ≡ []
    → c.status ≡ working_status
    → c.write_open ≡ true
    → IsSendable v.routes (request_message route mid payload)
    → (p : Packet) × (send_request v c route mid payload ≡ (requesting c mid route p, none))
      × (lookup mid (requesting c mid route p).response_router ≡ some route)
      × (Receive.process_packet w s p ≡ (
        after w s (record { route = route; payload = payload; req_id = mid } ∷ []),
        Receive.goes_on,
      ))
send_request-delivered w s v c route mid payload routes has plain open_still is_open ok_message =
    let (em, enc, sent) =
      send_request-requesting v c route mid payload open_still is_open ok_message in
    let m = request_message route mid payload in
    (
      data_packet em,
      sent,
      lookup-store mid mid route c.response_router ∙ ground arith,
      process_packet-requested w s route mid payload em has plain
          (subst (λ d. IsSendable d m) routes ok_message) (ap (λ d. encode d m) (sym routes) ∙ enc),
    )

unsealed-refused :
    (w : Conn.Env) (s : Conn) (ci : Cipher) (payload : List ℕ)
    → text_eqb s.session.secret [] ≡ false
    → w.new_cipher s.session.secret ≡ some ci
    → length payload % ci.block_size ≢ 0
    → Receive.unsealed w s payload ≡ Crypto.Result.fails Crypto.not_full_blocks
unfolding Receive.unsealed des_decrypt
unsealed-refused w s ci payload has e partial = ground (arith)

-- The client does not encrypt what it sends, though the server decrypts what it gets when the
-- session has a secret. A client with an open connection sends a request that its dictionary, which
-- the server shares, can encode, and whose payload is no whole number of blocks of the cipher that
-- the secret gives: it goes out without an error, and stops the handling of its packet at the
-- server with the error that the blocks are not full. The handler gets nothing.
pub send_request-refused :
    (w : Conn.Env) (s : Conn) (v : Env) (c : Client) (route : Text) (mid : ℕ) (payload : List ℕ)
    (ci : Cipher)
    → v.routes ≡ w.routes
    → text_eqb s.session.secret [] ≡ false
    → w.new_cipher s.session.secret ≡ some ci
    → length payload % ci.block_size ≢ 0
    → c.status ≡ working_status
    → c.write_open ≡ true
    → IsSendable v.routes (request_message route mid payload)
    → (p : Packet) × (send_request v c route mid payload ≡ (requesting c mid route p, none))
      × (Receive.process_packet w s p
          ≡ (record s { last_at = w.now }, Receive.stops (crypto_error Crypto.not_full_blocks)))
unfolding Receive.process_packet Receive.process_message received
send_request-refused w s v c route mid payload ci routes has e partial open_still is_open
      ok_message =
    let (em, enc, sent) =
      send_request-requesting v c route mid payload open_still is_open ok_message in
    let m = request_message route mid payload in
    let enc' : encode w.routes m ≡ Message.Result.ok em = ap (λ d. encode d m) (sym routes) ∙ enc in
    let dec =
      decode-body w.routes m em w.beyond (subst (λ d. IsSendable d m) routes ok_message) enc' in
    let refused = unsealed-refused w (record s { last_at = w.now }) ci payload has e partial in
    (data_packet em, sent, ground (arith, dec, refused))
