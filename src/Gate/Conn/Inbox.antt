-- ===== src/Gate/Conn/Inbox.antt =====
-- What the handler gets of what a client sends, however the reads cut it. (gate/conn.go)
use gira.Prelude.{
  ℕ, ◌≡◌, refl, sym, ap, ◌∙◌, ◌⊎◌, inl, inr, true, false, some, List, [], ◌∷◌, ◌++◌, append-nil,
  append_assoc, arith,
}
use gira.Prelude.Keys.{text_eqb}
use gira.Gate.Packet.{Packet, packets, head_length, data_type, heartbeat, decode}
use gira.Gate.Packet
use gira.Gate.Message.{Routes, request, notify, encode}
use gira.Gate.Message
use gira.Gate.Message.RoundTrip.{IsSendable, received, decode-encode}
use gira.Gate.Crypto.{Cipher, IsCipher, des_encrypt, des_decrypt}
use gira.Gate.Crypto
use gira.Gate.Crypto.Padding.{des_decrypt-encrypt}
use gira.Gate.Conn.{Env, Conn, Inbound}
use gira.Gate.Conn.Receive.{goes_on, process_message, process_packet, deliver, unsealed}

-- `body` is the payload under the session's secret: itself if there is none, and else encrypted by
-- the cipher that the secret gives.
abbrev pub Sealed : Env → List ℕ → List ℕ → List ℕ → Type 0
Sealed w secret payload body =
    ((secret ≡ []) × (body ≡ payload))
    ⊎ ((text_eqb secret [] ≡ false)
        × (c : Cipher) × (w.new_cipher secret ≡ some c)
        × IsCipher c
        × (des_encrypt w.new_cipher payload secret ≡ Crypto.Result.ok body))

-- A packet that a client may send to an open connection: a heartbeat, or a request or notify with a
-- payload, encoded. It carries these messages to the handler.
pub data Carries (w : Env) (secret : List ℕ) (p : Packet) (ms : List Inbound) : Type 0 where
  beat : p.typ ≡ heartbeat → ms ≡ [] → Carries w secret p ms
  message :
      (m : Message.Message) (id : ℕ) (payload : List ℕ)
      → p.typ ≡ data_type
      → IsSendable w.routes m
      → encode w.routes m ≡ Message.Result.ok p.body
      → ((m.typ ≡ request) × (id ≡ m.id)) ⊎ ((m.typ ≡ notify) × (id ≡ 0))
      → Sealed w secret payload m.body
      → ms ≡ record { route = m.route; payload = payload; req_id = id } ∷ []
      → Carries w secret p ms

unsealed-Sealed :
    (w : Env) (c : Conn) (payload body : List ℕ)
    → Sealed w c.session.secret payload body
    → unsealed w c body ≡ Crypto.Result.ok payload
unfolding unsealed
unsealed-Sealed w c payload body (inl plain) = ground arith
unsealed-Sealed w c payload body (inr (has, ci, e, good, enc)) =
    let (out, enc', dec) = des_decrypt-encrypt w.new_cipher ci c.session.secret payload e good in
    let same : out ≡ body = cc in
    rw has (ap (λ (b : List ℕ). des_decrypt w.new_cipher b c.session.secret) (sym same) ∙ dec)

-- The connection behind the messages `ms`.
abbrev pub after : Env → Conn → List Inbound → Conn
after w c ms = record c {
  last_at = w.now;
  served = c.served ++ ms;
  ch_message = c.ch_message ++ ms;
}

pub decode-body :
    (d : Routes) (m : Message.Message) (body beyond : List ℕ)
    → IsSendable d m
    → encode d m ≡ Message.Result.ok body
    → Message.decode d body beyond ≡ Message.Result.ok (received d m)
decode-body d m body beyond s e =
    let (bs, enc, dec) = decode-encode d m beyond s in
    let same : bs ≡ body = cc in ap (λ (b : List ℕ). Message.decode d b beyond) (sym same) ∙ dec

process_message-Sealed :
    (w : Env) (c : Conn) (m : Message.Message) (id : ℕ) (payload : List ℕ)
    → w.has_handler ≡ true
    → ((m.typ ≡ request) × (id ≡ m.id)) ⊎ ((m.typ ≡ notify) × (id ≡ 0))
    → Sealed w c.session.secret payload m.body
    → process_message w c (received w.routes m)
      ≡ (deliver c (record { route = m.route; payload = payload; req_id = id }), goes_on)
unfolding process_message received
process_message-Sealed w c m id payload h (inl (t, i)) s =
    ground (arith, unsealed-Sealed w c payload m.body s)
process_message-Sealed w c m id payload h (inr (t, i)) s =
    ground (arith, unsealed-Sealed w c payload m.body s)

pub process_packet-Carries :
    (w : Env) (c : Conn) (p : Packet) (ms : List Inbound)
    → w.has_handler ≡ true
    → Carries w c.session.secret p ms
    → process_packet w c p ≡ (after w c ms, goes_on)
unfolding process_packet
process_packet-Carries w c p ms h (beat t e) =
    let served : c.served ++ ms ≡ c.served = rw e (append-nil c.served) in
    let waiting : c.ch_message ++ ms ≡ c.ch_message = rw e (append-nil c.ch_message) in
    rw (served, waiting) (ground arith)
process_packet-Carries w c p ms h (message m id payload t s enc k sealed e) =
    let c' : Conn = record c { last_at = w.now } in
    rw (t, decode-body w.routes m p.body w.beyond s enc, e)
      (process_message-Sealed w c' m id payload h k sealed)

-- A connection that has handed on the messages `ms` and is otherwise as `c` was, but for the clock
-- and the decoder.
pub record HandedOn (c c' : Conn) (ms : List Inbound) : Type 0 where
  pub to_handler : c'.ch_message ≡ c.ch_message ++ ms
  pub to_middlewares : c'.served ≡ c.served ++ ms
  pub session : c'.session ≡ c.session
  pub status : c'.status ≡ c.status
  pub ch_send : c'.ch_send ≡ c.ch_send
  pub written : c'.written ≡ c.written

pub HandedOn-refl : (c c' : Conn) → c' ≡ c → HandedOn c c' []
HandedOn-refl c c' e = record {
  to_handler = ap (λ (x : Conn). x.ch_message) e ∙ sym (append-nil c.ch_message);
  to_middlewares = ap (λ (x : Conn). x.served) e ∙ sym (append-nil c.served);
  session = ap (λ (x : Conn). x.session) e;
  status = ap (λ (x : Conn). x.status) e;
  ch_send = ap (λ (x : Conn). x.ch_send) e;
  written = ap (λ (x : Conn). x.written) e;
}

pub HandedOn-trans :
    (a b c : Conn) (ms ns : List Inbound)
    → HandedOn a b ms
    → HandedOn b c ns
    → HandedOn a c (ms ++ ns)
HandedOn-trans a b c ms ns h k = record {
  to_handler =
      k.to_handler
      ∙ ap (λ (x : List Inbound). x ++ ns) h.to_handler
      ∙ append_assoc a.ch_message ms ns;
  to_middlewares =
      k.to_middlewares
      ∙ ap (λ (x : List Inbound). x ++ ns) h.to_middlewares
      ∙ append_assoc a.served ms ns;
  session = k.session ∙ h.session;
  status = k.status ∙ h.status;
  ch_send = k.ch_send ∙ h.ch_send;
  written = k.written ∙ h.written;
}

pub HandedOn-after : (w : Env) (c : Conn) (ms : List Inbound) → HandedOn c (after w c ms) ms
HandedOn-after w c ms = record {
  to_handler = refl;
  to_middlewares = refl;
  session = refl;
  status = refl;
  ch_send = refl;
  written = refl;
}

pub HandedOn-decoder : (c : Conn) (d : Packet.Decoder) → HandedOn c (record c { decoder = d }) []
HandedOn-decoder c d = record {
  to_handler = sym (append-nil c.ch_message);
  to_middlewares = sym (append-nil c.served);
  session = refl;
  status = refl;
  ch_send = refl;
  written = refl;
}
