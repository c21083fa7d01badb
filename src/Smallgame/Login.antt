-- ===== src/Smallgame/Login.antt =====
-- framework/smallgame/gateway/server/server.go and session.go: the login of a client at the gateway,
-- up to the stream to a hall. The protocol, the tokens and the halls' streams are parameters.
pub mod Checks
mod Tests
use gira.Prelude.{
  ℕ, zero, suc, Bool, true, false, not, Option, none, some, List, [], ◌∷◌, ltb, if◌then◌else◌,
}
use gira.Prelude.Int.{ℤ, pos, negsuc}
use gira.Prelude.Keys.{text_eqb}
use gira.Gate.Conn.{Conn, Inbound, respond}
use gira.Gate.Conn
use gira.Gate.Conn.Receive.{Received, message, no_more, waits, recv}
use gira.Smallgame.Upstream.{Upstream, UpstreamMap, HallStatus, select_peer}

abbrev pub Text : Type 0
Text = List ℕ

-- The interface `gateway.LoginRequest`.
pub record LoginRequest : Type 0 where
  pub member_id : Text
  pub token : Text

-- A decoded request; `login` is the cast to the interface.
pub record Decoded : Type 0 where
  pub name : Text
  pub login : Option LoginRequest

-- `gira.Proto`, the configuration and the tokens. `parse_jwt_token` gives the member of the claims,
-- `new_response` whether a response of the request's type can be made, and `stream_opens` is
-- `NewClientStream`.
pub record Gateway : Type 0 where
  pub max_session_count : ℤ
  pub request_decode : List ℕ → Option Decoded
  pub parse_jwt_token : Text → Option Text
  pub new_response : Decoded → Bool
  pub stream_opens : Upstream → Bool
  pub answer : Upstream → Option HallStatus

-- How `ServeClientStream` goes on: it returns, the session runs between client and hall, the program
-- crashes, or it waits for a message.
pub data Outcome : Type 0 where
  returns : Outcome
  relays : Text → Upstream → Outcome
  crash waiting : Outcome

-- "Login"
abbrev pub login_name : Text
login_name = 76 ∷ 111 ∷ 103 ∷ 105 ∷ 110 ∷ []

-- `loginErrResponse`: its test of the error of `NewResponse` is the wrong way round, so that it ends
-- when there is a response, and calls a method of nil when there is none.
abbrev pub login_err_response : Gateway → Decoded → Outcome
login_err_response g req = if g.new_response req then returns else crash

-- The test for the number of sessions: -1 passes, 0 does not, and no other negative number does.
abbrev pub is_full : ℤ → ℕ → Bool
is_full (negsuc zero) count = false
is_full (negsuc (suc n)) count = true
is_full (pos zero) count = true
is_full (pos (suc n)) count = not (ltb count (suc n))

-- `client_session.serve` up to the stream, with the hall that was selected.
abbrev pub start_session : Gateway → Decoded → Text → Option Upstream → Outcome
start_session g req member_id none = login_err_response g req
start_session g req member_id (some u) =
    if g.stream_opens u then relays member_id u else login_err_response g req

-- What the token says, against what the client says.
abbrev pub check_claims : Gateway → UpstreamMap → Decoded → LoginRequest → Option Text → Outcome
check_claims g halls req login none = login_err_response g req
check_claims g halls req login (some member_id) =
    if text_eqb member_id login.member_id
    then start_session g req member_id (select_peer g.answer halls).1
    else login_err_response g req

abbrev pub check_login : Gateway → UpstreamMap → Decoded → Option LoginRequest → Outcome
check_login g halls req none = returns
check_login g halls req (some login) =
    check_claims g halls req login (g.parse_jwt_token login.token)

abbrev pub check_request : Gateway → UpstreamMap → Option Decoded → Outcome
check_request g halls none = returns
check_request g halls (some req) =
    if text_eqb req.name login_name then check_login g halls req req.login else returns

-- The first message.
abbrev pub first_message : Gateway → UpstreamMap → Received → Outcome
first_message g halls (message m) = check_request g halls (g.request_decode m.payload)
first_message g halls no_more = returns
first_message g halls waits = waiting

-- `ServeClientStream`, where the message comes in time. The halls are left out of the result: only
-- the status of the one that is asked changes.
unfoldable pub serve_client_stream : Gateway → UpstreamMap → ℕ → Conn → Conn × Outcome
serve_client_stream g halls session_count c =
    if is_full g.max_session_count session_count
    then (c, returns)
    else ((recv c).0, first_message g halls (recv c).1)
