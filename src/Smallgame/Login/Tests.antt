-- ===== src/Smallgame/Login/Tests.antt =====
-- Logins that pass, and logins that do not.
use gira.Prelude.{ℕ, ◌≡◌, refl, true, false, none, some, [], ◌∷◌, if◌then◌else◌}
use gira.Prelude.Int.{pos}
use gira.Prelude.Keys.{text_eqb, number_key}
use gira.Gate.Conn.{Conn}
use gira.Gate.Conn.Receive.{recv}
use gira.Gate.Conn.Sample.{fresh}
use gira.Smallgame.Upstream.{Upstream, UpstreamMap, ok}
use gira.Smallgame.Login.{Gateway, returns, crash, login_name, is_full, serve_client_stream}

abbrev hall : Upstream
hall = record {
  id = 1;
  full_name = [];
  address = [];
  has_client = true;
  cancelled = false;
  player_count = 3;
  build_time = 20;
  status = ok;
}

abbrev halls : UpstreamMap
halls = record { entries = (1, hall) ∷ []; loose = [] }

-- A message is a login with the token that it carries, and the token of member 7 is 8.
abbrev gateway : Gateway
gateway = record {
  max_session_count = pos 5;
  request_decode = λ payload.
      some (record {
        name = login_name;
        login = some (record { member_id = 7 ∷ []; token = payload });
      });
  parse_jwt_token = λ token. if text_eqb token (8 ∷ []) then some (7 ∷ []) else none;
  new_response = λ req. true;
  stream_opens = λ u. true;
  answer = λ u. some ok;
}

abbrev with_token : ℕ → Conn
with_token t = record fresh {
  ch_message = record { route = []; payload = t ∷ []; req_id = 1 } ∷ [];
}

wrong_token : (serve_client_stream gateway halls 0 (with_token 9)).1 ≡ returns
unfolding serve_client_stream recv
wrong_token = refl

no_response :
    (serve_client_stream (record gateway { new_response = λ req. false }) halls 0 (with_token 9)).1
    ≡ crash
unfolding serve_client_stream recv
no_response = refl

full : (serve_client_stream gateway halls 5 (with_token 8)).1 ≡ returns
unfolding serve_client_stream
full = refl

-- The comment on the limit says that 0 lets clients in.
zero_refuses : is_full (pos 0) 0 ≡ true
zero_refuses = refl
