-- ===== src/Smallgame/Login/Checks.antt =====
-- What a login has to pass. (framework/smallgame/gateway/server/server.go)
use gira.Prelude.{◌≡◌, true, some}
use gira.Gate.Conn.{Conn, Inbound}
use gira.Smallgame.Upstream.{Upstream, UpstreamMap, select_peer}
use gira.Smallgame.Login.{Text, Gateway, Decoded, LoginRequest, login_name}

-- A message that logs a member in at a hall.
pub record LogsIn (g : Gateway) (halls : UpstreamMap) (m : Inbound) (member : Text) (u : Upstream)
    : Type 0 where
  pub decoded : Decoded
  pub login : LoginRequest
  pub decodes : g.request_decode m.payload ≡ some decoded
  pub is_login : decoded.name ≡ login_name
  pub casts : decoded.login ≡ some login
  pub token : g.parse_jwt_token login.token ≡ some member
  pub own : login.member_id ≡ member
  pub selected : (select_peer g.answer halls).1 ≡ some u
  pub opens : g.stream_opens u ≡ true
