-- ===== src/Gate/Server/Tests.antt =====
-- Addresses and runs of a server, and its theorems at them.
use gira.Prelude.{
  ℕ, ◌+◌, ◌≡◌, ◌≢◌, ◌↔◌, refl, true, false, Option, none, some, [], ◌∷◌, arith, eqb, if◌then◌else◌,
}
use gira.Prelude.Int.{ℤ, pos, negsuc}
use gira.Prelude.Keys.{lookup, store, number_key}
use gira.Gate.Session.{new_session}
use gira.Gate.Server.{
  Text, Settings, Bound, GatewayConfig, new_default_server, split_colon, to_int32, bound, panic,
  listen, listen_at, new_config_server,
}
use gira.Gate.Server.Listening.{new_config_server-ids_differ, settings_of}
use gira.Gate.Server.Address.{IsAnswer, new_config_server-IsAnswer}
use gira.Gate.Server.Visits.{
  Server, entering, counted, counted_in, shaking, opening, numbering, storing, serving, leaving,
  closed, Steps, here, next, enter, turns, served, id_of,
}
use gira.Gate.Server.Visits.Invariant.{count, is_stored}
use gira.Gate.Server.Visits.Accounts.{served-accounts}
use gira.Gate.Server.Visits.Closing.{is_entering, closed-stays}

-- Reads one digit, and writes one.
abbrev digit : Text → Option ℤ
digit (c ∷ []) = if eqb c 55 then some (pos 7) else none
digit _ = none

abbrev show : ℤ → Text
show (pos n) = (48 + n) ∷ []
show (negsuc n) = 45 ∷ (49 + n) ∷ []

-- "a:7"
abbrev address : Text
address = 97 ∷ 58 ∷ 55 ∷ []

listens :
    listen digit show address []
    ≡ bound new_default_server (record { host = 97 ∷ []; port = pos 7; bind_addr = 58 ∷ 55 ∷ [] })
unfolding listen listen_at split_colon new_default_server to_int32
listens = refl

listens_nowhere : listen digit show (97 ∷ []) [] ≡ panic
unfolding listen listen_at split_colon
listens_nowhere = refl

port_wraps : to_int32 (pos 2147483648) ≡ negsuc 2147483647
unfolding to_int32
port_wraps = refl

abbrev config : GatewayConfig
config = record {
  is_websocket = true;
  bind = address;
  debug = false;
  ssl = true;
  cert_file = 99 ∷ [];
  key_file = 107 ∷ [];
  ws_path = 119 ∷ [];
  recv_buff_size = 4096;
  send_backlog = 8;
  recv_backlog = 8;
  heartbeat = 30;
  handshake_timeout = 2;
}

abbrev secure_place : Bound
secure_place = record {
  host = 119 ∷ 115 ∷ 115 ∷ 58 ∷ 47 ∷ 47 ∷ 97 ∷ [];
  port = pos 7;
  bind_addr = 58 ∷ 55 ∷ [];
}

starts :
    (app : ℕ)
    → new_config_server digit show app config ≡ bound (settings_of app config true) secure_place
unfolding new_config_server listen listen_at split_colon new_default_server to_int32
starts app = refl

new_config_server-IsAnswer_example :
    IsAnswer digit show 1 config (bound (settings_of 1 config true) secure_place)
unfolding new_config_server listen listen_at split_colon new_default_server to_int32
new_config_server-IsAnswer_example = new_config_server-IsAnswer digit show 1 config

abbrev secure_settings : Settings
secure_settings = record {
  is_websocket = true;
  tsl_certificate = 99 ∷ [];
  tsl_key = 107 ∷ [];
  heartbeat = 30;
  debug = false;
  ws_path = 119 ∷ [];
  rsa_private_key = [];
  session_modifer = 281474976710656;
  handshake_timeout = 2;
  send_backlog = 8;
  recv_backlog = 8;
  recv_buff_size = 4096;
}

new_config_server-ids_differ_example :
    (new_session 5 (settings_of 1 config true).session_modifer).id
    ≢ (new_session 5 (settings_of 2 config true).session_modifer).id
new_config_server-ids_differ_example =
    new_config_server-ids_differ digit show 1 2 config config (settings_of 1 config true)
      (settings_of 2 config true) secure_place secure_place 5 5 (starts 1) (starts 2) (omega arith)
      (omega arith) (omega arith) (omega arith) (omega arith)

-- A server with one connection, which goes as far as its handler, or is refused.
abbrev empty : Server
empty = served 281474976710656 true

abbrev entered : Server
entered = record empty { visits = entering ∷ [] }

abbrev in_handshake : Server
in_handshake = record empty {
  sid = 1;
  cumulative_connections = 1;
  active_connections = 1;
  visits = shaking 1 ∷ [];
}

abbrev in_handler : Server
in_handler = record in_handshake {
  sessions = (281474976710657, 1) ∷ [];
  active_sessions = 1;
  cumulative_sessions = 1;
  visits = serving 1 ∷ [];
}

abbrev refused_one : Server
refused_one = record in_handshake { handshake_errors = 1; active_connections = 0; visits = [] }

shaking_run : Steps empty in_handshake
shaking_run =
    next
      (next (next (next here (enter refl)) (turns true [] entering [] refl))
        (turns true [] counted [] refl))
      (turns true [] counted_in [] refl)

serving_run : Steps empty in_handler
unfolding store
serving_run =
    next
      (next
        (next (next shaking_run (turns true [] (shaking 1) [] refl))
          (turns true [] (opening 1) [] refl))
        (turns true [] (numbering 1) [] refl))
      (turns true [] (storing 1) [] refl)

refused_run : Steps empty refused_one
refused_run =
    next (next shaking_run (turns false [] (shaking 1) [] refl)) (turns true [] leaving [] refl)

served-accounts_example :
    (in_handler.active_connections ≡ 1)
    × (in_handler.active_sessions ≡ 1)
    × (in_handler.cumulative_connections ≡ 1 + 0 + 0 + 0)
    × ((k n : ℕ)
        → (lookup k in_handler.sessions ≡ some n)
          ↔ ((k ≡ id_of 281474976710656 n) × (count (is_stored n) in_handler.visits ≡ 1)))
served-accounts_example = served-accounts 281474976710656 true in_handler serving_run (omega arith)

abbrev shut_down : Server
shut_down = record in_handshake { status = closed }

abbrev behind : Server
behind = record shut_down { visits = opening 1 ∷ [] }

closed-stays_example :
    (behind.status ≡ closed)
    × (behind.maintains ≡ [])
    × (behind.cumulative_connections + count is_entering behind.visits ≡ 1)
closed-stays_example =
    closed-stays shut_down behind refl refl (next here (turns true [] (shaking 1) [] refl)) refl
