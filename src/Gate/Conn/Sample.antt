-- ===== src/Gate/Conn/Sample.antt =====
-- Settings and a new connection for the tests.
use gira.Prelude.{none, some, true, [], ◌∷◌}
use gira.Prelude.Keys.{text_key}
use gira.Gate.Packet.{new_decoder}
use gira.Gate.Message.{Routes}
use gira.Gate.Crypto.Sample.{new_moved}
use gira.Gate.Conn.{Conn, Env, new_conn}

abbrev pub no_routes : Routes
no_routes = record { routes = []; codes = [] }

-- No RSA key, a validator that passes everything, and `{}` as the reply.
abbrev pub plain : Env
plain = record {
  routes = no_routes;
  new_cipher = new_moved;
  rsa_private_key = [];
  token_of = λ _. some [];
  rsa_decrypt = λ _ _. none;
  validator = λ _. none;
  reply_of = λ _. some (123 ∷ 125 ∷ []);
  write_succeeds = λ _. true;
  has_handler = true;
  beyond = [];
  now = 5;
}

abbrev pub fresh : Conn
fresh = record (new_conn 1 0 4) { decoder = new_decoder }
