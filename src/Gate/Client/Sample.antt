-- ===== src/Gate/Client/Sample.antt =====
-- Settings and an open client for the tests.
use gira.Prelude.{none, some, true, [], ◌∷◌}
use gira.Gate.Crypto.Sample.{new_moved}
use gira.Gate.Conn.Sample.{no_routes}
use gira.Gate.Client.{Client, Env, new_client, working_status}

-- `{}` everywhere, and a reply that says 200.
abbrev pub settings : Env
settings = record {
  routes = no_routes;
  new_cipher = new_moved;
  rsa_public_key = [];
  token = some [];
  rsa_encrypt = λ _ _. none;
  handshake_payload = λ _. some (123 ∷ 125 ∷ []);
  response_of = λ _. some (record { code = 200; session = 1; heartbeat = 30 });
  ack_payload = some (123 ∷ 125 ∷ []);
  write_succeeds = λ _. true;
  beyond = [];
  now = 5;
}

abbrev pub client : Client
client = record (new_client 4 (4 ∷ 0 ∷ 0 ∷ 0 ∷ [])) { status = working_status }
