-- ===== src/Gate/Server.antt =====
-- gate/server.go: the settings of a server and the address it listens on. Server/Visits models the
-- connections that come in. Files and the socket are parameters or left out.
pub mod Listening
pub mod Address
pub mod Visits
mod Tests
use gira.Prelude.{
  ℕ, ◌-◌, ◌*◌, ◌%◌, ◌^◌, Bool, true, false, ◌&&◌, Option, none, some, List, [], ◌∷◌, ◌++◌, ltb, eqb,
  length, if◌then◌else◌,
}
use gira.Prelude.Int.{ℤ, pos, negsuc}

abbrev pub Text : Type 0
Text = List ℕ

-- What the options of a server change. Durations are numbers of nanoseconds. (`Server`)
pub record Settings : Type 0 where
  pub is_websocket : Bool
  pub tsl_certificate : Text
  pub tsl_key : Text
  pub heartbeat : ℕ
  pub debug : Bool
  pub ws_path : Text
  pub rsa_private_key : Text
  pub session_modifer : ℕ
  pub handshake_timeout : ℕ
  pub send_backlog : ℕ
  pub recv_backlog : ℕ
  pub recv_buff_size : ℕ

abbrev pub second : ℕ
second = 1000000000

unfoldable pub new_default_server : Settings
new_default_server = record {
  is_websocket = false;
  tsl_certificate = [];
  tsl_key = [];
  heartbeat = 30 * second;
  debug = false;
  ws_path = [];
  rsa_private_key = [];
  session_modifer = 0;
  handshake_timeout = 2 * second;
  send_backlog = 16;
  recv_backlog = 16;
  recv_buff_size = 4096;
}

-- The options. `WithRSAPrivateKey` gives a nil option when its file cannot be read.
abbrev pub with_session_modifer : ℕ → Settings → Settings
with_session_modifer v s = record s { session_modifer = v }

abbrev pub with_debug_mode : Bool → Settings → Settings
with_debug_mode v s = record s { debug = v }

abbrev pub with_heartbeat_interval : ℕ → Settings → Settings
with_heartbeat_interval d s = record s { heartbeat = d }

abbrev pub with_handshake_timeout : ℕ → Settings → Settings
with_handshake_timeout d s = record s { handshake_timeout = d }

abbrev pub with_recv_buff_size : ℕ → Settings → Settings
with_recv_buff_size v s = record s { recv_buff_size = v }

abbrev pub with_send_backlog : ℕ → Settings → Settings
with_send_backlog v s = record s { send_backlog = v }

abbrev pub with_recv_backlog : ℕ → Settings → Settings
with_recv_backlog v s = record s { recv_backlog = v }

abbrev pub with_ws_path : Text → Settings → Settings
with_ws_path path s = record s { ws_path = path }

abbrev pub with_is_websocket : Bool → Settings → Settings
with_is_websocket enable_ws s = record s { is_websocket = enable_ws }

abbrev pub with_tsl_config : Text → Text → Settings → Settings
with_tsl_config certificate key s = record s { tsl_certificate = certificate; tsl_key = key }

abbrev pub with_rsa_private_key : Option Text → Option (Settings → Settings)
with_rsa_private_key none = none
with_rsa_private_key (some key) = some (λ s. record s { rsa_private_key = key })

-- `for _, opt := range opts`, without the nil ones.
abbrev pub configured : Settings → List (Option (Settings → Settings)) → Settings
configured s [] = s
configured s (none ∷ opts) = configured s opts
configured s (some opt ∷ opts) = configured (opt s) opts

-- `strings.SplitN(addr, ":", 2)`: what is before the first colon, and what is behind it if there is
-- one.
unfoldable pub split_colon : Text → Text × Option Text
split_colon [] = ([], none)
split_colon (c ∷ addr) =
    let rest = split_colon addr in if eqb c 58 then ([], some addr) else (c ∷ rest.0, rest.1)

-- "wss://" and "ws://"
abbrev pub scheme : Settings → Text
scheme s =
    if s.is_websocket
    then (if eqb (length s.tsl_certificate) 0
        then 119 ∷ 115 ∷ 58 ∷ 47 ∷ 47 ∷ []
        else 119 ∷ 115 ∷ 115 ∷ 58 ∷ 47 ∷ 47 ∷ [])
    else []

pub record Bound : Type 0 where
  pub host : Text
  pub port : ℤ
  pub bind_addr : Text

-- How `Listen` ends: `panic` is the index error of `addrPat[1]`.
pub data Listened : Type 0 where
  bound : Settings → Bound → Listened
  invalid_address panic : Listened

-- `gira.GatewayConfig`
pub record GatewayConfig : Type 0 where
  pub is_websocket : Bool
  pub bind : Text
  pub debug : Bool
  pub ssl : Bool
  pub cert_file : Text
  pub key_file : Text
  pub ws_path : Text
  pub recv_buff_size : ℕ
  pub send_backlog : ℕ
  pub recv_backlog : ℕ
  pub heartbeat : ℕ
  pub handshake_timeout : ℕ

abbrev pub uses_tsl : GatewayConfig → Bool
uses_tsl config = config.ssl && (ltb 0 (length config.cert_file) && ltb 0 (length config.key_file))

-- The options of `NewConfigServer` but the last. `app` is the id of the process, of which the shift
-- keeps 16 bits.
abbrev pub base_options : ℕ → GatewayConfig → List (Option (Settings → Settings))
base_options app config =
    some (with_debug_mode config.debug)
    ∷ some (with_ws_path config.ws_path)
    ∷ some (with_is_websocket config.is_websocket)
    ∷ some (with_session_modifer (app * 2 ^ 48 % 2 ^ 64))
    ∷ some (with_recv_buff_size config.recv_buff_size)
    ∷ some (with_send_backlog config.send_backlog)
    ∷ some (with_recv_backlog config.recv_backlog)
    ∷ some (with_heartbeat_interval config.heartbeat)
    ∷ some (with_handshake_timeout config.handshake_timeout)
    ∷ []

abbrev pub config_options : ℕ → GatewayConfig → List (Option (Settings → Settings))
config_options app config =
    if uses_tsl config
    then base_options app config ++ (some (with_tsl_config config.cert_file config.key_file) ∷ [])
    else base_options app config

-- `int32(n)`
unfoldable pub to_int32 : ℤ → ℤ
to_int32 (pos n) = let r = n % 2 ^ 32 in if ltb r (2 ^ 31) then pos r else negsuc (2 ^ 32 - 1 - r)
to_int32 (negsuc n) =
    let r = n % 2 ^ 32 in if ltb r (2 ^ 31) then negsuc r else pos (2 ^ 32 - 1 - r)

-- `strconv.Atoi` and `%d` are parameters.
module _ (atoi : Text → Option ℤ) (itoa : ℤ → Text) where
  -- `Listen` behind the split. Its last test, for a missing port, comes behind the use of the port.
  unfoldable pub listen_at : Settings → Text × Option Text → Listened
  unfolding to_int32
  listen_at s (host, none) = panic
  listen_at s (host, some text) = elim (atoi text) [
    | none ↦ invalid_address
    | some n ↦
        bound s (record {
          host = scheme s ++ host;
          port = to_int32 n;
          bind_addr = 58 ∷ itoa (to_int32 n);
        })
  ]

  unfoldable pub listen : Text → List (Option (Settings → Settings)) → Listened
  unfolding new_default_server split_colon
  listen addr opts = listen_at (configured new_default_server opts) (split_colon addr)

  unfoldable pub new_config_server : ℕ → GatewayConfig → Listened
  unfolding listen
  new_config_server app config = listen config.bind (config_options app config)
