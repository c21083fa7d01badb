-- ===== src/Gate/Server/Listening.antt =====
-- The address of a server, and the settings of one made from a configuration. (gate/server.go)
use gira.Prelude.{
  ℕ, ◌*◌, ◌%◌, ◌^◌, ◌<◌, if◌then◌else◌, ◌≡◌, ◌≢◌, ap, refl, ◌∙◌, Bool, true, false, Option, none,
  some, List, [], ◌∷◌, ◌++◌, arith,
}
use gira.Prelude.Int.{ℤ}
use gira.Gate.Session.{new_session}
use gira.Gate.Server.{
  base_options, config_options, with_tsl_config, Text, Settings, Bound, GatewayConfig, configured,
  new_default_server, split_colon, bound, listen_at, listen, uses_tsl, new_config_server,
}

-- What a configuration asks for, with or without TLS.
abbrev pub settings_of : ℕ → GatewayConfig → Bool → Settings
settings_of app config secure = record {
  is_websocket = config.is_websocket;
  tsl_certificate = if secure then config.cert_file else [];
  tsl_key = if secure then config.key_file else [];
  heartbeat = config.heartbeat;
  debug = config.debug;
  ws_path = config.ws_path;
  rsa_private_key = [];
  session_modifer = app * 2 ^ 48 % 2 ^ 64;
  handshake_timeout = config.handshake_timeout;
  send_backlog = config.send_backlog;
  recv_backlog = config.recv_backlog;
  recv_buff_size = config.recv_buff_size;
}

-- The options of a configuration set what it asks for.
pub configured-config_options :
    (app : ℕ) (config : GatewayConfig)
    → configured new_default_server (config_options app config)
      ≡ settings_of app config (uses_tsl config)
unfolding new_default_server
configured-config_options app config = chosen (uses_tsl config)
  where
    chosen :
        (u : Bool)
        → configured new_default_server (
            if u
            then base_options app config
              ++ (some (with_tsl_config config.cert_file config.key_file) ∷ [])
            else base_options app config)
          ≡ settings_of app config u
    chosen true = refl
    chosen false = refl

module _ (atoi : Text → Option ℤ) (itoa : ℤ → Text) where
  listen-settings :
      (addr : Text) (opts : List (Option (Settings → Settings))) (s : Settings) (b : Bound)
      → listen atoi itoa addr opts ≡ bound s b
      → s ≡ configured new_default_server opts
  unfolding listen listen_at
  listen-settings addr opts s b e = go (split_colon addr) e
    where
      go :
          (x : Text × Option Text)
          → listen_at atoi itoa (configured new_default_server opts) x ≡ bound s b
          → s ≡ configured new_default_server opts
      go (host, none) q = cc
      go (host, some text) q = grind arith

  -- A server that `NewConfigServer` makes has the settings of the configuration, its certificate
  -- and key only if it asks for TLS and names both files, and the id of the process in the upper 16
  -- bits of its session ids.
  pub new_config_server_lem :
      (app : ℕ) (config : GatewayConfig) (s : Settings) (b : Bound)
      → new_config_server atoi itoa app config ≡ bound s b
      → s ≡ settings_of app config (uses_tsl config)
  unfolding new_config_server
  new_config_server_lem app config s b e =
      listen-settings config.bind (config_options app config) s b e
      ∙ configured-config_options app config

  -- Servers made by `NewConfigServer` for two processes with different ids below 2^16 never give
  -- two sessions the same id, as long as each process makes fewer than 2^48 sessions.
  pub new_config_server-ids_differ :
      (app other : ℕ) (config config' : GatewayConfig) (s t : Settings) (b b' : Bound) (m n : ℕ)
      → new_config_server atoi itoa app config ≡ bound s b
      → new_config_server atoi itoa other config' ≡ bound t b'
      → app < 2 ^ 16
      → other < 2 ^ 16
      → app ≢ other
      → m < 2 ^ 48
      → n < 2 ^ 48
      → (new_session m s.session_modifer).id ≢ (new_session n t.session_modifer).id
  unfolding new_session
  new_config_server-ids_differ app other config config' s t b b' m n e e' la lo differ lm ln =
      let first =
        ap (λ (x : Settings). x.session_modifer) (new_config_server_lem app config s b e) in
      let other_first =
        ap (λ (x : Settings). x.session_modifer) (new_config_server_lem other config' t b' e') in
      omega arith
