-- ===== src/Gate/Server/Address.antt =====
-- The address that a server made from a configuration listens on. (gate/server.go)
use gira.Prelude.{
  ℕ, ◌+◌, ltb, ◌&&◌, ◌%◌, ◌^◌, ◌<◌, ◌≡◌, ◌≢◌, ◌⊎◌, ◌↔◌, inl, inr, refl, sym, ap, ◌∙◌, subst, Bool,
  true, false, Bool-cases, Option, none, some, [], ◌∷◌, ◌++◌, All, eqb, eqb_iff, arith, length,
  if◌then◌else◌,
}
use gira.Prelude.Int.{ℤ, pos, negsuc}
use gira.Gate.Server.{
  Text, Settings, GatewayConfig, Listened, split_colon, scheme, to_int32, bound, invalid_address,
  panic, listen_at, listen, uses_tsl, new_config_server,
}
use gira.Gate.Server.Listening.{settings_of, configured-config_options}

abbrev pub NoColon : Text → Type 0
NoColon = All (λ c. c ≢ 58)

split_colon-NoColon : (addr : Text) → NoColon addr → split_colon addr ≡ (addr, none)
unfolding split_colon
split_colon-NoColon [] h = refl
split_colon-NoColon (c ∷ addr) h = grind (arith, eqb_iff c 58, split_colon-NoColon addr h.1, h.0)

split_colon-append :
    (host port : Text) → NoColon host → split_colon (host ++ 58 ∷ port) ≡ (host, some port)
unfolding split_colon
split_colon-append [] port h = refl
split_colon-append (c ∷ host) port h =
    grind (arith, eqb_iff c 58, split_colon-append host port h.1, h.0)

-- A text has no colon, or a first one.
split_colon_cases :
    (addr : Text) → NoColon addr ⊎ ((host port : Text) × NoColon host × (addr ≡ host ++ 58 ∷ port))
split_colon_cases [] = inl tt
split_colon_cases (c ∷ addr) = elim (Bool-cases (eqb c 58)) [
  | inl e ↦ inr ([], addr, tt, ap (λ x. x ∷ addr) ((eqb_iff c 58).0 e))
  | inr n ↦ elim (split_colon_cases addr) [
    | inl h ↦ inl (ground (arith, eqb_iff c 58), h)
    | inr (host, port, h, e) ↦
        inr (c ∷ host, port, (ground (arith, eqb_iff c 58), h), ap (λ x. c ∷ x) e)
  ]
]

-- A configuration asks for TLS, and names both files.
abbrev pub IsSecure : GatewayConfig → Type 0
IsSecure config = (config.ssl ≡ true) × (config.cert_file ≢ []) × (config.key_file ≢ [])

uses_tsl-IsSecure : (config : GatewayConfig) → (uses_tsl config ≡ true) ↔ IsSecure config
uses_tsl-IsSecure config = go config.ssl config.cert_file config.key_file
  where
    go :
        (ssl : Bool) (cert key : Text)
        → ((ssl && (ltb 0 (length cert) && ltb 0 (length key))) ≡ true)
          ↔ ((ssl ≡ true) × (cert ≢ []) × (key ≢ []))
    go false cert key = (λ h. cc, λ h. cc)
    go true [] key = (λ h. cc, λ h. elim (h.1 refl) [ ])
    go true (c ∷ cert) [] = (λ h. ground arith, λ h. elim (h.2 refl) [ ])
    go true (c ∷ cert) (k ∷ key) = (λ h. (refl, λ e. cc, λ e. cc), λ h. ground arith)

-- "wss://" and "ws://" of a websocket, with TLS and without.
abbrev pub IsScheme : Bool → Bool → Text → Type 0
IsScheme false secure text = text ≡ []
IsScheme true true text = text ≡ 119 ∷ 115 ∷ 115 ∷ 58 ∷ 47 ∷ 47 ∷ []
IsScheme true false text = text ≡ 119 ∷ 115 ∷ 58 ∷ 47 ∷ 47 ∷ []

scheme-IsScheme :
    (app : ℕ) (config : GatewayConfig) (secure : Bool)
    → (secure ≡ true → config.cert_file ≢ [])
    → IsScheme config.is_websocket secure (scheme (settings_of app config secure))
scheme-IsScheme app config secure h = go config.is_websocket secure config.cert_file h
  where
    go :
        (websocket secure : Bool) (cert : Text)
        → (secure ≡ true → cert ≢ [])
        → IsScheme websocket secure (
            if websocket
            then (if eqb (length (if secure then cert else [])) 0
                then 119 ∷ 115 ∷ 58 ∷ 47 ∷ 47 ∷ []
                else 119 ∷ 115 ∷ 115 ∷ 58 ∷ 47 ∷ 47 ∷ [])
            else [])
    go false secure cert h = refl
    go true false cert h = refl
    go true true [] h = elim (h refl refl) [ ]
    go true true (c ∷ cert) h = ground (arith, eqb_iff (length (c ∷ cert)) 0)

-- Two integers differ by a multiple of 2^32, and the second is one of 32 bits.
abbrev pub IsInt32Of : ℤ → ℤ → Type 0
IsInt32Of (pos n) (pos r) = (r < 2 ^ 31) × (n % 2 ^ 32 ≡ r)
IsInt32Of (pos n) (negsuc r) = (r < 2 ^ 31) × ((n + r + 1) % 2 ^ 32 ≡ 0)
IsInt32Of (negsuc n) (pos r) = (r < 2 ^ 31) × ((n + 1 + r) % 2 ^ 32 ≡ 0)
IsInt32Of (negsuc n) (negsuc r) = (r < 2 ^ 31) × (n % 2 ^ 32 ≡ r)

to_int32-IsInt32Of : (n : ℤ) → IsInt32Of n (to_int32 n)
unfolding to_int32
to_int32-IsInt32Of (pos n) = elim (Bool-cases (ltb (n % 2 ^ 32) (2 ^ 31))) [
  | inl h ↦ rw (h) (ground arith, refl)
  | inr h ↦ rw (h) (ground arith, ground arith)
]
to_int32-IsInt32Of (negsuc n) = elim (Bool-cases (ltb (n % 2 ^ 32) (2 ^ 31))) [
  | inl h ↦ rw (h) (ground arith, refl)
  | inr h ↦ rw (h) (ground arith, ground arith)
]

module _ (atoi : Text → Option ℤ) (itoa : ℤ → Text) where
  -- What a configuration is answered: the address has no colon; the text behind its first colon is
  -- no number; or the server has the settings of the configuration, and listens.
  pub data IsAnswer (app : ℕ) (config : GatewayConfig) : Listened → Type 0 where
    no_colon : NoColon config.bind → IsAnswer app config panic
    no_number :
        (host port : Text)
        → NoColon host
        → config.bind ≡ host ++ 58 ∷ port
        → atoi port ≡ none
        → IsAnswer app config invalid_address
    listens :
        (host port text : Text) (n p : ℤ) (secure : Bool)
        → NoColon host
        → config.bind ≡ host ++ 58 ∷ port
        → atoi port ≡ some n
        → IsInt32Of n p
        → (secure ≡ true) ↔ IsSecure config
        → IsScheme config.is_websocket secure text
        → IsAnswer app config (
            bound
              (settings_of app config secure)
              (record { host = text ++ host; port = p; bind_addr = 58 ∷ itoa p }))

  panicked :
      (app : ℕ) (config : GatewayConfig)
      → NoColon config.bind
      → IsAnswer app config
          (listen_at atoi itoa (settings_of app config (uses_tsl config)) (config.bind, none))
  unfolding listen_at
  panicked app config h = no_colon h

  answered :
      (app : ℕ) (config : GatewayConfig) (host port : Text)
      → NoColon host
      → config.bind ≡ host ++ 58 ∷ port
      → (x : Option ℤ) → atoi port ≡ x
      → IsAnswer app config
          (listen_at atoi itoa (settings_of app config (uses_tsl config)) (host, some port))
  unfolding listen_at
  answered app config host port h e none bad = rw (listen_at, bad) (no_number host port h e bad)
  answered app config host port h e (some n) good =
      let secure = uses_tsl-IsSecure config in
      let text = scheme (settings_of app config (uses_tsl config)) in
      rw (listen_at, good)
        (listens host port text n (to_int32 n) (uses_tsl config) h e good (to_int32-IsInt32Of n)
          secure (scheme-IsScheme app config (uses_tsl config) (λ b. (secure.0 b).1)))

  -- `NewConfigServer` panics if the address of the configuration has no colon. Else it takes the
  -- text before the first colon as host and the text behind it as port, and says that the address
  -- is invalid if that is no number. Else the server has the settings of the configuration, and its
  -- certificate and key exactly if it asks for TLS and names both; the host has "wss://" in front
  -- for a websocket with them, "ws://" for one without, and else nothing; the port is the number of
  -- 32 bits with a sign that differs from the one read by a multiple of 2^32, and stands in the
  -- address to bind.
  pub new_config_server-IsAnswer :
      (app : ℕ) (config : GatewayConfig)
      → IsAnswer app config (new_config_server atoi itoa app config)
  unfolding new_config_server listen
  new_config_server-IsAnswer app config =
      let s : Settings = settings_of app config (uses_tsl config) in
      let same : new_config_server atoi itoa app config
          ≡ listen_at atoi itoa s (split_colon config.bind) =
        ap (λ x. listen_at atoi itoa x (split_colon config.bind))
          (configured-config_options app config) in
      subst (IsAnswer app config) (sym same) (elim (split_colon_cases config.bind) [
        | inl h ↦
            subst (λ x. IsAnswer app config (listen_at atoi itoa s x))
              (sym (split_colon-NoColon config.bind h)) (panicked app config h)
        | inr (host, port, h, e) ↦
            subst (λ x. IsAnswer app config (listen_at atoi itoa s x))
              (sym (ap split_colon e ∙ split_colon-append host port h))
              (answered app config host port h e (atoi port) refl)
      ])
