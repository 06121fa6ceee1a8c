-- ===== src/Config/Env.antt =====
-- `envConfigKey` of config.go: from the name of an environment variable to a key of the configuration.
use turjmp.Prelude.{
  ◌&&◌, Option, none, some, List, [], ◌∷◌, ◌==◌, if◌then◌else◌, length, drop, Text, codes, text_eq,
}
use turjmp.Strings.{to_lower, has_prefix, replace_all}
use turjmp.Store.Permission.{contains}

-- strings.TrimPrefix
unfoldable pub trim_prefix : Text → Text → Text
trim_prefix s prefix = if has_prefix s prefix then drop (length prefix) s else s

-- strings.ReplaceAll of two underscores by a dot.
unfoldable pub dots_for_pairs : Text → Text
dots_for_pairs [] = []
dots_for_pairs (c ∷ []) = c ∷ []
dots_for_pairs (c ∷ d ∷ s) =
    let paired = dots_for_pairs s in
    let single = dots_for_pairs (d ∷ s) in
    if c == b'_' && d == b'_' then b'.' ∷ paired else c ∷ single

-- `legacyEnvKeys`, in which every name maps to the key on its line.
abbrev pub legacy_env_keys : List (Text × Text)
legacy_env_keys =
    (codes "app_name", codes "app.name")
    ∷ (codes "app_environment", codes "app.environment")
    ∷ (codes "http_addr", codes "http.addr")
    ∷ (codes "http_shutdown_timeout_seconds", codes "http.shutdown_timeout_seconds")
    ∷ (codes "database_driver", codes "database.driver")
    ∷ (codes "database_dsn", codes "database.dsn")
    ∷ (codes "database_migrations_dir", codes "database.migrations_dir")
    ∷ (codes "security_encryption_key", codes "security.encryption_key")
    ∷ (codes "security_password_min_length", codes "security.password_min_length")
    ∷ (codes "jwt_private_key_path", codes "jwt.private_key_path")
    ∷ (codes "jwt_public_key_path", codes "jwt.public_key_path")
    ∷ (codes "jwt_access_ttl_seconds", codes "jwt.access_ttl_seconds")
    ∷ (codes "jwt_refresh_ttl_seconds", codes "jwt.refresh_ttl_seconds")
    ∷ (codes "proxy_auth_secret", codes "proxy_auth.secret")
    ∷ (codes "proxy_auth_allowed_ips", codes "proxy_auth.allowed_ips")
    ∷ (codes "proxy_api_base_url", codes "proxy.api_base_url")
    ∷ (codes "proxy_ssh_addr", codes "proxy.ssh.addr")
    ∷ (codes "proxy_ssh_max_connections", codes "proxy.ssh.max_connections")
    ∷ (codes "proxy_ssh_idle_timeout_seconds", codes "proxy.ssh.idle_timeout_seconds")
    ∷ (codes "proxy_ssh_connect_timeout_seconds", codes "proxy.ssh.connect_timeout_seconds")
    ∷ (codes "proxy_db_mysql_addr", codes "proxy.db.mysql_addr")
    ∷ (codes "proxy_db_postgres_addr", codes "proxy.db.postgres_addr")
    ∷ (codes "proxy_db_max_connections", codes "proxy.db.max_connections")
    ∷ (codes "proxy_db_idle_timeout_seconds", codes "proxy.db.idle_timeout_seconds")
    ∷ (codes "proxy_db_connect_timeout_seconds", codes "proxy.db.connect_timeout_seconds")
    ∷ (codes "proxy_db_usql_path", codes "proxy.db.usql_path")
    ∷ (codes "proxy_rdp_addr", codes "proxy.rdp.addr")
    ∷ (codes "proxy_rdp_guacd_addr", codes "proxy.rdp.guacd_addr")
    ∷ (codes "proxy_rdp_recording_path", codes "proxy.rdp.recording_path")
    ∷ (codes "proxy_rdp_max_connections", codes "proxy.rdp.max_connections")
    ∷ (codes "proxy_rdp_idle_timeout_seconds", codes "proxy.rdp.idle_timeout_seconds")
    ∷ (codes "proxy_rdp_connect_timeout_seconds", codes "proxy.rdp.connect_timeout_seconds")
    ∷ (codes "proxy_rdp_native_enabled", codes "proxy.rdp.native_enabled")
    ∷ (codes "proxy_rdp_native_addr", codes "proxy.rdp.native_addr")
    ∷ (codes "proxy_rdp_native_public_host", codes "proxy.rdp.native_public_host")
    ∷ (codes "proxy_rdp_native_public_port", codes "proxy.rdp.native_public_port")
    ∷ (codes "proxy_rdp_native_cert_path", codes "proxy.rdp.native_cert_path")
    ∷ (codes "proxy_rdp_native_key_path", codes "proxy.rdp.native_key_path")
    ∷ (codes "proxy_rdp_native_engine_path", codes "proxy.rdp.native_engine_path")
    ∷ (codes "proxy_rdp_native_work_dir", codes "proxy.rdp.native_work_dir")
    ∷ (codes "totp_issuer", codes "totp.issuer")
    ∷ (codes "logging_level", codes "logging.level")
    ∷ (codes "logging_encoding", codes "logging.encoding")
    ∷ (codes "rate_limit_enabled", codes "rate_limit.enabled")
    ∷ (codes "rate_limit_requests_per_second", codes "rate_limit.requests_per_second")
    ∷ []

unfoldable pub lookup : Text → List (Text × Text) → Option Text
lookup key [] = none
lookup key ((k, v) ∷ rows) = let rest = lookup key rows in if text_eq k key then some v else rest

unfoldable pub env_config_key : Text → Text
unfolding trim_prefix dots_for_pairs lookup
env_config_key s =
    let key = to_lower (trim_prefix s (codes "TURJMP_")) in
    if contains key (codes "__") then dots_for_pairs key else elim (lookup key legacy_env_keys) [
      | some mapped ↦ mapped
      | none ↦ replace_all b'_' (codes ".") key
    ]
