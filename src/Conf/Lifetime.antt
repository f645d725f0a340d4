-- ===== src/Conf/Lifetime.antt =====
-- The memory of the configuration: `sentrypeer_config_new` and `sentrypeer_config_destroy` of src/conf.c.
-- What the buffers hold stands in `Config`; here are the blocks that the struct's pointers name.
pub mod Owned
pub mod Memory
use sentry_peer.Base.{ℕ, String, Bool, Option, none, some, List, []}
use mathlib.Core.Option.{get_or}
use sentry_peer.World.{Env, M, Block, Str, malloc, free, ask_text, pure, when, ◌>>=◌, ◌>>◌}
use sentry_peer.World.Calls.{uuid_generate}
use sentry_peer.Actor.{free_if_set}
use sentry_peer.Conf.Settings.{Build, Config, Defaults}
use sentry_peer.Conf.Settings

-- `self` is the block of the struct. The bearer token's block is in `Config`.
pub record ConfigPointers : Type 0 where
  pub self : ℕ
  pub node_id : Option ℕ
  pub dht_info_hash : Option ℕ
  pub p2p_bootstrap_node : Option ℕ
  pub webhook_url : Option ℕ
  pub oauth2_client_id : Option ℕ
  pub oauth2_client_secret : Option ℕ
  pub db_file : Option ℕ
  pub json_log_file : Option ℕ
  pub tls_cert_file : Option ℕ
  pub tls_key_file : Option ℕ
  pub tls_listen_address : Option ℕ
  pub config_file : Option ℕ

-- A block of which only the name matters here.
unfoldable pub allocate : M ℕ
allocate = malloc {A = Unit {0}} tt >>= λ b. pure b.block

unfoldable pub allocate_if : Bool → M (Option ℕ)
unfolding allocate
allocate_if b = when b (allocate >>= λ p. pure (some p)) (pure none)

-- `if (p != 0) { free(p); p = 0; }`
unfoldable pub free_pointer : Option ℕ → M (Unit {0})
free_pointer none = pure tt
free_pointer (some b) = free b

-- The constructor with its allocations, in their order. The TLS texts are null.
unfoldable pub new_config : Env → Build → Defaults → M (Config × ConfigPointers)
unfolding allocate allocate_if
new_config env build d = do
  self ← allocate
  uuid_string ← allocate
  uuid ← ask_text env uuid_generate
  db_file ← allocate
  json_log_file ← allocate
  p2p_bootstrap_node ← allocate
  webhook_url ← allocate
  oauth2_client_id ← allocate
  oauth2_client_secret ← allocate
  dht_info_hash ← allocate_if build.have_opendht
  pure (
    Settings.sentrypeer_config_new build d (get_or uuid ""),
    record {
      self = self;
      node_id = some uuid_string;
      dht_info_hash = dht_info_hash;
      p2p_bootstrap_node = some p2p_bootstrap_node;
      webhook_url = some webhook_url;
      oauth2_client_id = some oauth2_client_id;
      oauth2_client_secret = some oauth2_client_secret;
      db_file = some db_file;
      json_log_file = some json_log_file;
      tls_cert_file = none;
      tls_key_file = none;
      tls_listen_address = none;
      config_file = none;
    },
  )

unfoldable pub sentrypeer_config_destroy : Build → Config → ConfigPointers → M (Unit {0})
unfolding free_pointer
sentrypeer_config_destroy build config p = do
  free_pointer p.node_id
  when build.have_opendht (free_pointer p.dht_info_hash) (pure tt)
  free_pointer p.p2p_bootstrap_node
  free_pointer p.webhook_url
  free_pointer p.oauth2_client_id
  free_pointer p.oauth2_client_secret
  free_if_set config.oauth2_access_token
  free_pointer p.db_file
  free_pointer p.json_log_file
  when build.have_rust
      (do
        free_pointer p.tls_cert_file
        free_pointer p.tls_key_file
        free_pointer p.tls_listen_address
        free_pointer p.config_file)
      (pure tt)
  free p.self
