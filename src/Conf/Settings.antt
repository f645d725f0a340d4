-- ===== src/Conf/Settings.antt =====
-- The struct `sentrypeer_config` of src/conf.h, its constructor, and the two sources of settings:
-- `process_env_vars` and the `getopt` loop of `process_cli` in src/conf.c.
use sentry_peer.Base.{
  ℕ, suc, ◌-◌, String, Bool, true, false, Option, none, some, List, [], ◌∷◌, ◌==◌, if◌then◌else◌,
  replicate,
}
use sentry_peer.World.{Str}
use sentry_peer.Conf.Buffer.{util_copy_string, strncat, strlen, getcwd}

-- `#if HAVE_RUST`, `#if HAVE_OPENDHT_C`.
pub record Build : Type 0 where
  pub have_rust : Bool
  pub have_opendht : Bool

-- The fields that the modelled code uses; the handle of the SIP channel and the modes of the two
-- agents are left out. The blocks that the pointers name are in Conf/Lifetime.
pub record Config : Type 0 where
  pub api_mode : Bool
  pub debug_mode : Bool
  pub new_mode : Bool
  pub json_log_mode : Bool
  pub p2p_dht_mode : Bool
  pub sip_mode : Bool
  pub sip_responsive_mode : Bool
  pub syslog_mode : Bool
  pub verbose_mode : Bool
  pub webhook_mode : Bool
  pub oauth2_mode : Bool
  pub webhook_url : List ℕ
  pub oauth2_client_id : List ℕ
  pub oauth2_client_secret : List ℕ
  pub oauth2_access_token : Option Str
  pub db_file : List ℕ
  pub json_log_file : List ℕ
  pub node_id : String
  pub p2p_bootstrap_node : List ℕ
  pub sip_daemon_thread : ℕ
  pub http_daemon : Bool  -- whether the pointer is set
  pub dht_node : Bool  -- whether the DHT runner is set
  pub dht_op_token : Option ℕ  -- the token, as the block of the context that its listener holds

abbrev pub path_max : ℕ
path_max = 4096

abbrev pub dns_max_length : ℕ
dns_max_length = 256

-- The defaults of the `#define` lines, as bytes.
pub record Defaults : Type 0 where
  pub default_db_file_name : List ℕ
  pub default_json_log_file_name : List ℕ
  pub bootstrap_node : List ℕ
  pub default_webhook_url : List ℕ
  pub default_client_id : List ℕ
  pub default_client_secret : List ℕ

unfoldable pub calloc : ℕ → List ℕ
calloc n = replicate n 0

-- The buffer after `util_copy_string`, whose result the callers drop. They pass a positive length,
-- so its assertion holds.
unfoldable pub copy_into : List ℕ → List ℕ → ℕ → List ℕ
copy_into dest src n = elim (util_copy_string dest src n) [ none ↦ dest | some (dest', _) ↦ dest' ]

-- The constructor does not write `http_daemon`, `dht_node` and `dht_op_token`; null is what the
-- save's assertion is meant to find.
unfoldable pub sentrypeer_config_new : Build → Defaults → String → Config
sentrypeer_config_new build d uuid = record {
  api_mode = false;
  debug_mode = false;
  new_mode = build.have_rust;
  json_log_mode = false;
  p2p_dht_mode = false;
  sip_mode = true;
  sip_responsive_mode = false;
  syslog_mode = false;
  verbose_mode = false;
  webhook_mode = false;
  oauth2_mode = false;
  webhook_url = copy_into (calloc (suc dns_max_length)) d.default_webhook_url dns_max_length;
  oauth2_client_id = copy_into (calloc (suc dns_max_length)) d.default_client_id dns_max_length;
  oauth2_client_secret =
      copy_into (calloc (suc dns_max_length)) d.default_client_secret dns_max_length;
  oauth2_access_token = none;
  db_file = copy_into (calloc (suc path_max)) d.default_db_file_name path_max;
  json_log_file = copy_into (calloc (suc path_max)) d.default_json_log_file_name path_max;
  node_id = uuid;
  p2p_bootstrap_node = copy_into (calloc (suc dns_max_length)) d.bootstrap_node dns_max_length;
  sip_daemon_thread = 0;
  http_daemon = false;
  dht_node = false;
  dht_op_token = none;
}

-- The assignments that an option or an environment variable makes.
abbrev pub set_db_file : List ℕ → Config → Config
set_db_file v c = record c { db_file = copy_into c.db_file v path_max }

abbrev pub set_json_log_file : List ℕ → Config → Config
set_json_log_file v c = record c { json_log_file = copy_into c.json_log_file v path_max }

abbrev pub set_bootstrap_node : List ℕ → Config → Config
set_bootstrap_node v c = record c {
  p2p_bootstrap_node = copy_into c.p2p_bootstrap_node v dns_max_length;
}

abbrev pub set_client_id : List ℕ → Config → Config
set_client_id v c = record c {
  oauth2_client_id = copy_into c.oauth2_client_id v dns_max_length;
  oauth2_mode = true;
}

abbrev pub set_client_secret : List ℕ → Config → Config
set_client_secret v c = record c {
  oauth2_client_secret = copy_into c.oauth2_client_secret v dns_max_length;
  oauth2_mode = true;
}

abbrev pub set_webhook_url : List ℕ → Config → Config
set_webhook_url v c = record c {
  webhook_url = copy_into c.webhook_url v dns_max_length;
  webhook_mode = true;
}

-- `if (getenv(NAME)) { … }`
unfoldable pub if_set : Option (List ℕ) → (List ℕ → Config → Config) → Config → Config
if_set none f c = c
if_set (some v) f c = f v c

infixl 6 ◌▷◌
abbrev pub ◌▷◌ : Config → (Config → Config) → Config
c ▷ f = f c

unfoldable pub process_env_vars : (String → Option (List ℕ)) → Config → Config
process_env_vars getenv c =
    c
    ▷ if_set (getenv "SENTRYPEER_DB_FILE") set_db_file
    ▷ if_set (getenv "SENTRYPEER_JSON_LOG_FILE")
        (λ v c'. record (set_json_log_file v c') { json_log_mode = true })
    ▷ if_set (getenv "SENTRYPEER_BOOTSTRAP_NODE") set_bootstrap_node
    ▷ if_set (getenv "SENTRYPEER_API") (λ _ c'. record c' { api_mode = true })
    ▷ if_set (getenv "SENTRYPEER_OAUTH2_CLIENT_ID") set_client_id
    ▷ if_set (getenv "SENTRYPEER_OAUTH2_CLIENT_SECRET") set_client_secret
    ▷ if_set (getenv "SENTRYPEER_WEBHOOK_URL") set_webhook_url
    ▷ if_set (getenv "SENTRYPEER_SIP_RESPONSIVE") (λ _ c'. record c' { sip_responsive_mode = true })
    ▷ if_set (getenv "SENTRYPEER_SIP_DISABLE") (λ _ c'. record c' { sip_mode = false })
    ▷ if_set (getenv "SENTRYPEER_SYSLOG") (λ _ c'. record c' { syslog_mode = true })
    ▷ if_set (getenv "SENTRYPEER_JSON_LOG") (λ _ c'. record c' { json_log_mode = true })
    ▷ if_set (getenv "SENTRYPEER_PEER_TO_PEER") (λ _ c'. record c' { p2p_dht_mode = true })
    ▷ if_set (getenv "SENTRYPEER_VERBOSE") (λ _ c'. record c' { verbose_mode = true })
    ▷ if_set (getenv "SENTRYPEER_DEBUG") (λ _ c'. record c' { debug_mode = true })

-- What a buffer holds once the current directory and a file name are in it: `none` when `getcwd` fails.
unfoldable pub in_working_dir : Option (List ℕ) → List ℕ → List ℕ → Option (List ℕ)
in_working_dir cwd name buf = elim (getcwd cwd buf path_max) [
  | none ↦ none
  | some dir ↦
      (let slashed = strncat dir (b'/' ∷ []) (path_max - strlen dir) in
        some (strncat slashed name (path_max - strlen slashed)))
]

abbrev pub is_absolute : List ℕ → Bool
is_absolute [] = false
is_absolute (c ∷ _) = c == b'/'

-- `set_db_file_location` and `set_json_log_file_location`, which differ in the buffer and in the
-- name alone. `none` is EXIT_FAILURE.
module _ (getenv : String → Option (List ℕ)) (cwd : Option (List ℕ)) where
  unfoldable pub file_location : String → List ℕ → Option (List ℕ) → List ℕ → Option (List ℕ)
  file_location var name none buf = elim (getenv var) [
    | none ↦ in_working_dir cwd name buf
    | some v ↦ some (copy_into buf v path_max)
  ]
  file_location var name (some location) buf =
      if is_absolute location then some (copy_into buf location path_max) else none

  module _ (d : Defaults) where
    unfoldable pub set_db_file_location : Config → Option (List ℕ) → Option Config
    unfolding file_location
    set_db_file_location c location =
        elim (file_location "SENTRYPEER_DB_FILE" d.default_db_file_name location c.db_file) [
          | none ↦ none
          | some buf ↦ some (record c { db_file = buf })
        ]

    unfoldable pub set_json_log_file_location : Config → Option (List ℕ) → Option Config
    unfolding file_location
    set_json_log_file_location c location =
        elim (file_location "SENTRYPEER_JSON_LOG_FILE" d.default_json_log_file_name location
          c.json_log_file) [ none ↦ none | some buf ↦ some (record c { json_log_file = buf }) ]
