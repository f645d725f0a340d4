-- ===== src/Conf/Cli.antt =====
-- The `getopt` loop of `process_cli` in src/conf.c. An option is its character and its argument.
use sentry_peer.Base.{
  ℕ, String, true, false, Option, none, some, List, [], ◌∷◌, ◌==◌, if◌then◌else◌,
}
use sentry_peer.Conf.Settings.{
  Build, Config, Defaults, set_bootstrap_node, set_client_id, set_client_secret, set_webhook_url,
  process_env_vars, set_db_file_location, set_json_log_file_location,
}

pub data CliResult : Type 0 where
  configured : Config → CliResult  -- EXIT_SUCCESS, or the next option
  usage : CliResult  -- the usage text and EXIT_FAILURE
  exits : ℕ → CliResult  -- exit()

abbrev pub or_exit : Option Config → CliResult
or_exit none = exits 1
or_exit (some c) = configured c

abbrev pub or_exit_logging : Option Config → CliResult
or_exit_logging none = exits 1
or_exit_logging (some c) = configured (record c { json_log_mode = true })

-- The cases of the `switch`, by their characters.
pub data CliOption : Type 0 where
  help version bootstrap db_location json_log_location api client_secret debug : CliOption
  responsive no_sip client_id json_log peer_to_peer use_syslog verbose webhook unknown : CliOption

unfoldable pub option_of : ℕ → CliOption
option_of o =
    if o == b'h'
    then help
    else if o == b'V'
    then version
    else if o == b'b'
    then bootstrap
    else if o == b'f'
    then db_location
    else if o == b'l'
    then json_log_location
    else if o == b'a'
    then api
    else if o == b'c'
    then client_secret
    else if o == b'd'
    then debug
    else if o == b'r'
    then responsive
    else if o == b'R'
    then no_sip
    else if o == b'i'
    then client_id
    else if o == b'j'
    then json_log
    else if o == b'p'
    then peer_to_peer
    else if o == b's'
    then use_syslog
    else if o == b'v'
    then verbose
    else if o == b'w'
    then webhook
    else unknown

module _ (build : Build) (getenv : String → Option (List ℕ)) (cwd : Option (List ℕ))
    (d : Defaults) where
  -- The statements of each case.
  unfoldable pub cli_case : CliOption → List ℕ → Config → CliResult
  cli_case help optarg c = exits 0
  cli_case version optarg c = exits 0
  cli_case bootstrap optarg c = configured (set_bootstrap_node optarg c)
  cli_case db_location optarg c = or_exit (set_db_file_location getenv cwd d c (some optarg))
  cli_case json_log_location optarg c =
      or_exit_logging (set_json_log_file_location getenv cwd d c (some optarg))
  cli_case api optarg c = configured (record c { api_mode = true })
  cli_case client_secret optarg c = configured (set_client_secret optarg c)
  cli_case debug optarg c = configured (record c { debug_mode = true })
  cli_case responsive optarg c = configured (record c { sip_responsive_mode = true })
  cli_case no_sip optarg c = configured (record c { sip_mode = false })
  cli_case client_id optarg c = configured (set_client_id optarg c)
  cli_case json_log optarg c = configured (record c { json_log_mode = true })
  cli_case peer_to_peer optarg c =
      if build.have_opendht then configured (record c { p2p_dht_mode = true }) else exits 1
  cli_case use_syslog optarg c = configured (record c { syslog_mode = true })
  cli_case verbose optarg c = configured (record c { verbose_mode = true })
  cli_case webhook optarg c = configured (set_webhook_url optarg c)
  cli_case unknown optarg c = usage

  unfoldable pub cli_option : ℕ → List ℕ → Config → CliResult
  unfolding option_of cli_case
  cli_option o optarg c = cli_case (option_of o) optarg c

  -- The `while` loop: it ends at the first option that leaves the function.
  unfoldable pub cli_options : List (ℕ × List ℕ) → Config → CliResult
  cli_options [] c = configured c
  cli_options ((o, optarg) ∷ rest) c = elim (cli_option o optarg c) [
    | configured c' ↦ cli_options rest c'
    | usage ↦ usage
    | exits code ↦ exits code
  ]

  -- With Rust compiled in, `process_cli_rs` replaces the loop.
  unfoldable pub process_cli : (Config → Config) → List (ℕ × List ℕ) → Config → CliResult
  unfolding cli_options
  process_cli process_cli_rs options c =
      if build.have_rust
      then configured (process_cli_rs (process_env_vars getenv c))
      else cli_options options (process_env_vars getenv c)
