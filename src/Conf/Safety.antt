-- ===== src/Conf/Safety.antt =====
-- The bounds of the configuration's buffers, from the constructor over the environment to the command
-- line.
use sentry_peer.Base.{
  ℕ, String, Bool, true, false, Option, none, some, List, [], ◌∷◌, if◌then◌else◌, Bool-cases, inl,
  inr,
}
use sentry_peer.Conf.Buffer.{IsBuffer}
use sentry_peer.Conf.Settings.{
  Build, Config, Defaults, path_max, sentrypeer_config_new, set_db_file_location,
  set_json_log_file_location,
}
use sentry_peer.Conf.Cli.{
  CliResult, configured, usage, exits, CliOption, help, version, unknown, db_location,
  json_log_location, peer_to_peer, option_of, cli_case, cli_option, or_exit, or_exit_logging,
  cli_options, process_cli,
}
use sentry_peer.Conf.Bounds.{
  IsValid, copy_into-IsBuffer, sentrypeer_config_new-IsValid, process_env_vars-IsValid, ValidBuffer,
  file_location-ValidBuffer,
}

pub data ValidResult : CliResult → Type 0 where
  goes_on : {c : Config} → IsValid c → ValidResult (configured c)
  shows_usage : ValidResult usage
  leaves : {code : ℕ} → ValidResult (exits code)

or_exit-ValidResult :
    (f : List ℕ → Config) (r : Option (List ℕ))
    → ((buf : List ℕ) → IsBuffer path_max buf → IsValid (f buf))
    → ValidBuffer path_max r
    → ValidResult (or_exit (elim r [ none ↦ none | some buf ↦ some (f buf) ]))
or_exit-ValidResult f none step b = leaves
or_exit-ValidResult f (some buf) step b = goes_on (step buf b)

or_exit_logging-ValidResult :
    (f : List ℕ → Config) (r : Option (List ℕ))
    → ((buf : List ℕ) → IsBuffer path_max buf → IsValid (f buf))
    → ValidBuffer path_max r
    → ValidResult (or_exit_logging (elim r [ none ↦ none | some buf ↦ some (f buf) ]))
or_exit_logging-ValidResult f none step b = leaves
or_exit_logging-ValidResult f (some buf) step b = let u = step buf b in goes_on (assumption)

pick :
    {x y : CliResult} (b : Bool) → ValidResult x → ValidResult y → ValidResult (if b then x else y)
pick true p q = p
pick false p q = q

module _ (build : Build) (getenv : String → Option (List ℕ)) (cwd : Option (List ℕ))
    (d : Defaults) where
  db_location-ValidResult :
      (optarg : List ℕ) (c : Config)
      → IsValid c
      → ValidResult (cli_case build getenv cwd d db_location optarg c)
  unfolding cli_case set_db_file_location
  db_location-ValidResult optarg c v =
      or_exit-ValidResult (λ buf. record c { db_file = buf }) _ (λ buf b. assumption)
        (file_location-ValidBuffer getenv cwd "SENTRYPEER_DB_FILE" d.default_db_file_name
          (some optarg) c.db_file v.db_file)

  json_log_location-ValidResult :
      (optarg : List ℕ) (c : Config)
      → IsValid c
      → ValidResult (cli_case build getenv cwd d json_log_location optarg c)
  unfolding cli_case set_json_log_file_location
  json_log_location-ValidResult optarg c v =
      or_exit_logging-ValidResult (λ buf. record c { json_log_file = buf }) _ (λ buf b. assumption)
        (file_location-ValidBuffer getenv cwd "SENTRYPEER_JSON_LOG_FILE"
          d.default_json_log_file_name (some optarg) c.json_log_file v.json_log_file)

  cli_case-ValidResult :
      (k : CliOption) (optarg : List ℕ) (c : Config)
      → IsValid c
      → ValidResult (cli_case build getenv cwd d k optarg c)
  unfolding cli_case
  cli_case-ValidResult help optarg c v = leaves
  cli_case-ValidResult version optarg c v = leaves
  cli_case-ValidResult unknown optarg c v = shows_usage
  cli_case-ValidResult db_location optarg c v = db_location-ValidResult optarg c v
  cli_case-ValidResult json_log_location optarg c v = json_log_location-ValidResult optarg c v
  cli_case-ValidResult peer_to_peer optarg c v = elim (Bool-cases build.have_opendht) [
    | inl e ↦ rw e (goes_on (assumption))
    | inr e ↦ rw e leaves
  ]
  cli_case-ValidResult _ optarg c v = goes_on (search copy_into-IsBuffer)

  cli_options-ValidResult :
      (options : List (ℕ × List ℕ)) (c : Config)
      → IsValid c
      → ValidResult (cli_options build getenv cwd d options c)
  unfolding cli_options cli_option
  cli_options-ValidResult [] c v = goes_on v
  cli_options-ValidResult ((o, optarg) ∷ rest) c v =
      after rest _ (cli_case-ValidResult (option_of o) optarg c v) (cli_options-ValidResult rest)
    where
      after :
          (rest : List (ℕ × List ℕ)) (r : CliResult)
          → ValidResult r
          → ((c' : Config) → IsValid c' → ValidResult (cli_options build getenv cwd d rest c'))
          → ValidResult (elim r [
            | configured c' ↦ cli_options build getenv cwd d rest c'
            | usage ↦ usage
            | exits code ↦ exits code
          ])
      after rest (configured c') (goes_on u) next = next c' u
      after rest usage shows_usage next = shows_usage
      after rest (exits code) leaves next = leaves

  -- From the constructor on, whatever the defaults, the environment, the working directory and the
  -- command line are: if `process_cli` hands a configuration on, each of its six buffers has its
  -- allocated size and ends with a NUL. The command line of a Rust build is taken to keep this.
  pub startup-IsValid :
      (process_cli_rs : Config → Config)
      → ((c : Config) → IsValid c → IsValid (process_cli_rs c))
      → (options : List (ℕ × List ℕ)) (uuid : String)
      → ValidResult (
          process_cli build getenv cwd d process_cli_rs options
            (sentrypeer_config_new build d uuid))
  unfolding process_cli
  startup-IsValid process_cli_rs keeps options uuid =
      let v = process_env_vars-IsValid getenv _ (sentrypeer_config_new-IsValid build d uuid) in
      pick build.have_rust (goes_on (keeps _ v)) (cli_options-ValidResult options _ v)
