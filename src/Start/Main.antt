-- ===== src/Start/Main.antt =====
-- `main` of src/sentrypeer.c. The daemons' threads run beside it and are not interleaved with it here.
use sentry_peer.Base.{ℕ, String, Bool, true, not, ◌&&◌, ◌||◌, Option, List}
use sentry_peer.World.{Env, M, call, emit, pure, check, when, ◌>>=◌, ◌>>◌}
use sentry_peer.World.Calls.{Signal, openlog, syslog_message, run_sip_server_rs}
use sentry_peer.Conf.Settings.{Build, Config, Defaults}
use sentry_peer.Conf.Cli.{CliResult, configured, usage, exits, process_cli}
use sentry_peer.Conf.Lifetime.{ConfigPointers, new_config, sentrypeer_config_destroy}
use sentry_peer.Http.Daemon.{http_daemon_init, http_daemon_stop}
use sentry_peer.Dht.Node.{peer_to_peer_dht_run, peer_to_peer_dht_stop}
use sentry_peer.Sip.Daemon.Threads.{sip_daemon_run, sip_daemon_stop}
use sentry_peer.Start.Signals.{Dispositions, leave, signal_handler_init, wait_for_signal}

-- `if (config->syslog_mode) { syslog(LOG_ERR, …); }`
unfoldable pub log_if_syslog : Config → String → M (Unit {0})
log_if_syslog config format = when config.syslog_mode (emit (syslog_message format)) (pure tt)

-- The same in the debug and verbose modes only.
unfoldable pub log_progress : Config → String → M (Unit {0})
unfolding log_if_syslog
log_progress config format =
    when (config.debug_mode || config.verbose_mode) (log_if_syslog config format) (pure tt)

-- A daemon that has not started ends the program.
unfoldable pub or_leave : String → (Bool × Config) → M Config
unfolding log_if_syslog leave
or_leave format r = when r.0 (pure r.1) (do log_if_syslog r.1 format; leave 1)

module _ (env : Env) (build : Build) where
  unfoldable pub start_http : Config → M Config
  unfolding or_leave
  start_http config =
      when config.api_mode
        (http_daemon_init env config >>= or_leave "Failed to start %s server on port %d\n")
        (pure config)

  unfoldable pub start_sip : Config → M Config
  unfolding or_leave
  start_sip config =
      when config.sip_mode
        (check (when (build.have_rust && config.new_mode) (call env run_sip_server_rs) (pure true))
          (leave 1)
          (when (not config.new_mode)
            (sip_daemon_run env build config >>= or_leave "Failed to start %s server on port %s\n")
            (pure config)))
        (pure config)

  unfoldable pub start_dht : Config → M Config
  unfolding or_leave
  start_dht config =
      when (build.have_opendht && config.p2p_dht_mode)
        (peer_to_peer_dht_run env config >>= or_leave "Failed to start peer to peer DHT\n")
        (pure config)

  -- From `openlog` to the loop.
  unfoldable pub start_daemons : Config → M Config
  unfolding log_progress start_http start_sip start_dht
  start_daemons config = do
    when config.syslog_mode (emit openlog) (pure tt)
    log_progress config "Starting %s...\n"
    with_http ← start_http config
    with_sip ← start_sip with_http
    start_dht with_sip

  -- A daemon that does not stop cleanly is reported on stderr, and the rest is stopped all the same.
  unfoldable pub stop_daemons : Config → M (Unit {0})
  unfolding log_progress
  stop_daemons config = do
    log_progress config "Stopping %s...\n"
    _ ← when config.api_mode (http_daemon_stop config) (pure true)
    _ ← sip_daemon_stop env build config
    _ ← when (build.have_opendht && config.p2p_dht_mode) (peer_to_peer_dht_stop config) (pure true)
    log_progress config "Stopped %s\n"

  -- What follows `process_cli`. The result is that of `main`.
  unfoldable pub run_configured :
      Dispositions → List (List Signal) → ConfigPointers → CliResult → M ℕ
  unfolding start_daemons stop_daemons leave
  run_configured on arrivals pointers usage = leave 1
  run_configured on arrivals pointers (exits code) = leave code
  run_configured on arrivals pointers (configured config) = do
    started ← start_daemons config
    wait_for_signal on arrivals 0
    stop_daemons started
    sentrypeer_config_destroy build started pointers
    pure 0

  module _ (getenv : String → Option (List ℕ)) (cwd : Option (List ℕ)) (d : Defaults)
      (process_cli_rs : Config → Config) where
    unfoldable pub main : List (ℕ × List ℕ) → List (List Signal) → M ℕ
    unfolding run_configured
    main options arrivals = do
      (config, pointers) ← new_config env build d
      on ← signal_handler_init env
      run_configured on arrivals pointers
          (process_cli build getenv cwd d process_cli_rs options config)
