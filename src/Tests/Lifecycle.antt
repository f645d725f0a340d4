-- ===== src/Tests/Lifecycle.antt =====
-- The theorems on start, stop, the configuration's memory and the time stamps at concrete inputs.
use sentry_peer.Base.{some, ◌&&◌}
use sentry_peer.Base.{
  ℕ, ◌≤◌, ◌≡◌, ◌↔◌, ◌++◌, refl, arith, length, false, Option, none, List, [], ◌∷◌, replicate,
}
use sentry_peer.World.{pure, ◌>>=◌}
use sentry_peer.World.Calls.{sigint, sighup, pthread_cancel}
use sentry_peer.World.Ends.{Ends, ended, Holding, Never}
use sentry_peer.Conf.Settings.{Config, sentrypeer_config_new, process_env_vars, if_set}
use sentry_peer.Conf.Cli.{process_cli, cli_option}
use sentry_peer.Conf.Lifetime.{new_config, sentrypeer_config_destroy}
use sentry_peer.Conf.Lifetime.Memory.{new_config-destroy}
use sentry_peer.Start.Main.{start_daemons, stop_daemons, main}
use sentry_peer.Start.Services.{running, nothing_runs, Up}
use sentry_peer.Start.Wanted.{wanted, SameModes, Listens, listener}
use sentry_peer.Start.Starting.{start_daemons-Wanted}
use sentry_peer.Start.Lifecycle.{main-Stops}
use sentry_peer.Start.Unstarted.{threads, stop_daemons-unstarted}
use sentry_peer.Utils.{event_timestamp, padded_six, decimal}
use sentry_peer.Utils.Timestamp.{event_timestamp-length}
use sentry_peer.Tests.Data.{kind_env, busy_world, c_build, short_defaults, loud_config}

new_config-destroy_example :
    Ends Never
      (λ _ w'. Holding (7 ∷ 3 ∷ []) w')
      ((new_config kind_env c_build short_defaults >>= λ r.
          pure r.0 >>= λ config. sentrypeer_config_destroy c_build config r.1)
        busy_world)
new_config-destroy_example =
    new_config-destroy kind_env c_build short_defaults (λ config. pure config)
      (λ config xs w h. ended h) (7 ∷ 3 ∷ []) busy_world (record { same = λ a. refl })

-- With the API, on the DHT, and a SIGHUP some time before a SIGINT.
main-Stops_example :
    Ends Never
      (λ code w'. (code ≡ 0) × Up nothing_runs busy_world.live w')
      (main kind_env c_build
        (λ _. none)
        none
        short_defaults
        (λ c. c)
        ((b'a', []) ∷ (b'p', []) ∷ [])
        ([] ∷ (sighup ∷ []) ∷ (sigint ∷ []) ∷ [])
        busy_world)
unfolding running process_cli cli_option process_env_vars if_set sentrypeer_config_new
main-Stops_example =
    main-Stops kind_env (λ _ _. refl) c_build (λ _. none) none short_defaults (λ c. c)
      ((b'a', []) ∷ (b'p', []) ∷ []) ([] ∷ (sighup ∷ []) ∷ (sigint ∷ []) ∷ []) busy_world refl
      (λ uuid. (refl, refl, refl)) refl

-- A node without a SIP daemon.
abbrev quiet_config : Config
quiet_config = record loud_config { sip_mode = false; dht_node = false }

start_daemons-Wanted_example :
    Ends Never
      (λ c w'.
        (ctx : Option ℕ) × (t : ℕ) × SameModes
          (record loud_config { dht_op_token = ctx; sip_daemon_thread = t })
          c
        × Listens (c_build.have_opendht && loud_config.p2p_dht_mode) ctx
        × Up (wanted c_build loud_config t) (listener ctx ++ (7 ∷ 3 ∷ [])) w')
      (start_daemons kind_env c_build loud_config busy_world)
unfolding running sentrypeer_config_new
start_daemons-Wanted_example =
    start_daemons-Wanted kind_env (λ _ _. refl) c_build loud_config refl
      (record { services = refl; heap = record { same = λ a. refl } })

stop_daemons-unstarted_example :
    Ends
      (λ _. Unit {0})
      (λ _ w'. threads w'.trace ≡ pthread_cancel 0 ∷ [])
      ((start_daemons kind_env c_build quiet_config >>= stop_daemons kind_env c_build) busy_world)
unfolding sentrypeer_config_new
stop_daemons-unstarted_example =
    stop_daemons-unstarted kind_env c_build quiet_config busy_world refl refl

abbrev new_year : List ℕ
new_year = replicate 19 b'0'

-- One millisecond is printed as `.1000000`.
event_timestamp-length_example :
    let text = new_year ++ b'.' ∷ padded_six (decimal 19 1000000) in
    (event_timestamp new_year 1000000 ≡ some text)
    × (26 ≤ length text)
    × (length text ≤ 29)
    × ((length text ≡ 29) ↔ (100000000 ≤ 1000000))
event_timestamp-length_example = event_timestamp-length new_year 1000000 refl (omega arith)
