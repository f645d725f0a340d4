-- ===== src/Start/Lifecycle.antt =====
-- `main` of src/sentrypeer.c from its first call to its result.
use sentry_peer.Base.{◌||◌}
use sentry_peer.Base.{
  ℕ, ◌≡◌, refl, ap, ◌∙◌, sym, subst, String, Bool, true, false, Option, none, some, List, [], ◌∷◌,
}
use sentry_peer.World.{World, Env, M, Str, malloc, ask_text, pure, when, ◌>>=◌, ◌>>◌}
use sentry_peer.World.Calls.{Signal}
use sentry_peer.World.Ends.{Ends, ended, Holding, Never, bind, mono}
use sentry_peer.Actor.{free_if_set}
use sentry_peer.Actor.Memory.{blocks_of}
use sentry_peer.Conf.Settings.{Build, Config, Defaults, sentrypeer_config_new}
use sentry_peer.Conf.Cli.{CliResult, configured, usage, exits, process_cli}
use sentry_peer.Conf.Lifetime.{
  ConfigPointers, allocate, allocate_if, free_pointer, new_config, sentrypeer_config_destroy,
}
use sentry_peer.Conf.Lifetime.Owned.{owned_with}
use sentry_peer.Conf.Lifetime.Memory.{new_config-Owns, sentrypeer_config_destroy-Holding}
use sentry_peer.Start.Signals.{dispositions}
use sentry_peer.Start.Main.{run_configured, main}
use sentry_peer.Start.Services.{
  nothing_runs, after_call, running, Succeeds, Up, free-services, both_facts,
}
use sentry_peer.Start.Starting.{start_daemons-Wanted}
use sentry_peer.Start.Stopping.{stop_daemons-Up}
use sentry_peer.Start.Waiting.{interrupted, wait_for_signal-Up, signal_handler_init-Up}

-- A run after which the same services run, however it ends.
abbrev SameServices : {A : Type 0} → M A → Type 0
SameServices m =
    (w : World) → Ends (λ _. Unit {0}) (λ _ w'. running w'.trace ≡ running w.trace) (m w)

then_same :
    {A B : Type 0} {m : M A} {k : A → M B}
    → SameServices m
    → ((a : A) → SameServices (k a))
    → SameServices (m >>= k)
then_same m k w = bind (m w) λ a w1 e. mono (k a w1) λ _ w2 f. f ∙ e

allocate-SameServices : SameServices allocate
unfolding allocate malloc
allocate-SameServices w = ended refl

allocate_if-SameServices : (b : Bool) → SameServices (allocate_if b)
unfolding allocate_if allocate malloc
allocate_if-SameServices true w = ended refl
allocate_if-SameServices false w = ended refl

free_pointer-SameServices : (p : Option ℕ) → SameServices (free_pointer p)
unfolding free_pointer
free_pointer-SameServices none w = ended refl
free_pointer-SameServices (some b) w = mono (free-services b w) λ _ _ e. ap running e

token-SameServices : (t : Option Str) → SameServices (free_if_set t)
unfolding free_if_set
token-SameServices none w = ended refl
token-SameServices (some s) w = mono (free-services s.block w) λ _ _ e. ap running e

if-SameServices : (b : Bool) {m : M (Unit {0})} → SameServices m → SameServices (when b m (pure tt))
if-SameServices true m w = m w
if-SameServices false m w = ended refl

-- The run of the constructor goes on as if its one call had come first.
new_config-SameServices :
    (env : Env) (build : Build) (d : Defaults) → SameServices (new_config env build d)
unfolding new_config allocate malloc ask_text running after_call
new_config-SameServices env build d w =
    bind (allocate_if-SameServices build.have_opendht _) λ hash w1 e. ended e

destroy-SameServices :
    (build : Build) (config : Config) (p : ConfigPointers)
    → SameServices (sentrypeer_config_destroy build config p)
unfolding sentrypeer_config_destroy
destroy-SameServices build config p = then_same (free_pointer-SameServices p.node_id) λ _.
    then_same (if-SameServices build.have_opendht (free_pointer-SameServices p.dht_info_hash)) λ _.
      then_same (free_pointer-SameServices p.p2p_bootstrap_node) λ _.
        then_same (free_pointer-SameServices p.webhook_url) λ _.
          then_same (free_pointer-SameServices p.oauth2_client_id) λ _.
            then_same (free_pointer-SameServices p.oauth2_client_secret) λ _.
              then_same (token-SameServices config.oauth2_access_token) λ _.
                then_same (free_pointer-SameServices p.db_file) λ _.
                  then_same (free_pointer-SameServices p.json_log_file) λ _.
                    then_same (if-SameServices build.have_rust tls)
                      λ _. λ w. mono (free-services p.self w) λ _ _ e. ap running e
  where
    tls : SameServices (do
      free_pointer p.tls_cert_file
      free_pointer p.tls_key_file
      free_pointer p.tls_listen_address
      free_pointer p.config_file)
    tls = then_same (free_pointer-SameServices p.tls_cert_file) λ _.
        then_same (free_pointer-SameServices p.tls_key_file) λ _.
          then_same (free_pointer-SameServices p.tls_listen_address)
            λ _. free_pointer-SameServices p.config_file

-- The command line is accepted, the two tokens are null, and some SIP daemon is asked for: with neither
-- mode, a thread would be cancelled that was never created.
abbrev pub Accepted : CliResult → Type 0
Accepted (configured config) =
    (config.oauth2_access_token ≡ none)
    × (config.dht_op_token ≡ none)
    × ((config.sip_mode || config.new_mode) ≡ true)
Accepted usage = ⊥
Accepted (exits _) = ⊥

module _ (env : Env) (ok : Succeeds env) (build : Build) where
  configured-Up :
      (arrivals : List (List Signal)) (p : ConfigPointers) (r : CliResult) {bs : List ℕ} {w : World}
      → interrupted arrivals ≡ true
      → Accepted r
      → Up nothing_runs (owned_with build [] p bs) w
      → Ends Never
          (λ code w'. (code ≡ 0) × Up nothing_runs bs w')
          (run_configured env build dispositions arrivals p r w)
  unfolding run_configured
  configured-Up arrivals p usage h accepted u = absurd accepted
  configured-Up arrivals p (exits code) h accepted u = absurd accepted
  configured-Up arrivals p (configured config) {bs} h accepted u =
      bind (start_daemons-Wanted env ok build config accepted.1 u)
        λ c w1 (ctx, t, same, listens, up). bind (wait_for_signal-Up arrivals h up) λ _ w2 u2.
          bind (stop_daemons-Up env ok build config c ctx t same listens u2) λ _ w3 u3.
            bind
              (both_facts
                (sentrypeer_config_destroy-Holding build c p bs (
                  subst (λ t. Holding (owned_with build (blocks_of (t ∷ [])) p bs) w3)
                    (sym (same.token ∙ accepted.0)) u3.heap))
                (destroy-SameServices build c p w3))
              λ _ w4 k. ended (refl, record { services = k.1 ∙ u3.services; heap = k.0 })

  -- If every call succeeds, nothing runs yet, the command line is accepted and leaves the SIP mode or the
  -- new mode on, and a SIGINT or SIGTERM arrives before any SIGPROF, then `main` comes to its end: it
  -- returns 0, none of the daemons runs, the SIP daemon's thread having been cancelled and joined by the
  -- number that it was created with, and exactly the blocks of before are allocated.
  pub main-Stops :
      (getenv : String → Option (List ℕ)) (cwd : Option (List ℕ)) (d : Defaults)
      (process_cli_rs : Config → Config) (options : List (ℕ × List ℕ))
      (arrivals : List (List Signal)) (w : World)
      → running w.trace ≡ nothing_runs
      → ((uuid : String)
          → Accepted (
              process_cli build getenv cwd d process_cli_rs options
                (sentrypeer_config_new build d uuid)))
      → interrupted arrivals ≡ true
      → Ends Never
          (λ code w'. (code ≡ 0) × Up nothing_runs w.live w')
          (main env build getenv cwd d process_cli_rs options arrivals w)
  unfolding main
  main-Stops getenv cwd d process_cli_rs options arrivals w idle accepted h =
      bind
        (both_facts
          (new_config-Owns env build d {bs = w.live} {w = w} (record { same = λ a. refl }))
          (new_config-SameServices env build d w))
        λ r w1 k.
          bind (signal_handler_init-Up env ok (record { services = k.1 ∙ idle; heap = k.0.0 }))
            λ on w2 u.
              let (uuid, e) = k.0.1 in
              subst
                (λ o.
                  Ends Never (λ code w'. (code ≡ 0) × Up nothing_runs w.live w')
                    (run_configured env build o arrivals r.1
                      (process_cli build getenv cwd d process_cli_rs options r.0) w2))
                (sym u.0)
                (configured-Up arrivals r.1 _ h
                  (subst (λ c. Accepted (process_cli build getenv cwd d process_cli_rs options c))
                    (sym e) (accepted uuid))
                  u.1)
