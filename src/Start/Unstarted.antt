-- ===== src/Start/Unstarted.antt =====
-- src/sentrypeer.c with the SIP mode off.
use sentry_peer.Base.{
  ℕ, ◌≡◌, refl, ap, ◌∙◌, String, Bool, true, false, not, ◌&&◌, ◌||◌, Option, none, some, List, [],
  ◌∷◌, ◌++◌,
}
use sentry_peer.World.{World, Env, M, malloc, call, emit, pure, when, ◌>>=◌}
use sentry_peer.World.Calls.{
  Call, openlog, pthread_create, pthread_cancel, pthread_join, shutdown_sip_rs,
}
use sentry_peer.World.Ends.{Ends, ended, halted, bind, mono, branch}
use sentry_peer.World.Held.{branch_on}
use sentry_peer.Conf.Settings.{Build, Config}
use sentry_peer.Http.Daemon.{http_daemon_init, http_daemon_stop}
use sentry_peer.Dht.Node.{peer_to_peer_dht_run, peer_to_peer_dht_stop, stop_node, op_context_free}
use sentry_peer.Sip.Daemon.Threads.{sip_daemon_stop, cancel_thread}
use sentry_peer.Start.Signals.{leave, termination_handler}
use sentry_peer.Start.Main.{
  log_if_syslog, log_progress, or_leave, start_http, start_sip, start_dht, start_daemons,
  stop_daemons,
}
use sentry_peer.Start.Services.{free-services}

-- The threads that calls create and cancel, newest first.
abbrev pub thread_call : Call → List Call
thread_call pthread_create = pthread_create ∷ []
thread_call (pthread_cancel t) = pthread_cancel t ∷ []
thread_call _ = []

abbrev pub threads : List Call → List Call
threads [] = []
threads (c ∷ tr) = thread_call c ++ threads tr

-- However a run ends, where it returns its result has P, and the threads are those of some list.
abbrev Leaves : {A : Type 0} → (A → Type 0) → List Call → M A → Type 0
Leaves P ts m =
    (w : World)
    → threads w.trace ≡ ts
    → Ends (λ _. Unit {0}) (λ a w'. P a × (threads w'.trace ≡ ts)) (m w)

abbrev Anything : {A : Type 0} → A → Type 0
Anything _ = Unit {0}

-- What is left of the configuration as far as the SIP daemon looks at it.
record SameSip (config c : Config) : Type 0 where
  sip_mode : c.sip_mode ≡ config.sip_mode
  new_mode : c.new_mode ≡ config.new_mode
  thread : c.sip_daemon_thread ≡ config.sip_daemon_thread

module _ {ts : List Call} where
  emit-Leaves : (c : Call) → thread_call c ≡ [] → Leaves Anything ts (emit c)
  unfolding emit
  emit-Leaves c quiet w e = ended (tt, rw quiet e)

  call-Leaves : (env : Env) (c : Call) → thread_call c ≡ [] → Leaves Anything ts (call env c)
  unfolding call
  call-Leaves env c quiet w e = ended (tt, rw quiet e)

  log_if_syslog-Leaves :
      (config : Config) (format : String) → Leaves Anything ts (log_if_syslog config format)
  unfolding log_if_syslog
  log_if_syslog-Leaves config format w e =
      branch config.syslog_mode (emit-Leaves _ refl w e) (ended (tt, e))

  log_progress-Leaves :
      (config : Config) (format : String) → Leaves Anything ts (log_progress config format)
  unfolding log_progress
  log_progress-Leaves config format w e =
      branch (config.debug_mode || config.verbose_mode) (log_if_syslog-Leaves config format w e)
        (ended (tt, e))

  or_leave-Leaves :
      (config : Config) (format : String) (r : Bool × Config)
      → SameSip config r.1
      → Leaves (SameSip config) ts (or_leave format r)
  unfolding or_leave leave termination_handler
  or_leave-Leaves config format (ok, c) same w e = branch ok (ended (same, e)) (
      bind (log_if_syslog-Leaves c format w e)
        λ _ w1 k. bind (emit-Leaves _ refl w1 k.1) λ _ w2 _. halted tt)

  start_http-Leaves :
      (env : Env) (build : Build) (config : Config)
      → Leaves (SameSip config) ts (start_http env build config)
  unfolding start_http http_daemon_init
  start_http-Leaves env build config w e =
      branch config.api_mode
        (bind {P = λ r w'. SameSip config r.1 × (threads w'.trace ≡ ts)}
          (bind (call-Leaves env _ refl w e) λ ok w1 k.
            branch ok (ended (record { sip_mode = refl; new_mode = refl; thread = refl }, k.1))
              (ended (record { sip_mode = refl; new_mode = refl; thread = refl }, k.1)))
          λ r w1 k. or_leave-Leaves config _ r k.0 w1 k.1)
        (ended (record { sip_mode = refl; new_mode = refl; thread = refl }, e))

  start_dht-Leaves :
      (env : Env) (build : Build) (config : Config)
      → Leaves (SameSip config) ts (start_dht env build config)
  unfolding start_dht peer_to_peer_dht_run malloc
  start_dht-Leaves env build config w e =
      branch (build.have_opendht && config.p2p_dht_mode)
        (bind {P = λ r w'. SameSip config r.1 × (threads w'.trace ≡ ts)}
          (bind (call-Leaves env _ refl w e) λ ok w1 k.
            branch ok
              (bind (emit-Leaves _ refl w1 k.1) λ _ w2 k2.
                bind (emit-Leaves _ refl _ k2.1) λ _ w3 k3.
                  bind (emit-Leaves _ refl w3 k3.1) λ _ w4 k4.
                    bind (call-Leaves env _ refl w4 k4.1) λ ok' w5 k5.
                      branch ok'
                        (ended (record { sip_mode = refl; new_mode = refl; thread = refl }, k5.1))
                        (halted tt))
              (halted tt))
          λ r w1 k. or_leave-Leaves config _ r k.0 w1 k.1)
        (ended (record { sip_mode = refl; new_mode = refl; thread = refl }, e))

  stop_node-Leaves : (t : Option ℕ) → Leaves Anything ts (stop_node t)
  unfolding stop_node op_context_free
  stop_node-Leaves none w e = halted tt
  stop_node-Leaves (some ctx) w e = bind (emit-Leaves _ refl w e) λ _ w1 k1.
      bind (emit-Leaves _ refl w1 k1.1) λ _ w2 k2. bind (emit-Leaves _ refl w2 k2.1) λ _ w3 k3.
        bind (emit-Leaves _ refl w3 k3.1)
          λ _ w4 k4. bind (free-services ctx w4) λ _ w5 f. ended (tt, ap threads f ∙ k4.1)

  start_sip-Leaves :
      (env : Env) (build : Build) (config : Config)
      → config.sip_mode ≡ false
      → Leaves (SameSip config) ts (start_sip env build config)
  unfolding start_sip
  start_sip-Leaves env build config off w e =
      branch_on config.sip_mode (λ on. absurd (cc))
        (λ _. ended (record { sip_mode = refl; new_mode = refl; thread = refl }, e))

  -- From `openlog` to the loop, without a SIP daemon.
  start_daemons-Leaves :
      (env : Env) (build : Build) (config : Config)
      → config.sip_mode ≡ false
      → Leaves (SameSip config) ts (start_daemons env build config)
  unfolding start_daemons
  start_daemons-Leaves env build config off w e =
      bind (branch config.syslog_mode (emit-Leaves openlog refl w e) (ended (tt, e))) λ _ w1 k1.
        bind (log_progress-Leaves config _ w1 k1.1) λ _ w2 k2.
          bind (start_http-Leaves env build config w2 k2.1) λ c w3 k3.
            bind (start_sip-Leaves env build c (k3.0.sip_mode ∙ off) w3 k3.1) λ c' w4 k4.
              mono (start_dht-Leaves env build c' w4 k4.1) λ c'' w5 k5. (
                record {
                  sip_mode = k5.0.sip_mode ∙ (k4.0.sip_mode ∙ k3.0.sip_mode);
                  new_mode = k5.0.new_mode ∙ (k4.0.new_mode ∙ k3.0.new_mode);
                  thread = k5.0.thread ∙ (k4.0.thread ∙ k3.0.thread);
                },
                k5.1,
              )

  stop_http-Leaves :
      (c : Config) → Leaves Anything ts (when c.api_mode (http_daemon_stop c) (pure true))
  unfolding http_daemon_stop
  stop_http-Leaves c w e =
      branch c.api_mode (bind (emit-Leaves _ refl w e) λ _ w1 k. ended (tt, k.1)) (ended (tt, e))

  stop_dht-Leaves :
      (build : Build) (c : Config)
      → Leaves Anything ts
          (when (build.have_opendht && c.p2p_dht_mode) (peer_to_peer_dht_stop c) (pure true))
  unfolding peer_to_peer_dht_stop
  stop_dht-Leaves build c w e =
      branch (build.have_opendht && c.p2p_dht_mode) (stop_node-Leaves c.dht_op_token w e)
        (ended (tt, e))

  call-cancels :
      (env : Env) (thread : ℕ) (w : World)
      → threads w.trace ≡ ts
      → Ends
          (λ _. Unit {0})
          (λ _ w'. threads w'.trace ≡ pthread_cancel thread ∷ ts)
          (call env (pthread_cancel thread) w)
  unfolding call
  call-cancels env thread w e = ended (ap (λ l. pthread_cancel thread ∷ l) e)

-- The old SIP daemon's thread is cancelled, whatever its number is.
stop_sip-cancels :
    {ts : List Call} (env : Env) (build : Build) (c : Config) (w : World)
    → c.new_mode ≡ false
    → threads w.trace ≡ ts
    → Ends
        (λ _. Unit {0})
        (λ _ w'. threads w'.trace ≡ pthread_cancel c.sip_daemon_thread ∷ ts)
        (sip_daemon_stop env build c w)
unfolding sip_daemon_stop cancel_thread
stop_sip-cancels env build c w old e =
    bind
      (branch_on (not c.new_mode)
        (λ _. bind (call-cancels env c.sip_daemon_thread w e) λ ok w1 e1.
          branch ok
            (mono (call-Leaves env (pthread_join c.sip_daemon_thread) refl w1 e1) λ _ _ k. k.1)
            (ended e1))
        (λ new. absurd (cc)))
      λ r w2 e2.
        branch r
          (branch (build.have_rust && c.new_mode)
            (mono (call-Leaves env shutdown_sip_rs refl w2 e2) λ _ _ k. k.1) (ended e2))
          (ended e2)

-- Whatever the calls answer: if the SIP mode and the new mode are off, starting and then stopping the
-- daemons creates no thread, and yet, where it returns, it has cancelled a thread, the one whose number
-- the configuration was made with.
pub stop_daemons-unstarted :
    (env : Env) (build : Build) (config : Config) (w : World)
    → config.sip_mode ≡ false
    → config.new_mode ≡ false
    → Ends
        (λ _. Unit {0})
        (λ _ w'. threads w'.trace ≡ pthread_cancel config.sip_daemon_thread ∷ threads w.trace)
        ((start_daemons env build config >>= stop_daemons env build) w)
unfolding stop_daemons
stop_daemons-unstarted env build config w off old =
    bind (start_daemons-Leaves env build config off w refl) λ c w1 k1.
      bind (log_progress-Leaves c _ w1 k1.1) λ _ w2 k2. bind (stop_http-Leaves c w2 k2.1) λ _ w3 k3.
        bind (stop_sip-cancels env build c w3 (k1.0.new_mode ∙ old) k3.1) λ _ w4 e4.
          bind (stop_dht-Leaves build c w4 e4) λ _ w5 k5.
            mono (log_progress-Leaves c _ w5 k5.1)
              λ _ w6 k6. k6.1 ∙ ap (λ t. pthread_cancel t ∷ threads w.trace) k1.0.thread
