-- ===== src/Sip/Daemon/Threads.antt =====
-- Start and stop of the SIP daemon's thread: `sip_daemon_run` and `sip_daemon_stop` of
-- src/sip_daemon.c. What the thread itself does is `sip_daemon_init`.
use sentry_peer.Base.{ℕ, Bool, true, false, not, ◌&&◌}
use sentry_peer.World.{Env, M, call, ask_number, emit, pure, check, when, ◌>>=◌, ◌>>◌}
use sentry_peer.World.Calls.{
  pthread_setcanceltype, pthread_create, pthread_created, thread_number, pthread_setname_np,
  pthread_cancel, pthread_join, shutdown_sip_rs,
}
use sentry_peer.Conf.Settings.{Build, Config}

module _ (env : Env) (build : Build) where
  -- The number that `pthread_create` stores stands in the trace.
  unfoldable pub sip_daemon_run : Config → M (Bool × Config)
  sip_daemon_run config = do
    emit pthread_setcanceltype
    check (call env pthread_create) (pure (false, config)) (do
      sip_daemon_thread ← ask_number env pthread_created
      emit (thread_number sip_daemon_thread)
      check (call env (pthread_setname_np sip_daemon_thread)) (pure (false, config))
          (pure (true, record config { sip_daemon_thread = sip_daemon_thread })))

  unfoldable pub cancel_thread : ℕ → M Bool
  cancel_thread thread =
      check (call env (pthread_cancel thread)) (pure false) (call env (pthread_join thread))

  unfoldable pub sip_daemon_stop : Config → M Bool
  unfolding cancel_thread
  sip_daemon_stop config =
      check (when (not config.new_mode) (cancel_thread config.sip_daemon_thread) (pure true))
        (pure false)
        (when (build.have_rust && config.new_mode) (call env shutdown_sip_rs) (pure true))
