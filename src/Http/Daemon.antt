-- ===== src/Http/Daemon.antt =====
-- Start and stop of the HTTP daemon: src/http_daemon.c.
use sentry_peer.Base.{ℕ, Bool, true, false}
use sentry_peer.World.{Env, M, call, emit, pure, check, ◌>>◌}
use sentry_peer.World.Calls.{mhd_start_daemon, mhd_stop_daemon}
use sentry_peer.Conf.Settings.{Config}

abbrev pub http_daemon_port : ℕ
http_daemon_port = 8082

unfoldable pub http_daemon_init : Env → Config → M (Bool × Config)
http_daemon_init env config =
    check (call env (mhd_start_daemon http_daemon_port)) (pure (false, config))
      (pure (true, record config { http_daemon = true }))

unfoldable pub http_daemon_stop : Config → M Bool
http_daemon_stop config = do emit mhd_stop_daemon; pure true
