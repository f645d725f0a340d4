-- ===== src/Sip/Daemon/Loop.antt =====
-- The loops of `sip_daemon_init`, src/sip_daemon.c: one `select`, and the scan over the descriptors.
use sentry_peer.Base.{ℕ, zero, suc, Bool, ◌&&◌, leb, Option, none, some}
use sentry_peer.World.{Env, M, out_of_fuel, call, pure, stop, check, when, ◌>>=◌}
use sentry_peer.World.Calls.{select}
use sentry_peer.Actor.{BadActor}
use sentry_peer.Conf.Settings.{Build, Config}
use sentry_peer.Json.{Jansson, Package}
use sentry_peer.Sip.Daemon.Setup.{Network, FdSet, fd_setsize, Daemon, open_sockets}
use sentry_peer.Sip.Daemon.Packets.{Outcome, goes_on, continues, returns_failure, handle_ready}

unfoldable pub next_socket : (Daemon → M (Option Daemon)) → Outcome → M (Option Daemon)
next_socket scan_on (goes_on d) = scan_on d
next_socket scan_on (continues d) = scan_on d
next_socket scan_on returns_failure = pure none

-- What follows a round that did not return.
unfoldable pub next_round : (Daemon → M (Option Daemon)) → Option Daemon → M (Option Daemon)
next_round round_on none = pure none
next_round round_on (some d) = round_on d

module _ {Json : Type 0} (env : Env) (j : Jansson Json) (pkg : Package) (build : Build)
    (net : Network) (post : Config → BadActor → M Bool) (config : Config) where
  -- `for (SOCKET i = 1; i <= max_socket; ++i)`, where `max_socket` may grow.
  unfoldable pub scan : ℕ → FdSet → ℕ → Daemon → M (Option Daemon)
  unfolding next_socket
  scan zero reads i d = stop out_of_fuel
  scan (suc fuel) reads i d =
      when (leb i d.max_socket)
        (when (reads i) (handle_ready env j pkg build net post config reads i d) (pure (goes_on d))
          >>= next_socket (λ d'. scan fuel reads (suc i) d'))
        (pure (some d))

  -- The descriptors that are watched and ready are read off the answer of `select`.
  unfoldable pub scan_ready : Daemon → M (Option Daemon)
  unfolding scan
  scan_ready d w = scan fd_setsize (λ i. d.master i && net.is_ready w.trace i) 1 d w

  -- One turn of `while (1)`. `none` is `return EXIT_FAILURE`.
  unfoldable pub serve_once : Daemon → M (Option Daemon)
  unfolding scan_ready
  serve_once d =
      let d0 : Daemon = record d { dest_ip_address_buffer = none } in
      check (call env (select (suc d0.max_socket))) (pure none) (scan_ready d0)

  -- So many turns, or fewer if the function returns before.
  unfoldable pub serve : ℕ → Daemon → M (Option Daemon)
  unfolding serve_once
  serve zero d = pure (some d)
  serve (suc turns) d = serve_once d >>= next_round (λ d'. serve turns d')

  -- The loop ends by a failure alone; it is followed for some number of turns.
  unfoldable pub sip_daemon_init : ℕ → M (Option Daemon)
  unfolding serve
  sip_daemon_init turns = open_sockets env net >>= next_round (λ d. serve turns d)
