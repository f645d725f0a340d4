-- ===== src/Sip/Daemon/Watched/Turns.antt =====
-- The scans over the descriptors, and the turns of the loop.
use sentry_peer.Base.{
  refl, ℕ, zero, suc, ◌+◌, ◌≤◌, ◌<◌, ◌≡◌, Bool, true, ◌&&◌, leb, Option, none, some, arith,
}
use sentry_peer.World.{World, Env, M}
use sentry_peer.World.Calls.{select}
use sentry_peer.World.Ends.{Ends, ended, Keeps, Asserts, bind, branch, mono}
use sentry_peer.World.Held.{branch_on}
use sentry_peer.Actor.{BadActor}
use sentry_peer.Conf.Settings.{Build, Config}
use sentry_peer.Json.{Jansson, Package}
use sentry_peer.Sip.Daemon.Setup.{Network, FdSet, fd_setsize, Daemon}
use sentry_peer.Sip.Daemon.Packets.{Outcome, goes_on, continues, returns_failure}
use sentry_peer.Sip.Daemon.Loop.{
  next_socket, next_round, scan, scan_ready, serve_once, serve, sip_daemon_init,
}
use sentry_peer.Sip.Daemon.Watched.Runs.{Fueled, call-Runs}
use sentry_peer.Sip.Daemon.Watched.Sets.{Watches, WatchesAfter, Watching, below, moved}
use sentry_peer.Sip.Daemon.Watched.Opening.{open_sockets-Watching}
use sentry_peer.Sip.Daemon.Watched.Reached.{Reaches, scan-Reaches}
use sentry_peer.Sip.Daemon.Watched.Ready.{handle_ready-Watches}

module _ {Json : Type 0} (env : Env) (j : Jansson Json) (pkg : Package) (build : Build)
    (net : Network) (post : Config → BadActor → M Bool) (config : Config)
    (post-Keeps : (b : BadActor) → Keeps Asserts (post config b)) where
  -- Enough fuel is given to reach every descriptor that a set has room for.
  scan-Watching :
      (fuel : ℕ) (reads : FdSet) (i : ℕ) (d : Daemon) (w : World)
      → Watches 0 d
      → i ≤ fd_setsize
      → fd_setsize < i + fuel
      → Ends Fueled (Watching 0) (scan env j pkg build net post config fuel reads i d w)
  unfolding scan next_socket
  scan-Watching zero reads i d w h low enough = absurd (omega (arith, low, enough))
  scan-Watching (suc fuel) reads i d w h low enough =
      branch_on (leb i d.max_socket)
        (λ e.
          bind
            (branch (reads i)
              (handle_ready-Watches env j pkg build net post config post-Keeps reads i d w h)
              (ended h))
            λ o w1 k.
              next o w1
                (λ d' k'.
                  scan-Watching fuel reads (suc i) d' w1 k' (within e) (omega (arith, enough)))
                k)
        (λ _. ended h)
    where
      within : leb i d.max_socket ≡ true → suc i ≤ fd_setsize
      within e = below i d.max_socket e h.small

      next :
          (o : Outcome) (v : World)
          → ((d' : Daemon)
              → Watches 0 d'
              → Ends Fueled
                  (Watching 0)
                  (scan env j pkg build net post config fuel reads (suc i) d' v))
          → WatchesAfter 0 o v
          → Ends Fueled
              (Watching 0)
              (next_socket (λ d'. scan env j pkg build net post config fuel reads (suc i) d') o v)
      next (goes_on d') v on k = on d' k
      next (continues d') v on k = on d' k
      next returns_failure v on k = ended tt

  scan_ready-Watching :
      (d : Daemon) (w : World)
      → Watches 0 d
      → Ends Fueled (Watching 0) (scan_ready env j pkg build net post config d w)
  unfolding scan_ready
  scan_ready-Watching d w h =
      scan-Watching fd_setsize (λ i. d.master i && net.is_ready w.trace i) 1 d w h (omega arith)
        (omega arith)

  -- From a state in which both listening sockets are watched, and every watched descriptor is at most
  -- `max_socket`, which is below FD_SETSIZE, and for any answers of the operating system: if the POST
  -- leaves the heap as it is, one turn of the loop reaches the end of its scan over the descriptors,
  -- though `max_socket` may grow on the way, unless it stops or returns; and the state that it leaves is
  -- such a state again.
  pub serve_once-Watching :
      (d : Daemon) (w : World)
      → Watches 0 d
      → Ends Fueled (Watching 0) (serve_once env j pkg build net post config d w)
  unfolding serve_once
  serve_once-Watching d w h = bind (call-Runs env (select (suc d.max_socket)) w) λ ok w1 _.
      branch ok
        (scan_ready-Watching (record d { dest_ip_address_buffer = none }) w1 (moved d none h))
        (ended tt)

  serve-Watching :
      (turns : ℕ) (d : Daemon) (w : World)
      → Watches 0 d
      → Ends Fueled (Watching 0) (serve env j pkg build net post config turns d w)
  unfolding serve next_round
  serve-Watching zero d w h = ended h
  serve-Watching (suc turns) d w h =
      bind (serve_once-Watching d w h)
        λ o w1 k. next o w1 (λ d' k'. serve-Watching turns d' w1 k') k
    where
      next :
          (o : Option Daemon) (v : World)
          → ((d' : Daemon)
              → Watches 0 d'
              → Ends Fueled (Watching 0) (serve env j pkg build net post config turns d' v))
          → Watching 0 o v
          → Ends Fueled
              (Watching 0)
              (next_round (λ d'. serve env j pkg build net post config turns d') o v)
      next none v on k = ended tt
      next (some d') v on k = on d' k

  -- Every descriptor that is watched is reached by the next scan, where it is ready. A scan starts
  -- behind the descriptor 0.
  ready_next :
      (d : Daemon) (fd : ℕ) (w : World)
      → Watches 0 d
      → d.master fd ≡ true
      → 1 ≤ fd
      → net.is_ready w.trace fd ≡ true
      → Reaches env j pkg build net post config
          (λ i. d.master i && net.is_ready w.trace i)
          fd
          (scan_ready env j pkg build net post config d w)
  unfolding scan_ready
  ready_next d fd w h is_watched low is_ready =
      scan-Reaches env j pkg build net post config post-Keeps
        (λ i. d.master i && net.is_ready w.trace i) fd (rw (is_watched, is_ready) refl) fd_setsize 1
        d w
        (record {
          udp_watched = h.udp_watched;
          tcp_watched = h.tcp_watched;
          reached = h.reached;
          small = h.small;
          grown = h.reached fd is_watched;
        })
        low (omega arith)

  -- What holds of a daemon that still runs.
  pub record Ready (d : Daemon) : Type 0 where
    pub watches : Watches 0 d
    pub next_scan :
        (fd : ℕ) (w : World)
        → d.master fd ≡ true
        → 1 ≤ fd
        → net.is_ready w.trace fd ≡ true
        → Reaches env j pkg build net post config
            (λ i. d.master i && net.is_ready w.trace i)
            fd
            (scan_ready env j pkg build net post config
              (record d { dest_ip_address_buffer = none })
              w)

  abbrev pub StillReady : Option Daemon → World → Type 0
  StillReady none _ = Unit {0}
  StillReady (some d) _ = Ready d

  -- After any number of turns from the start of the daemon, and for any answers of the operating
  -- system: if the POST leaves the heap as it is and the daemon still runs, both listening sockets are
  -- watched, every watched descriptor is at most `max_socket`, which is below FD_SETSIZE, and the next
  -- scan, unless it stops or fails before, handles each watched descriptor that is ready and not 0, and
  -- goes on with the one after it. No scan runs out of the fuel that it has.
  pub sip_daemon_init-Watching :
      (turns : ℕ) (w : World)
      → Ends Fueled StillReady (sip_daemon_init env j pkg build net post config turns w)
  unfolding sip_daemon_init next_round
  sip_daemon_init-Watching turns w =
      mono (bind (open_sockets-Watching env net w) λ o w1 k. next o w1 k) still
    where
      next :
          (o : Option Daemon) (v : World)
          → Watching 0 o v
          → Ends Fueled
              (Watching 0)
              (next_round (λ d'. serve env j pkg build net post config turns d') o v)
      next none v k = ended tt
      next (some d') v k = serve-Watching turns d' v k

      still : (o : Option Daemon) (v : World) → Watching 0 o v → StillReady o v
      still none v h = tt
      still (some d) v h = record {
        watches = h;
        next_scan = λ fd w' e low ready.
            ready_next (record d { dest_ip_address_buffer = none }) fd w' (moved d none h) e low
              ready;
      }
