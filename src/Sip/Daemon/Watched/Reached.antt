-- ===== src/Sip/Daemon/Watched/Reached.antt =====
-- Which descriptors a scan of the loop in `sip_daemon_init`, src/sip_daemon.c, gets to.
use sentry_peer.Base.{ℕ, zero, suc, ◌+◌, ◌≤◌, ◌<◌, ◌≡◌, refl, Bool, true, leb, Option, none, arith}
use native.Mathlib.Decide.{dec_lt}
use sentry_peer.World.{World, Env, M, Run, Stop, done, stopped, and_then, pure, when}
use sentry_peer.World.Ends.{Ends, ended, halted, Keeps, Asserts, branch}
use sentry_peer.Actor.{BadActor}
use sentry_peer.Conf.Settings.{Build, Config}
use sentry_peer.Json.{Jansson, Package}
use sentry_peer.Sip.Daemon.Setup.{Network, FdSet, fd_setsize, Daemon}
use sentry_peer.Sip.Daemon.Packets.{Outcome, goes_on, continues, returns_failure, handle_ready}
use sentry_peer.Sip.Daemon.Loop.{next_socket, scan}
use sentry_peer.Sip.Daemon.Watched.Runs.{Fueled}
use sentry_peer.Sip.Daemon.Watched.Sets.{Watches, WatchesAfter}
use sentry_peer.Sip.Daemon.Watched.Ready.{handle_ready-Watches}

module _ {Json : Type 0} (env : Env) (j : Jansson Json) (pkg : Package) (build : Build)
    (net : Network) (post : Config → BadActor → M Bool) (config : Config) where
  -- A scan that stops or fails, or else handles a descriptor in some state of the loop, and goes on with
  -- the next one.
  pub data Reaches (reads : FdSet) (fd : ℕ) (run : Run (Option Daemon)) : Type 0 where
    stops : (s : Stop) (w : World) → Fueled s → run ≡ stopped s w → Reaches reads fd run
    fails : (w : World) → run ≡ done none w → Reaches reads fd run
    handles :
        (fuel : ℕ) (d : Daemon) (w : World)
        → run
          ≡ and_then
              (handle_ready env j pkg build net post config reads fd d w)
              (next_socket (λ d'. scan env j pkg build net post config fuel reads (suc fd) d'))
        → Reaches reads fd run

  passes :
      (reads : FdSet) (fd : ℕ) (top : ℕ) (k : Daemon → M (Option Daemon)) (r : Run Outcome)
      → Ends Fueled (WatchesAfter top) r
      → ((d : Daemon) (w : World) → Watches top d → Reaches reads fd (k d w))
      → Reaches reads fd (and_then r (next_socket k))
  unfolding next_socket
  passes reads fd top k _ (ended {a = goes_on d} {w = w} h) on = on d w h
  passes reads fd top k _ (ended {a = continues d} {w = w} h) on = on d w h
  passes reads fd top k _ (ended {a = returns_failure} {w = w} h) on = fails w refl
  passes reads fd top k _ (halted {s = s} {w = w} h) on = stops s w h refl

  module _ (post-Keeps : (b : BadActor) → Keeps Asserts (post config b)) (reads : FdSet) (fd : ℕ)
      (is_read : reads fd ≡ true) where
    pub scan-Reaches :
        (fuel i : ℕ) (d : Daemon) (w : World)
        → Watches fd d
        → i ≤ fd
        → fd_setsize < i + fuel
        → Reaches reads fd (scan env j pkg build net post config fuel reads i d w)
    unfolding scan
    scan-Reaches zero i d w h low enough = absurd (omega (arith, low, enough, h.grown, h.small))
    scan-Reaches (suc fuel) i d w h low enough = elim (dec_lt i fd) [
      | yes before ↦ rw (in_range i fd d.max_socket low h.grown) (
          passes reads fd fd _ _
            (branch (reads i)
              (handle_ready-Watches env j pkg build net post config post-Keeps reads i d w h)
              (ended h))
            λ d' w' k. scan-Reaches fuel (suc i) d' w' k before (omega (arith, enough)))
      | no here ↦
          rw (in_range i fd d.max_socket low h.grown)
            (here_now fuel i d w (omega (arith, low, here)))
    ]
      where
        here_now :
            (fuel i : ℕ) (d : Daemon) (w : World)
            → fd ≡ i
            → Reaches reads fd (
                and_then
                  (when
                    (reads i)
                    (handle_ready env j pkg build net post config reads i d)
                    (pure (goes_on d))
                    w)
                  (next_socket (λ d'. scan env j pkg build net post config fuel reads (suc i) d')))
        here_now fuel i d w e = rw (← e, is_read) (handles fuel d w refl)

        in_range : (i fd n : ℕ) → i ≤ fd → fd ≤ n → leb i n ≡ true
        in_range i fd n low high = ground arith
