-- ===== src/Sip/Daemon/Watched/Sets.antt =====
-- The descriptors that the loop watches, when one is added or cleared.
use sentry_peer.Base.{
  ℕ, suc, ◌≤◌, ◌<◌, ◌≡◌, refl, ◌∙◌, sym, Bool, true, false, not, ◌&&◌, ◌||◌, ◌==◌, ◌⊎◌, inl, inr,
  ltb, leb, Option, none, some, arith, if◌then◌else◌, ==→eq,
}
use sentry_peer.World.{World, Str}
use sentry_peer.World.Ends.{Ends, ended, halted}
use sentry_peer.World.Held.{branch_on}
use sentry_peer.Sip.Daemon.Setup.{FdSet, fd_setsize, fd_set, fd_clr, Daemon}
use sentry_peer.Sip.Daemon.Packets.{Outcome, goes_on, continues, returns_failure}
use sentry_peer.Sip.Daemon.Watched.Runs.{Fueled}

-- Both listening sockets are watched, every watched descriptor is at most `max_socket`, which a set has
-- room for, and `max_socket` is at least `top`.
pub record Watches (top : ℕ) (d : Daemon) : Type 0 where
  pub udp_watched : d.master d.socket_listen_udp ≡ true
  pub tcp_watched : d.master d.socket_listen_tcp ≡ true
  pub reached : (fd : ℕ) → d.master fd ≡ true → fd ≤ d.max_socket
  pub small : d.max_socket < fd_setsize
  pub grown : top ≤ d.max_socket

abbrev pub Watching : ℕ → Option Daemon → World → Type 0
Watching top none _ = Unit {0}
Watching top (some d) _ = Watches top d

abbrev pub WatchesAfter : ℕ → Outcome → World → Type 0
WatchesAfter top (goes_on d) _ = Watches top d
WatchesAfter top (continues d) _ = Watches top d
WatchesAfter top returns_failure _ = Unit {0}

-- FD_SET adds one descriptor, which is small enough.
pub fd_set-Ends :
    (fd : ℕ) (set : FdSet) (w : World)
    → Ends Fueled
        (λ m _. (fd < fd_setsize) × ((k : ℕ) → m k ≡ (k == fd || set k)))
        (fd_set fd set w)
unfolding fd_set
fd_set-Ends fd set w =
    branch_on (ltb fd fd_setsize) (λ e. ended (ground arith, λ k. refl)) (λ e. halted tt)

clear_other : (k fd : ℕ) (b : Bool) → (k == fd) ≡ false → b ≡ true → (not (k == fd) && b) ≡ true
clear_other k fd b e h = rw (e, h) refl

pub added_too : (a b : Bool) → b ≡ true → (a || b) ≡ true
added_too true b e = refl
added_too false b e = e

pub of_either : (a b : Bool) → (a || b) ≡ true → (a ≡ true) ⊎ (b ≡ true)
of_either true b e = inl refl
of_either false b e = inr e

of_second : (a b : Bool) → (a && b) ≡ true → b ≡ true
of_second true b e = e
of_second false b e = absurd (cc)

pub add-Watches :
    {top : ℕ} (d : Daemon) (fd : ℕ) (m : FdSet)
    → Watches top d
    → fd < fd_setsize
    → ((k : ℕ) → m k ≡ (k == fd || d.master k))
    → Watches top
        (record d { master = m; max_socket = if ltb d.max_socket fd then fd else d.max_socket })
add-Watches {top} d fd m h room is = record {
  udp_watched = is d.socket_listen_udp ∙ added_too _ _ h.udp_watched;
  tcp_watched = is d.socket_listen_tcp ∙ added_too _ _ h.tcp_watched;
  reached = λ k e. below k (of_either (k == fd) (d.master k) (sym (is k) ∙ e));
  small = larger d.max_socket h.small;
  grown = no_lower d.max_socket h.grown;
}
  where
    larger : (n : ℕ) → n < fd_setsize → (if ltb n fd then fd else n) < fd_setsize
    larger n e = ground arith

    no_lower : (n : ℕ) → top ≤ n → top ≤ (if ltb n fd then fd else n)
    no_lower n e = ground arith

    under : (k n : ℕ) → (k ≡ fd) ⊎ (k ≤ n) → k ≤ (if ltb n fd then fd else n)
    under k n e = ground arith

    below :
        (k : ℕ)
        → ((k == fd) ≡ true) ⊎ (d.master k ≡ true)
        → k ≤ (if ltb d.max_socket fd then fd else d.max_socket)
    below k (inl e) = under k d.max_socket (inl (==→eq k fd e))
    below k (inr e) = under k d.max_socket (inr (h.reached k e))

pub clear-Watches :
    {top : ℕ} (d : Daemon) (fd : ℕ)
    → Watches top d
    → (fd == d.socket_listen_udp) ≡ false
    → (fd == d.socket_listen_tcp) ≡ false
    → Watches top (record d { master = fd_clr fd d.master })
unfolding fd_clr
clear-Watches d fd h u t = record {
  udp_watched = clear_other d.socket_listen_udp fd _ (ground arith) h.udp_watched;
  tcp_watched = clear_other d.socket_listen_tcp fd _ (ground arith) h.tcp_watched;
  reached = λ k e. h.reached k (of_second (not (k == fd)) (d.master k) e);
  small = h.small;
  grown = h.grown;
}

-- The destination's address is no part of it.
pub moved :
    {top : ℕ} (d : Daemon) (dest : Option Str)
    → Watches top d
    → Watches top (record d { dest_ip_address_buffer = dest })
moved d dest h = record {
  udp_watched = h.udp_watched;
  tcp_watched = h.tcp_watched;
  reached = h.reached;
  small = h.small;
  grown = h.grown;
}

pub neither : (a b : Bool) → (not a && not b) ≡ true → (a ≡ false) × (b ≡ false)
neither true b e = absurd (cc)
neither false true e = absurd (cc)
neither false false e = (refl, refl)

pub below : (i n : ℕ) → leb i n ≡ true → n < fd_setsize → suc i ≤ fd_setsize
below i n e s = ground arith
