-- ===== src/Sip/Daemon/Watched/Ready.antt =====
-- The watched descriptors over the handling of one ready socket.
use sentry_peer.Base.{
  ℕ, ◌≡◌, Bool, false, not, ◌&&◌, ◌||◌, ◌==◌, Option, none, some, List, [], ◌∷◌, String, length,
}
use sentry_peer.World.{World, Env, M, Str, when, pure, ◌>>=◌}
use sentry_peer.World.Calls.{getnameinfo, close, close_negative, recv, recvmsg, getsockname, sendto}
use sentry_peer.World.Ends.{Ends, ended, halted, Keeps, Asserts, bind, branch}
use sentry_peer.World.Held.{branch_on}
use sentry_peer.Actor.{BadActor}
use sentry_peer.Conf.Settings.{Build, Config}
use sentry_peer.Json.{Jansson, Package}
use sentry_peer.Sip.Event.{SipEvent}
use sentry_peer.Sip.Logged.{sip_log_event-Asserts}
use sentry_peer.Sip.Daemon.Setup.{Network, FdSet, Daemon, ask_descriptor}
use sentry_peer.Sip.Daemon.Packets.{
  Outcome, goes_on, continues, returns_failure, after_part, ask_packet, uninitialised_buffer,
  sip_send_reply, process_event, add_client, accept_client, drop_client, local_address, make_event,
  log_tcp_packet, tcp_packet, udp_event, udp_packet, handle_ready,
}
use sentry_peer.Sip.Daemon.Watched.Runs.{
  Fueled, Runs, Runs-too, ask_text-Runs, call-Runs, destroy-Runs, duplicate-Runs, emit-Runs,
  new_event-Runs, packet-Runs, packet_asked-Runs, read_destinations-Runs,
}
use sentry_peer.Sip.Daemon.Watched.Sets.{
  Watches, WatchesAfter, add-Watches, clear-Watches, fd_set-Ends, moved, neither,
}

after_part-Watches :
    {top : ℕ} (next : Daemon → M Outcome) (o : Outcome) (w : World)
    → ((d : Daemon) → Watches top d → Ends Fueled (WatchesAfter top) (next d w))
    → WatchesAfter top o w
    → Ends Fueled (WatchesAfter top) (after_part next o w)
unfolding after_part
after_part-Watches next (goes_on d) w on h = on d h
after_part-Watches next (continues d) w on h = ended h
after_part-Watches next returns_failure w on h = ended tt

module _ {Json : Type 0} (env : Env) (j : Jansson Json) (pkg : Package) (build : Build)
    (net : Network) (post : Config → BadActor → M Bool) (config : Config)
    (post-Keeps : (b : BadActor) → Keeps Asserts (post config b)) where
  reply-Runs :
      (event : SipEvent) (w : World) → Runs (sip_send_reply env j pkg build net post config event w)
  unfolding sip_send_reply
  reply-Runs event w = bind (call-Runs env (sendto event.socket) w) λ ok w1 _.
      branch ok (ended tt) (branch (config.debug_mode || config.verbose_mode) (ended tt) (ended tt))

  process_event-Watches :
      {top : ℕ} (event : SipEvent) (d : Daemon) (w : World)
      → Watches top d
      → Ends Fueled (WatchesAfter top) (process_event env j pkg build net post config event d w)
  unfolding process_event
  process_event-Watches event d w h =
      bind (Runs-too (sip_log_event-Asserts env j pkg build post config post-Keeps event w))
        λ ok w1 _.
          branch ok
            (bind (branch config.sip_responsive_mode (reply-Runs event w1) (ended tt))
              λ sent w2 _. branch sent (bind (destroy-Runs event w2) λ _ w3 _. ended h) (ended h))
            (ended h)

  add_client-Watches :
      {top : ℕ} (d : Daemon) (o : Option ℕ) (w : World)
      → Watches top d
      → Ends Fueled (WatchesAfter top) (add_client env j pkg build net post config d o w)
  unfolding add_client
  add_client-Watches d none w h = bind (emit-Runs close_negative w) λ _ w1 _. ended h
  add_client-Watches d (some fd) w h = bind (fd_set-Ends fd d.master w) λ m w1 is.
      bind (call-Runs env getnameinfo w1)
        λ ok w2 _. branch ok (ended (add-Watches d fd m h is.0 is.1)) (ended tt)

  accept_client-Watches :
      {top : ℕ} (d : Daemon) (w : World)
      → Watches top d
      → Ends Fueled (WatchesAfter top) (accept_client env j pkg build net post config d w)
  unfolding accept_client ask_descriptor
  accept_client-Watches d w h = add_client-Watches d _ _ h

  drop_client-Watches :
      {top : ℕ} (i : ℕ) (d : Daemon) (w : World)
      → Watches top d
      → (i == d.socket_listen_udp) ≡ false
      → (i == d.socket_listen_tcp) ≡ false
      → Ends Fueled (WatchesAfter top) (drop_client env j pkg build net post config i d w)
  unfolding drop_client
  drop_client-Watches i d w h u t =
      bind (emit-Runs (close i) w) λ _ w1 _. ended (clear-Watches d i h u t)

  make_event-Runs :
      (bytes : List ℕ) (n i : ℕ) (transport client : String) (m : ℕ) (dest : Option Str) (w : World)
      → Runs (make_event env j pkg build net post config bytes n i transport client m dest w)
  unfolding make_event
  make_event-Runs bytes n i transport client m dest w = bind (packet-Runs bytes w) λ packet w1 _.
      bind (duplicate-Runs (some transport) w1) λ t w2 _.
        bind (duplicate-Runs (some client) w2) λ c w3 _. new_event-Runs packet n i t c m dest w3

  log_tcp_packet-Watches :
      {top : ℕ} (i : ℕ) (d : Daemon) (bytes : List ℕ) (dest : Option Str) (w : World)
      → Watches top d
      → Ends Fueled
          (WatchesAfter top)
          (log_tcp_packet env j pkg build net post config i d bytes dest w)
  unfolding log_tcp_packet uninitialised_buffer
  log_tcp_packet-Watches i d bytes none w h = halted tt
  log_tcp_packet-Watches i d bytes (some dest) w h =
      bind
        (make_event-Runs bytes (length bytes) i "TCP" (net.uninitialised w.trace) 4 (some dest) w)
        λ event w1 _.
          process_event-Watches event (record d { dest_ip_address_buffer = some dest }) w1
            (moved d (some dest) h)

  tcp_packet-Watches :
      {top : ℕ} (i : ℕ) (d : Daemon) (o : Option (List ℕ)) (w : World)
      → Watches top d
      → (i == d.socket_listen_udp) ≡ false
      → (i == d.socket_listen_tcp) ≡ false
      → Ends Fueled (WatchesAfter top) (tcp_packet env j pkg build net post config i d o w)
  unfolding tcp_packet local_address
  tcp_packet-Watches i d none w h u t = drop_client-Watches i d w h u t
  tcp_packet-Watches i d (some []) w h u t = drop_client-Watches i d w h u t
  tcp_packet-Watches i d (some (b ∷ bs)) w h u t =
      bind (ask_text-Runs env (getsockname i) w)
        λ a w1 _. bind (local a w1) λ dest w2 _. log_tcp_packet-Watches i d (b ∷ bs) dest w2 h
    where
      local :
          (a : Option String) (v : World)
          → Runs (local_address env j pkg build net post config d.dest_ip_address_buffer a v)
      local none v = ended tt
      local (some a) v = bind (duplicate-Runs (some a) v) λ s v1 _. ended tt

  udp_event-Watches :
      {top : ℕ} (d : Daemon) (received : Option (List ℕ)) (dest : Option Str)
      (client : Option String) (w : World)
      → Watches top d
      → Ends Fueled
          (WatchesAfter top)
          (udp_event env j pkg build net post config d received dest client w)
  unfolding udp_event
  udp_event-Watches d received dest none w h = ended tt
  udp_event-Watches d received dest (some client) w h =
      bind (make_event-Runs _ _ _ _ client 128 dest w) λ event w1 _.
        process_event-Watches event (record d { dest_ip_address_buffer = dest }) w1 (moved d dest h)

  udp_packet-Watches :
      {top : ℕ} (d : Daemon) (w : World)
      → Watches top d
      → Ends Fueled (WatchesAfter top) (udp_packet env j pkg build net post config d w)
  unfolding udp_packet
  udp_packet-Watches d w h =
      bind (packet_asked-Runs net (recvmsg d.socket_listen_udp) w) λ received w1 _.
        bind (read_destinations-Runs net d.dest_ip_address_buffer w1) λ dest w2 _.
          bind (ask_text-Runs env getnameinfo w2)
            λ client w3 _. udp_event-Watches d received dest client w3 h

  pub handle_ready-Watches :
      {top : ℕ} (reads : FdSet) (i : ℕ) (d : Daemon) (w : World)
      → Watches top d
      → Ends Fueled (WatchesAfter top) (handle_ready env j pkg build net post config reads i d w)
  unfolding handle_ready
  handle_ready-Watches {top} reads i d w h =
      bind (branch (i == d.socket_listen_tcp) (accept_client-Watches d w h) (ended h))
        λ accepted w1 h1.
          bind (after_part-Watches _ accepted w1 (λ d' k. client d' w1 k) h1) λ served w2 h2.
            after_part-Watches _ served w2
              (λ d' k. branch (reads d'.socket_listen_udp) (udp_packet-Watches d' w2 k) (ended k))
              h2
    where
      client :
          (d' : Daemon) (v : World)
          → Watches top d'
          → Ends Fueled (WatchesAfter top) (
              when
                (not (i == d'.socket_listen_udp) && not (i == d'.socket_listen_tcp))
                (ask_packet net (recv i) >>= tcp_packet env j pkg build net post config i d')
                (pure (goes_on d'))
                v)
      client d' v k =
          branch_on (not (i == d'.socket_listen_udp) && not (i == d'.socket_listen_tcp))
            (λ e.
              let apart = neither (i == d'.socket_listen_udp) (i == d'.socket_listen_tcp) e in
              bind (packet_asked-Runs net (recv i) v)
                λ received v1 _. tcp_packet-Watches i d' received v1 k apart.0 apart.1)
            (λ _. ended k)
