-- ===== src/Sip/Daemon/Packets.antt =====
-- What the loop of `sip_daemon_init` does with one ready socket, and `sip_send_reply`: src/sip_daemon.c.
use sentry_peer.Base.{
  ℕ, ◌-◌, ◌^◌, String, Bool, true, false, not, ◌&&◌, ◌||◌, ◌==◌, ltb, Option, none, some, List, [],
  ◌∷◌, if◌then◌else◌, length, take,
}
use sentry_peer.World.{
  Env, M, Block, Str, done, bad_read, assert_failed, malloc, call, emit, ask_text, pure, stop,
  check, when, ◌>>=◌, ◌>>◌,
}
use sentry_peer.World.Calls.{
  Call, accept, getnameinfo, close_negative, recv, recvmsg, getsockname, close, sendto,
}
use sentry_peer.Actor.{BadActor, util_duplicate_string}
use sentry_peer.Conf.Settings.{Build, Config}
use sentry_peer.Conf.Buffer.{c_string, strlen}
use sentry_peer.Json.{Jansson, Package}
use sentry_peer.Sip.Event.{SipEvent, sip_message_event_new, sip_message_event_destroy}
use sentry_peer.Sip.Log.{sip_log_event}
use sentry_peer.Sip.Daemon.Setup.{Network, FdSet, fd_set, fd_clr, Daemon, ask_descriptor}

-- How a part of the loop's body ends: it goes on with the next part, by `continue`, or by
-- `return EXIT_FAILURE`.
pub data Outcome : Type 0 where
  goes_on : Daemon → Outcome
  continues : Daemon → Outcome
  returns_failure : Outcome

unfoldable pub after_part : (Daemon → M Outcome) → Outcome → M Outcome
after_part next (goes_on d) = next d
after_part next (continues d) = pure (continues d)
after_part next returns_failure = pure returns_failure

abbrev pub packet_buffer_size : ℕ
packet_buffer_size = 1024

-- `bytes_received`, an int, as the size_t `packet_len`.
unfoldable pub received_len : Option (List ℕ) → ℕ
received_len none = 2 ^ 64 - 1
received_len (some bytes) = length bytes

abbrev pub received_bytes : Option (List ℕ) → List ℕ
received_bytes none = []
received_bytes (some bytes) = bytes

-- `util_duplicate_string(read_packet_buf)`: the buffer is zero behind the packet, and has no NUL if the
-- packet fills it without one.
unfoldable pub duplicate_packet : List ℕ → M (Block (List ℕ))
duplicate_packet bytes =
    when (ltb (strlen bytes) packet_buffer_size) (malloc (c_string bytes)) (stop bad_read)

-- The loop over the control messages. A destination that another one follows is lost.
unfoldable pub copy_destinations : List String → Option Str → M (Option Str)
unfolding util_duplicate_string
copy_destinations [] dest = pure dest
copy_destinations (t ∷ ts) dest = do
  s ← util_duplicate_string (some t)
  copy_destinations ts (some s)

-- At most as many bytes as the buffer has room for.
unfoldable pub truncated : Option (List ℕ) → Option (List ℕ)
truncated none = none
truncated (some bytes) = some (take packet_buffer_size bytes)

module _ (net : Network) where
  unfoldable pub ask_packet : Call → M (Option (List ℕ))
  ask_packet c w = done (truncated (net.packet w.trace c)) (record w { trace = c ∷ w.trace })

  unfoldable pub uninitialised_buffer : M String
  uninitialised_buffer w = done (net.uninitialised w.trace) w

  unfoldable pub read_destinations : Option Str → M (Option Str)
  unfolding copy_destinations
  read_destinations dest w = copy_destinations (net.destinations w.trace) dest w

module _ {Json : Type 0} (env : Env) (j : Jansson Json) (pkg : Package) (build : Build)
    (net : Network) (post : Config → BadActor → M Bool) (config : Config) where
  unfoldable pub sip_send_reply : SipEvent → M Bool
  sip_send_reply event =
      check (call env (sendto event.socket))
        (when (config.debug_mode || config.verbose_mode) (pure false) (pure true)) (pure true)

  -- From `sip_log_event` on. An event that is not logged or answered is not destroyed.
  unfoldable pub process_event : SipEvent → Daemon → M Outcome
  process_event event d =
      check (sip_log_event env j pkg build post config event) (pure (continues d)) (
        check (when config.sip_responsive_mode (sip_send_reply event) (pure true))
          (pure (continues d)) (do sip_message_event_destroy (some event); pure (goes_on d)))

  unfoldable pub add_client : Daemon → Option ℕ → M Outcome
  add_client d none = do emit close_negative; pure (continues d)
  add_client d (some fd) = do
    master ← fd_set fd d.master
    check (call env getnameinfo) (pure returns_failure) (
        pure (
          goes_on (record d {
            master = master;
            max_socket = if ltb d.max_socket fd then fd else d.max_socket;
          })))

  unfoldable pub accept_client : Daemon → M Outcome
  unfolding add_client
  accept_client d = ask_descriptor net (accept d.socket_listen_tcp) >>= add_client d

  unfoldable pub drop_client : ℕ → Daemon → M Outcome
  drop_client i d = do emit (close i); pure (continues (record d { master = fd_clr i d.master }))

  unfoldable pub local_address : Option Str → Option String → M (Option Str)
  unfolding util_duplicate_string
  local_address dest none = pure dest
  local_address dest (some t) = do s ← util_duplicate_string (some t); pure (some s)

  -- The event of a packet on socket `i`. The addresses are texts by now.
  unfoldable pub make_event : List ℕ → ℕ → ℕ → String → String → ℕ → Option Str → M SipEvent
  make_event bytes packet_len i transport client client_len dest = do
    packet ← duplicate_packet bytes
    transport_type ← util_duplicate_string (some transport)
    client_ip ← util_duplicate_string (some client)
    sip_message_event_new (some packet) packet_len i (some transport_type) (some client_ip)
        client_len dest

  -- `assert(dest_ip_address_buffer)` and what follows it.
  unfoldable pub log_tcp_packet : ℕ → Daemon → List ℕ → Option Str → M Outcome
  unfolding make_event process_event
  log_tcp_packet i d bytes none = stop assert_failed
  log_tcp_packet i d bytes (some dest) = do
    client ← uninitialised_buffer net
    event ← make_event bytes (length bytes) i "TCP" client 4 (some dest)
    process_event event (record d { dest_ip_address_buffer = some dest })

  unfoldable pub tcp_packet : ℕ → Daemon → Option (List ℕ) → M Outcome
  unfolding drop_client local_address log_tcp_packet
  tcp_packet i d none = drop_client i d
  tcp_packet i d (some []) = drop_client i d
  tcp_packet i d (some (b ∷ bs)) = do
    t ← ask_text env (getsockname i)
    dest ← local_address d.dest_ip_address_buffer t
    log_tcp_packet i d (b ∷ bs) dest

  -- The client's address, or `none` where `getnameinfo` fails.
  unfoldable pub udp_event : Daemon → Option (List ℕ) → Option Str → Option String → M Outcome
  unfolding make_event process_event received_len
  udp_event d received dest none = pure returns_failure
  udp_event d received dest (some client) = do
    event ←
        make_event (received_bytes received) (received_len received) d.socket_listen_udp "UDP"
          client 128 dest
    process_event event (record d { dest_ip_address_buffer = dest })

  -- A failure to receive is processed as if a packet had come.
  unfoldable pub udp_packet : Daemon → M Outcome
  unfolding udp_event
  udp_packet d = do
    received ← ask_packet net (recvmsg d.socket_listen_udp)
    dest ← read_destinations net d.dest_ip_address_buffer
    client ← ask_text env getnameinfo
    udp_event d received dest client

  -- The body of the loop for a ready socket, in three parts.
  unfoldable pub handle_ready : FdSet → ℕ → Daemon → M Outcome
  unfolding accept_client tcp_packet udp_packet
  handle_ready reads i d = do
    accepted ← when (i == d.socket_listen_tcp) (accept_client d) (pure (goes_on d))
    served ←
        after_part
          (λ d'.
            when (not (i == d'.socket_listen_udp) && not (i == d'.socket_listen_tcp))
              (ask_packet net (recv i) >>= tcp_packet i d') (pure (goes_on d')))
          accepted
    after_part (λ d'. when (reads d'.socket_listen_udp) (udp_packet d') (pure (goes_on d'))) served
