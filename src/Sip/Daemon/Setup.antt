-- ===== src/Sip/Daemon/Setup.antt =====
-- `sip_daemon_init` of src/sip_daemon.c up to its loop: two sockets that listen on the SIP port. What
-- `getaddrinfo` returns is a block; a set of descriptors is a test.
use sentry_peer.Base.{
  ℕ, String, Bool, false, not, ◌&&◌, ◌||◌, ◌==◌, ltb, Option, none, some, List, [], ◌∷◌,
  if◌then◌else◌,
}
use sentry_peer.World.{
  World, Env, M, Block, done, bad_write, malloc, free, call, emit, pure, stop, check, when, ◌>>=◌,
  ◌>>◌,
}
use sentry_peer.World.Calls.{
  Call, udp, tcp, getaddrinfo, socket, freeaddrinfo, setsockopt_reuseaddr, setsockopt_pktinfo,
  bind_to, listen, close, returned,
}
use sentry_peer.World.{Str}

-- What the operating system answers, given the calls so far: the descriptor that a call returns
-- (`none` for a negative one), which descriptors are ready, the bytes of a packet (`none` for a
-- failure), the destination of each IP_PKTINFO header of it, and the text that a buffer
-- holds that was not initialised.
pub record Network : Type 0 where
  pub descriptor : List Call → Call → Option ℕ
  pub is_ready : List Call → ℕ → Bool
  pub packet : List Call → Call → Option (List ℕ)
  pub destinations : List Call → List String
  pub uninitialised : List Call → String

abbrev pub FdSet : Type 0
FdSet = ℕ → Bool

abbrev pub fd_zero : FdSet
fd_zero _ = false

abbrev pub fd_setsize : ℕ
fd_setsize = 1024

-- FD_SET writes out of bounds from FD_SETSIZE on.
unfoldable pub fd_set : ℕ → FdSet → M FdSet
fd_set fd set = when (ltb fd fd_setsize) (pure (λ i. i == fd || set i)) (stop bad_write)

unfoldable pub fd_clr : ℕ → FdSet → FdSet
fd_clr fd set i = not (i == fd) && set i

unfoldable pub max_int : ℕ → ℕ → ℕ
max_int x y = if ltb y x then x else y

-- The variables of the loop.
pub record Daemon : Type 0 where
  pub socket_listen_udp : ℕ
  pub socket_listen_tcp : ℕ
  pub master : FdSet
  pub max_socket : ℕ
  pub dest_ip_address_buffer : Option Str

-- The descriptor that a call has returned stands in the trace.
unfoldable pub returned_by : Option ℕ → World → World
returned_by none w = w
returned_by (some fd) w = record w { trace = returned fd ∷ w.trace }

module _ (net : Network) where
  unfoldable pub ask_descriptor : Call → M (Option ℕ)
  unfolding returned_by
  ask_descriptor c w =
      done (net.descriptor w.trace c)
        (returned_by (net.descriptor w.trace c) (record w { trace = c ∷ w.trace }))

module _ (env : Env) (net : Network) where
  -- `CLOSESOCKET(…); CLOSESOCKET(…); freeaddrinfo(bind_address); return EXIT_FAILURE;`
  unfoldable pub give_up : List ℕ → Block (Unit {0}) → M (Option Daemon)
  give_up [] info = do free info.block; pure none
  give_up (fd ∷ fds) info = do emit (close fd); give_up fds info

  unfoldable pub start_loop : ℕ → ℕ → M (Option Daemon)
  unfolding max_int
  start_loop udp_socket tcp_socket = do
    set ← fd_set udp_socket fd_zero
    master ← fd_set tcp_socket set
    pure (
        some (record {
          socket_listen_udp = udp_socket;
          socket_listen_tcp = tcp_socket;
          master = master;
          max_socket = max_int tcp_socket udp_socket;
          dest_ip_address_buffer = none;
        }))

  -- From the options of the sockets on.
  unfoldable pub listen_on : ℕ → ℕ → Block (Unit {0}) → M (Option Daemon)
  unfolding give_up start_loop
  listen_on u t info = check (call env (setsockopt_reuseaddr u)) (give_up (u ∷ t ∷ []) info) (
      check (call env (setsockopt_reuseaddr t)) (give_up (t ∷ u ∷ []) info) (
        check (call env (setsockopt_pktinfo u)) (give_up (u ∷ t ∷ []) info) (
          check (call env (bind_to u)) (give_up (u ∷ t ∷ []) info) (
            check (call env (bind_to t)) (give_up (u ∷ t ∷ []) info) (
              check (call env (listen t)) (give_up (t ∷ u ∷ []) info)
                (do free info.block; start_loop u t))))))

  unfoldable pub with_tcp : ℕ → Block (Unit {0}) → Option ℕ → M (Option Daemon)
  unfolding give_up listen_on
  with_tcp u info none = give_up (u ∷ []) info
  with_tcp u info (some t) = listen_on u t info

  unfoldable pub open_tcp : ℕ → M (Option Daemon)
  unfolding with_tcp
  open_tcp u =
      check (call env (getaddrinfo tcp)) (do emit (close u); pure none)
        (do info ← malloc tt; t ← ask_descriptor net (socket tcp); with_tcp u info t)

  unfoldable pub with_udp : Block (Unit {0}) → Option ℕ → M (Option Daemon)
  unfolding give_up open_tcp
  with_udp info none = give_up [] info
  with_udp info (some u) = do free info.block; open_tcp u

  -- `none` is EXIT_FAILURE. The first failure frees the null pointer, which is no block.
  unfoldable pub open_sockets : M (Option Daemon)
  unfolding with_udp
  open_sockets =
      check (call env (getaddrinfo udp)) (do emit freeaddrinfo; pure none)
        (do info ← malloc tt; u ← ask_descriptor net (socket udp); with_udp info u)
