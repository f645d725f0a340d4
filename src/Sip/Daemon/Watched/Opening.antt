-- ===== src/Sip/Daemon/Watched/Opening.antt =====
-- What the set-up hands to the loop.
use sentry_peer.Base.{
  ℕ, ◌≤◌, ◌<◌, ◌≡◌, refl, ◌∙◌, sym, Bool, true, false, ◌||◌, ◌==◌, ◌⊎◌, inl, inr, ltb, Option, none,
  some, List, [], ◌∷◌, arith, if◌then◌else◌, ==→eq, ==_refl,
}
use sentry_peer.World.{World, Env, M, Block, and_then, when, malloc, call}
use sentry_peer.World.Calls.{udp, tcp, socket, getaddrinfo, freeaddrinfo, Call, close}
use sentry_peer.World.Ends.{Ends, ended, bind, branch}
use sentry_peer.Sip.Daemon.Setup.{
  Network, FdSet, fd_zero, fd_setsize, max_int, Daemon, ask_descriptor, give_up, start_loop,
  listen_on, with_tcp, open_tcp, with_udp, open_sockets,
}
use sentry_peer.Sip.Daemon.Watched.Runs.{Fueled, Runs, call-Runs, emit-Runs, free-Runs}
use sentry_peer.Sip.Daemon.Watched.Sets.{Watches, Watching, added_too, fd_set-Ends, of_either}

module _ (env : Env) (net : Network) where
  give_up-Watching :
      (fds : List ℕ) (info : Block (Unit {0})) (w : World)
      → Ends Fueled (Watching 0) (give_up env net fds info w)
  unfolding give_up
  give_up-Watching [] info w = bind (free-Runs info.block w) λ _ w1 _. ended tt
  give_up-Watching (fd ∷ fds) info w =
      bind (emit-Runs (close fd) w) λ _ w1 _. give_up-Watching fds info w1

  two_watched :
      (u t : ℕ) (set master : FdSet)
      → u < fd_setsize
      → t < fd_setsize
      → ((k : ℕ) → set k ≡ (k == u || false))
      → ((k : ℕ) → master k ≡ (k == t || set k))
      → Watches 0 (record {
        socket_listen_udp = u;
        socket_listen_tcp = t;
        master = master;
        max_socket = max_int t u;
        dest_ip_address_buffer = none;
      })
  unfolding max_int
  two_watched u t set master room_u room_t is_u is_t = record {
    udp_watched = is_t u ∙ added_too (u == t) (set u) (is_u u ∙ rw (==_refl u) refl);
    tcp_watched = is_t t ∙ rw (==_refl t) refl;
    reached = λ k e. either k (of_either (k == t) (set k) (sym (is_t k) ∙ e));
    small = ground arith;
    grown = omega arith;
  }
    where
      largest : (k : ℕ) → (k ≡ t) ⊎ (k ≡ u) → k ≤ (if ltb u t then t else u)
      largest k e = ground arith

      or_false : (b : Bool) → (b || false) ≡ true → b ≡ true
      or_false true e = refl
      or_false false e = absurd (cc)

      either : (k : ℕ) → ((k == t) ≡ true) ⊎ (set k ≡ true) → k ≤ (if ltb u t then t else u)
      either k (inl e) = largest k (inl (==→eq k t e))
      either k (inr e) = largest k (inr (==→eq k u (or_false (k == u) (sym (is_u k) ∙ e))))

  start_loop-Watching : (u t : ℕ) (w : World) → Ends Fueled (Watching 0) (start_loop env net u t w)
  unfolding start_loop
  start_loop-Watching u t w = bind (fd_set-Ends u fd_zero w) λ set w1 e1.
      bind (fd_set-Ends t set w1)
        λ master w2 e2. ended (two_watched u t set master e1.0 e2.0 e1.1 e2.1)

  or_give_up :
      (c : Call) (fds : List ℕ) (info : Block (Unit {0})) {k : M (Option Daemon)} (w : World)
      → ((w' : World) → Ends Fueled (Watching 0) (k w'))
      → Ends Fueled
          (Watching 0)
          (and_then (call env c w) (λ ok. when ok k (give_up env net fds info)))
  or_give_up c fds info w on =
      bind (call-Runs env c w) λ ok w1 _. branch ok (on w1) (give_up-Watching fds info w1)

  listen_on-Watching :
      (u t : ℕ) (info : Block (Unit {0})) (w : World)
      → Ends Fueled (Watching 0) (listen_on env net u t info w)
  unfolding listen_on
  listen_on-Watching u t info w = or_give_up _ (u ∷ t ∷ []) info w λ w1.
      or_give_up _ (t ∷ u ∷ []) info w1 λ w2. or_give_up _ (u ∷ t ∷ []) info w2 λ w3.
        or_give_up _ (u ∷ t ∷ []) info w3 λ w4. or_give_up _ (u ∷ t ∷ []) info w4 λ w5.
          or_give_up _ (t ∷ u ∷ []) info w5
            λ w6. bind (free-Runs info.block w6) λ _ w7 _. start_loop-Watching u t w7

  with_tcp-Watching :
      (u : ℕ) (info : Block (Unit {0})) (o : Option ℕ) (w : World)
      → Ends Fueled (Watching 0) (with_tcp env net u info o w)
  unfolding with_tcp
  with_tcp-Watching u info none w = give_up-Watching (u ∷ []) info w
  with_tcp-Watching u info (some t) w = listen_on-Watching u t info w

  info-Runs : (w : World) → Runs (malloc {A = Unit {0}} tt w)
  unfolding malloc
  info-Runs w = ended tt

  descriptor-Runs : (c : Call) (w : World) → Runs (ask_descriptor net c w)
  unfolding ask_descriptor
  descriptor-Runs c w = ended tt

  open_tcp-Watching : (u : ℕ) (w : World) → Ends Fueled (Watching 0) (open_tcp env net u w)
  unfolding open_tcp
  open_tcp-Watching u w = bind (call-Runs env (getaddrinfo tcp) w) λ ok w1 _.
      branch ok
        (bind (info-Runs w1) λ info w2 _.
          bind (descriptor-Runs (socket tcp) w2) λ t w3 _. with_tcp-Watching u info t w3)
        (bind (emit-Runs (close u) w1) λ _ w2 _. ended tt)

  with_udp-Watching :
      (info : Block (Unit {0})) (o : Option ℕ) (w : World)
      → Ends Fueled (Watching 0) (with_udp env net info o w)
  unfolding with_udp
  with_udp-Watching info none w = give_up-Watching [] info w
  with_udp-Watching info (some u) w = bind (free-Runs info.block w) λ _ w1 _. open_tcp-Watching u w1

  pub open_sockets-Watching : (w : World) → Ends Fueled (Watching 0) (open_sockets env net w)
  unfolding open_sockets
  open_sockets-Watching w = bind (call-Runs env (getaddrinfo udp) w) λ ok w1 _.
      branch ok
        (bind (info-Runs w1)
          λ info w2 _. bind (descriptor-Runs (socket udp) w2) λ u w3 _. with_udp-Watching info u w3)
        (bind (emit-Runs freeaddrinfo w1) λ _ w2 _. ended tt)
