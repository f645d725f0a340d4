-- ===== src/Sip/Daemon/Opened.antt =====
-- The descriptors and the addresses over the set-up of the SIP daemon.
use sentry_peer.Base.{ℕ, ◌≡◌, refl, Option, none, some, List, [], ◌∷◌, arith, count, ltb}
use sentry_peer.World.{World, Env, M, Block, and_then, when, call}
use sentry_peer.World.Calls.{
  Call, udp, tcp, getaddrinfo, socket, setsockopt_reuseaddr, setsockopt_pktinfo, bind_to, listen,
}
use sentry_peer.World.Ends.{Ends, ended, halted, bind, branch}
use sentry_peer.Sip.Daemon.Setup.{
  Network, FdSet, fd_zero, fd_setsize, fd_set, Daemon, give_up, start_loop, listen_on, with_tcp,
  open_tcp, with_udp, open_sockets,
}
use sentry_peer.Sip.Daemon.Descriptors.{
  opened_by, closed_by, Open, sockets_of, and_also, Overruns, Opens, call-Open, close-Open,
  info-Open, free-Open, descriptor-Open, freed_nothing,
}

module _ (start : World) where
  module _ (env : Env) (net : Network) {bs : List ℕ} where
    give_up-Opens :
        (fds : List ℕ) (info : Block (Unit {0})) {w : World}
        → Open start fds (info.block ∷ bs) w
        → Ends Overruns (Opens start bs) (give_up env net fds info w)
    unfolding give_up
    give_up-Opens [] info h = bind (free-Open start info.block bs (λ a. refl) h) λ _ w1 h1. ended h1
    give_up-Opens (fd ∷ fds) info h =
        bind (close-Open start fd fds (λ a. refl) h) λ _ w1 h1. give_up-Opens fds info h1

    -- One call of the set-up: what follows, or all is given back.
    or_give_up :
        (c : Call) (fds now : List ℕ) (info : Block (Unit {0})) {k : M (Option Daemon)} {w : World}
        → opened_by c ≡ []
        → closed_by c ≡ []
        → ((a : ℕ) → count a now ≡ count a fds)
        → Open start now (info.block ∷ bs) w
        → ((w' : World)
            → Open start now (info.block ∷ bs) w'
            → Ends Overruns (Opens start bs) (k w'))
        → Ends Overruns
            (Opens start bs)
            (and_then (call env c w) (λ ok. when ok k (give_up env net fds info)))
    or_give_up c fds now info o k e h on = bind (call-Open start env c o k h) λ ok w1 h1.
        branch ok (on w1 h1) (
          give_up-Opens fds info
            (record { heap = h1.heap; balance = λ a. omega (arith, h1.balance a, e a) }))

    fd_set-Opens :
        (fd : ℕ) (set : FdSet) {fds : List ℕ} {w : World}
        → Open start fds bs w
        → Ends Overruns (λ _ w'. Open start fds bs w') (fd_set fd set w)
    unfolding fd_set
    fd_set-Opens fd set h = branch (ltb fd fd_setsize) (ended h) (halted tt)

    start_loop-Opens :
        (u t : ℕ) {w : World}
        → Open start (t ∷ u ∷ []) bs w
        → Ends Overruns (Opens start bs) (start_loop env net u t w)
    unfolding start_loop
    start_loop-Opens u t h =
        bind (fd_set-Opens u fd_zero h)
          λ set w1 h1. bind (fd_set-Opens t set h1) λ master w2 h2. ended h2

    listen_on-Opens :
        (u t : ℕ) (info : Block (Unit {0})) {w : World}
        → Open start (t ∷ u ∷ []) (info.block ∷ bs) w
        → Ends Overruns (Opens start bs) (listen_on env net u t info w)
    unfolding listen_on
    listen_on-Opens u t info h =
        let ut = u ∷ t ∷ [] in
        let tu = t ∷ u ∷ [] in
        or_give_up (setsockopt_reuseaddr u) ut tu info refl refl (swap u t) h λ w1 h1.
          or_give_up (setsockopt_reuseaddr t) tu tu info refl refl (λ a. refl) h1
            λ w2 h2. or_give_up (setsockopt_pktinfo u) ut tu info refl refl (swap u t) h2 λ w3 h3.
              or_give_up (bind_to u) ut tu info refl refl (swap u t) h3 λ w4 h4.
                or_give_up (bind_to t) ut tu info refl refl (swap u t) h4 λ w5 h5.
                  or_give_up (listen t) tu tu info refl refl (λ a. refl) h5
                    λ w6 h6.
                      bind (free-Open start info.block bs (λ a. refl) h6)
                        λ _ w7 h7. start_loop-Opens u t h7
      where
        swap : (x y a : ℕ) → count a (y ∷ x ∷ []) ≡ count a (x ∷ y ∷ [])
        swap x y a = omega arith

    with_tcp-Opens :
        (u : ℕ) (info : Block (Unit {0})) (o : Option ℕ) {w : World}
        → Open start (and_also o (u ∷ [])) (info.block ∷ bs) w
        → Ends Overruns (Opens start bs) (with_tcp env net u info o w)
    unfolding with_tcp
    with_tcp-Opens u info none h = give_up-Opens (u ∷ []) info h
    with_tcp-Opens u info (some t) h = listen_on-Opens u t info h

    open_tcp-Opens :
        (u : ℕ) {w : World}
        → Open start (u ∷ []) bs w
        → Ends Overruns (Opens start bs) (open_tcp env net u w)
    unfolding open_tcp
    open_tcp-Opens u h = bind (call-Open start env (getaddrinfo tcp) refl refl h) λ ok w1 h1.
        branch ok
          (bind (info-Open start h1) λ info w2 h2.
            bind (descriptor-Open start net (socket tcp) refl refl h2)
              λ t w3 h3. with_tcp-Opens u info t h3)
          (bind (close-Open start u [] (λ a. refl) h1) λ _ w2 h2. ended h2)

    with_udp-Opens :
        (info : Block (Unit {0})) (o : Option ℕ) {w : World}
        → Open start (and_also o []) (info.block ∷ bs) w
        → Ends Overruns (Opens start bs) (with_udp env net info o w)
    unfolding with_udp
    with_udp-Opens info none h = give_up-Opens [] info h
    with_udp-Opens info (some u) h =
        bind (free-Open start info.block bs (λ a. refl) h) λ _ w1 h1. open_tcp-Opens u h1

module _ (env : Env) (net : Network) where
  -- Whatever the calls answer, the set-up frees no block that is not allocated; it stops at most by a
  -- write past the end of a set of descriptors. Where it fails, it has closed each descriptor that it
  -- opened, once; where it succeeds, all but the two of its sockets. Either way exactly the blocks of
  -- before are allocated, so each list of addresses is freed.
  pub open_sockets-Open :
      (w : World) → Ends Overruns (λ o w'. Open w (sockets_of o) w.live w') (open_sockets env net w)
  unfolding open_sockets
  open_sockets-Open w =
      let h : Open w [] w.live w = record {
        heap = record { same = λ a. refl };
        balance = λ a. omega arith;
      } in
      bind (call-Open w env (getaddrinfo udp) refl refl h) λ ok w1 h1.
        branch ok
          (bind (info-Open w h1) λ info w2 h2.
            bind (descriptor-Open w net (socket udp) refl refl h2)
              λ u w3 h3. with_udp-Opens w env net info u h3)
          (bind (freed_nothing w h1) λ _ w2 h2. ended h2)
