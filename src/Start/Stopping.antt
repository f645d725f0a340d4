-- ===== src/Start/Stopping.antt =====
-- Stopping the daemons: src/sentrypeer.c after its loop.
use sentry_peer.Base.{
  ℕ, ◌≡◌, refl, ap, ◌∙◌, sym, subst, Bool, true, false, not, ◌&&◌, Option, none, some, List,
  ==_refl, ◌∷◌, ◌++◌, if◌then◌else◌,
}
use sentry_peer.World.{World, Env, Stop, call, pure, when}
use sentry_peer.World.Calls.{
  mhd_stop_daemon, pthread_cancel, pthread_join, shutdown_sip_rs, dht_runner_delete,
  dht_runner_cancel_listen, dht_runner_shutdown, dht_op_token_delete,
}
use sentry_peer.World.Ends.{Ends, ended, bind, mono}
use sentry_peer.World.Held.{branch_on}
use sentry_peer.Conf.Settings.{Build, Config}
use sentry_peer.Http.Daemon.{http_daemon_stop}
use sentry_peer.Dht.Node.{peer_to_peer_dht_stop, op_context_free, stop_node}
use sentry_peer.Sip.Daemon.Threads.{sip_daemon_stop, cancel_thread}
use sentry_peer.Start.Main.{stop_daemons}
use sentry_peer.Start.Services.{
  Sip, off, cancel, join, shut_down, Services, nothing_runs, after_call, Succeeds, Up, emit-Up,
  call-Up, check-Up, free-Up,
}
use sentry_peer.Start.Wanted.{
  sip_wanted, SameModes, wanted, Listens, listener, running_as, log_progress-Up,
}

-- What `sip_daemon_stop` leaves of the SIP daemon.
abbrev stopped_sip : (new have_rust : Bool) → ℕ → Sip → Sip
stopped_sip new have_rust t s =
    let cancelled_first = if not new then join t (cancel t s) else s in
    if have_rust && new then shut_down cancelled_first else cancelled_first

-- Whichever SIP daemon runs is stopped, if the number is that of its thread.
either_way :
    (new have_rust mode : Bool) (t : ℕ)
    → stopped_sip new have_rust t (sip_wanted mode new have_rust t) ≡ off
either_way true true true t = refl
either_way true true false t = refl
either_way true false true t = refl
either_way true false false t = refl
either_way false true true t = rw (==_refl t) (rw (==_refl t) refl)
either_way false true false t = refl
either_way false false true t = rw (==_refl t) (rw (==_refl t) refl)
either_way false false false t = refl

module _ {S : Stop → Type 0} where
  node_stops :
      (ctx : ℕ) {s : Services} {bs : List ℕ} {w : World}
      → Up s (ctx ∷ bs) w
      → Ends S (λ _ w'. Up (record s { dht = false }) bs w') (stop_node (some ctx) w)
  unfolding stop_node after_call op_context_free
  node_stops ctx {bs = bs} u = bind (emit-Up u dht_runner_cancel_listen) λ _ w1 u1.
      bind (emit-Up u1 dht_runner_shutdown) λ _ w2 u2.
        bind (emit-Up u2 dht_op_token_delete) λ _ w3 u3.
          bind (emit-Up u3 dht_runner_delete)
            λ _ w4 u4. bind (free-Up ctx bs (λ a. refl) u4) λ _ w5 u5. ended u5

  module _ (env : Env) (ok : Succeeds env) (build : Build) where
    stop_http-Up :
        (config : Config) {s : Services} {bs : List ℕ} {w : World}
        → s.http ≡ config.api_mode
        → Up s bs w
        → Ends S
            (λ _ w'. Up (record s { http = false }) bs w')
            (when config.api_mode (http_daemon_stop config) (pure true) w)
    unfolding http_daemon_stop after_call
    stop_http-Up config {s = s} e u =
        branch_on config.api_mode (λ on. bind (emit-Up u mhd_stop_daemon) λ _ w1 u1. ended u1)
          (λ off. ended (running_as (ap (λ b. record s { http = b }) (e ∙ off)) u))

    cancel-Up :
        (b : Bool) (t : ℕ) {s : Services} {bs : List ℕ} {w : World}
        → Up s bs w
        → Ends S
            (λ r w'.
              (r ≡ true)
              × Up (record s { sip = if b then join t (cancel t s.sip) else s.sip }) bs w')
            (when b (cancel_thread env build t) (pure true) w)
    unfolding cancel_thread after_call
    cancel-Up true t u =
        check-Up u env ok (pthread_cancel t) _ λ w1 u1. call-Up u1 env ok (pthread_join t)
    cancel-Up false t u = ended (refl, u)

    shutdown-Up :
        (b : Bool) {s : Services} {bs : List ℕ} {w : World}
        → Up s bs w
        → Ends S
            (λ _ w'. Up (record s { sip = if b then shut_down s.sip else s.sip }) bs w')
            (when b (call env shutdown_sip_rs) (pure true) w)
    unfolding after_call
    shutdown-Up true u = mono (call-Up u env ok shutdown_sip_rs) λ _ _ k. k.1
    shutdown-Up false u = ended u

    stop_sip-Up :
        (config : Config) (mode : Bool) {s : Services} {bs : List ℕ} {w : World}
        → s.sip ≡ sip_wanted mode config.new_mode build.have_rust config.sip_daemon_thread
        → Up s bs w
        → Ends S (λ _ w'. Up (record s { sip = off }) bs w') (sip_daemon_stop env build config w)
    unfolding sip_daemon_stop
    stop_sip-Up config mode {s = s} e u =
        bind (cancel-Up (not config.new_mode) config.sip_daemon_thread u) λ r w1 k.
          branch_on r
            (λ _.
              mono (shutdown-Up (build.have_rust && config.new_mode) k.1)
                λ _ w2 up. running_as (ap (λ x. record s { sip = x }) stops) up)
            (λ failed. absurd (cc))
      where
        stops : stopped_sip config.new_mode build.have_rust config.sip_daemon_thread s.sip ≡ off
        stops =
            ap (stopped_sip config.new_mode build.have_rust config.sip_daemon_thread) e
            ∙ either_way config.new_mode build.have_rust mode config.sip_daemon_thread

    stop_dht-Up :
        (config : Config) (ctx : Option ℕ) {s : Services} {bs : List ℕ} {w : World}
        → config.dht_op_token ≡ ctx
        → Listens (build.have_opendht && config.p2p_dht_mode) ctx
        → s.dht ≡ (build.have_opendht && config.p2p_dht_mode)
        → Up s (listener ctx ++ bs) w
        → Ends S
            (λ _ w'. Up (record s { dht = false }) bs w')
            (when
              (build.have_opendht && config.p2p_dht_mode)
              (peer_to_peer_dht_stop config)
              (pure true)
              w)
    unfolding peer_to_peer_dht_stop
    stop_dht-Up config none {s = s} e listens d u =
        branch_on (build.have_opendht && config.p2p_dht_mode) (λ on. absurd (listens.if_on on refl))
          (λ off. ended (running_as (ap (λ b. record s { dht = b }) (d ∙ off)) u))
    stop_dht-Up config (some ctx) {s = s} e listens d u =
        branch_on (build.have_opendht && config.p2p_dht_mode) (λ on. rw e (node_stops ctx u))
          (λ off. absurd (cc (listens.if_off off)))

    -- From what starting has left, the number of the SIP daemon's thread included, if every call succeeds, stopping the daemons always returns. Then
    -- nothing runs, and the listener's context is freed.
    pub stop_daemons-Up :
        (config c : Config) (ctx : Option ℕ) (t : ℕ) {bs : List ℕ} {w : World}
        → SameModes (record config { dht_op_token = ctx; sip_daemon_thread = t }) c
        → Listens (build.have_opendht && config.p2p_dht_mode) ctx
        → Up (wanted build config t) (listener ctx ++ bs) w
        → Ends S (λ _ w'. Up nothing_runs bs w') (stop_daemons env build c w)
    unfolding stop_daemons
    stop_daemons-Up config c ctx t same listens u = bind (log_progress-Up c _ u) λ _ w1 u1.
        bind (stop_http-Up c (sym same.api_mode) u1) λ _ w2 u2.
          bind (stop_sip-Up c config.sip_mode (cc (same.new_mode, same.thread_is)) u2) λ _ w3 u3.
            bind
              (stop_dht-Up c ctx same.listening
                (subst (λ b. Listens (build.have_opendht && b) ctx) (sym same.p2p_dht_mode) listens)
                (ap (λ b. build.have_opendht && b) (sym same.p2p_dht_mode)) u3)
              λ _ w4 u4. log_progress-Up c _ u4
