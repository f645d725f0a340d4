-- ===== src/Start/Starting.antt =====
-- Starting the DHT node, and all daemons: src/sentrypeer.c up to its loop.
use sentry_peer.Base.{
  ℕ, ◌≡◌, refl, ◌∙◌, subst, Bool, true, false, ◌&&◌, Option, none, some, List, ◌∷◌, ◌++◌, arith,
}
use sentry_peer.World.{World, Env, Stop}
use sentry_peer.World.Calls.{
  openlog, sleep, dht_runner_listen, dht_runner_new, dht_runner_run_config, dht_runner_bootstrap,
}
use sentry_peer.World.Ends.{Ends, ended, bind, branch, mono}
use sentry_peer.World.Held.{branch_on}
use sentry_peer.Conf.Settings.{Build, Config}
use sentry_peer.Dht.Node.{dht_port, dht_bootstrap_wait_time, peer_to_peer_dht_run}
use sentry_peer.Start.Main.{start_dht, start_daemons}
use sentry_peer.Start.Services.{
  Sip, Services, nothing_runs, after_call, Succeeds, Up, emit-Up, check-Up,
}
use sentry_peer.Start.Wanted.{Listens, SameModes, listener, log_progress-Up, running_as, wanted}
use sentry_peer.Start.Launched.{Starts, context-Up, or_leave-Up, start_http-Up, start_sip-Up}

module _ {S : Stop → Type 0} where
  module _ (env : Env) (ok : Succeeds env) (build : Build) where
    peer_to_peer_dht_run-Starts :
        (config : Config) {s : Services} {bs : List ℕ} {w : World}
        → Up s bs w
        → Ends S
            (λ r w'.
              (ctx : ℕ) × (r.1.dht_op_token ≡ some ctx)
              × Starts
                  (record config { dht_op_token = some ctx })
                  (record s { dht = true })
                  (ctx ∷ bs)
                  r
                  w')
            (peer_to_peer_dht_run env config w)
    unfolding peer_to_peer_dht_run after_call
    peer_to_peer_dht_run-Starts config u = check-Up u env ok dht_runner_new _ λ w1 u1.
        bind (emit-Up u1 (dht_runner_run_config dht_port)) λ _ w2 u2.
          bind (context-Up u2) λ ctx w3 u3. bind (emit-Up u3 dht_runner_bootstrap) λ _ w4 u4.
            bind (emit-Up u4 (sleep dht_bootstrap_wait_time)) λ _ w5 u5.
              check-Up u5 env ok dht_runner_listen _ λ w6 u6. ended (
                ctx.block,
                refl,
                (
                  refl,
                  record {
                    api_mode = refl;
                    new_mode = refl;
                    p2p_dht_mode = refl;
                    sip_mode = refl;
                    thread_is = refl;
                    token = refl;
                    listening = refl;
                  },
                  u6,
                ),
              )

    start_dht-Up :
        (config : Config) {h : Bool} {p : Sip} {bs : List ℕ} {w : World}
        → Up (record { http = h; sip = p; dht = false }) bs w
        → config.dht_op_token ≡ none
        → Ends S
            (λ c w'.
              (ctx : Option ℕ) × SameModes (record config { dht_op_token = ctx }) c
              × Listens (build.have_opendht && config.p2p_dht_mode) ctx
              × Up
                  (record { http = h; sip = p; dht = build.have_opendht && config.p2p_dht_mode })
                  (listener ctx ++ bs)
                  w')
            (start_dht env build config w)
    unfolding start_dht
    start_dht-Up config u null =
        branch_on (build.have_opendht && config.p2p_dht_mode)
          (λ on. bind (peer_to_peer_dht_run-Starts config u) λ r w1 h.
            mono (or_leave-Up _ _ r w1 h.2) λ c w2 k. (
              some h.0,
              k.0,
              record { if_on = λ _ e. cc; if_off = λ off. absurd (cc) },
              running_as (ground arith) k.1,
            ))
          (λ off. ended (
            none,
            same null,
            record { if_on = λ on. absurd (cc); if_off = λ _. refl },
            running_as (ground arith) u,
          ))
      where
        same : config.dht_op_token ≡ none → SameModes (record config { dht_op_token = none }) config
        same e = record {
          api_mode = refl;
          new_mode = refl;
          p2p_dht_mode = refl;
          sip_mode = refl;
          thread_is = refl;
          token = refl;
          listening = e;
        }

    -- If every call succeeds, nothing runs yet, and the pointer to a token of the DHT is null: starting
    -- the daemons always returns. Then exactly the services that the configuration asks for run, the SIP
    -- daemon in the thread whose number the configuration then has, and beside the blocks of before the
    -- context of the DHT's listener is allocated, if the DHT is on.
    pub start_daemons-Wanted :
        (config : Config) {bs : List ℕ} {w : World}
        → config.dht_op_token ≡ none
        → Up nothing_runs bs w
        → Ends S
            (λ c w'.
              (ctx : Option ℕ) × (t : ℕ) × SameModes
                (record config { dht_op_token = ctx; sip_daemon_thread = t })
                c
              × Listens (build.have_opendht && config.p2p_dht_mode) ctx
              × Up (wanted build config t) (listener ctx ++ bs) w')
            (start_daemons env build config w)
    unfolding start_daemons after_call
    start_daemons-Wanted config null u =
        bind (branch config.syslog_mode (emit-Up u openlog) (ended u)) λ _ w1 u1.
          bind (log_progress-Up config _ u1) λ _ w2 u2.
            bind (start_http-Up env ok build config u2) λ c w3 h.
              bind (start_sip-Up env ok build c h.1) λ c' w4 (t, modes, up4).
                mono (start_dht-Up c' up4 (modes.listening ∙ (h.0.listening ∙ null)))
                  λ c'' w5 (ctx, same, listens, up).
                    let p2p = modes.p2p_dht_mode ∙ h.0.p2p_dht_mode in
                    (
                      ctx,
                      t,
                      record {
                        thread_is = same.thread_is ∙ modes.thread_is;
                        api_mode = same.api_mode ∙ (modes.api_mode ∙ h.0.api_mode);
                        new_mode = same.new_mode ∙ (modes.new_mode ∙ h.0.new_mode);
                        p2p_dht_mode = same.p2p_dht_mode ∙ p2p;
                        sip_mode = same.sip_mode ∙ (modes.sip_mode ∙ h.0.sip_mode);
                        token = same.token ∙ (modes.token ∙ h.0.token);
                        listening = same.listening;
                      },
                      subst (λ b. Listens (build.have_opendht && b) ctx) p2p listens,
                      running_as (cc (p2p, h.0.sip_mode, h.0.new_mode)) up,
                    )
