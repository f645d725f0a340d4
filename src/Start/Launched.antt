-- ===== src/Start/Launched.antt =====
-- Starting the HTTP daemon and the SIP daemon: src/sentrypeer.c.
use sentry_peer.Base.{
  ℕ, ap, if◌then◌else◌, ◌≡◌, refl, Bool, true, false, not, ◌&&◌, List, ◌∷◌, String, arith,
}
use sentry_peer.World.{World, Env, Stop, malloc, call, pure, when}
use sentry_peer.World.Calls.{
  mhd_start_daemon, pthread_setcanceltype, pthread_create, pthread_created, thread_number,
  pthread_setname_np, run_sip_server_rs,
}
use sentry_peer.World.Ends.{Ends, ended, bind, mono}
use sentry_peer.World.Held.{branch_on}
use sentry_peer.Conf.Settings.{Build, Config}
use sentry_peer.Http.Daemon.{http_daemon_init, http_daemon_port}
use sentry_peer.Sip.Daemon.Threads.{sip_daemon_run}
use sentry_peer.Start.Main.{or_leave, start_http, start_sip}
use sentry_peer.Start.Services.{
  Sip, off, rust, thread, Services, nothing_runs, after_call, Succeeds, Up, emit-Up, ask_number-Up,
  call-Up, check-Up,
}
use sentry_peer.Start.Wanted.{sip_wanted, SameModes, running_as, unchanged, wanted}

is_false : (b : Bool) → not b ≡ true → b ≡ false
is_false true e = absurd (cc)
is_false false e = refl

is_true : (b : Bool) → not b ≡ false → b ≡ true
is_true true e = refl
is_true false e = absurd (cc)

abbrev only_sip : Bool → Sip → Services
only_sip h x = record { http = h; sip = x; dht = false }

as_sip : {h : Bool} {a b : Sip} → a ≡ b → only_sip h a ≡ only_sip h b
as_sip {h} e = ap (only_sip h) e

either : (t : ℕ) (b : Bool) → (if b && true then rust else off) ≡ sip_wanted true true b t
either t true = refl
either t false = refl

-- A daemon has started: its result is a success, and some services run.
abbrev pub Starts : Config → Services → List ℕ → (Bool × Config) → World → Type 0
Starts config s bs r w = (r.0 ≡ true) × SameModes config r.1 × Up s bs w

module _ {S : Stop → Type 0} where
  pub context-Up :
      {s : Services} {bs : List ℕ} {w : World}
      → Up s bs w
      → Ends S (λ ctx w'. Up s (ctx.block ∷ bs) w') (malloc {A = Unit {0}} tt w)
  unfolding malloc
  context-Up u =
      ended (record {
        services = u.services;
        heap = record { same = λ a. omega (arith, u.heap.same a) };
      })

  pub or_leave-Up :
      (format : String) (config : Config) (r : Bool × Config) {s : Services} {bs : List ℕ}
      (w : World)
      → Starts config s bs r w
      → Ends S (λ c w'. SameModes config c × Up s bs w') (or_leave format r w)
  unfolding or_leave
  or_leave-Up format config (true, c) w h = ended (h.1, h.2)
  or_leave-Up format config (false, c) w h = absurd (cc)

  module _ (env : Env) (ok : Succeeds env) (build : Build) where
    http_daemon_init-Starts :
        (config : Config) {s : Services} {bs : List ℕ} {w : World}
        → Up s bs w
        → Ends S (Starts config (record s { http = true }) bs) (http_daemon_init env config w)
    unfolding http_daemon_init after_call
    http_daemon_init-Starts config u =
        check-Up u env ok (mhd_start_daemon http_daemon_port) _ λ w1 u1. ended (
          refl,
          record {
            api_mode = refl;
            new_mode = refl;
            p2p_dht_mode = refl;
            sip_mode = refl;
            thread_is = refl;
            token = refl;
            listening = refl;
          },
          u1,
        )

    pub start_http-Up :
        (config : Config) {bs : List ℕ} {w : World}
        → Up nothing_runs bs w
        → Ends S
            (λ c w'.
              SameModes config c
              × Up (record { http = config.api_mode; sip = off; dht = false }) bs w')
            (start_http env build config w)
    unfolding start_http
    start_http-Up config u =
        branch_on config.api_mode
          (λ on. bind (http_daemon_init-Starts config u) λ r w1 h.
            mono (or_leave-Up _ config r w1 h) λ c w2 k. (k.0, running_as (ground arith) k.1))
          (λ off. ended (unchanged, running_as (ground arith) u))

    sip_daemon_run-Starts :
        (config : Config) {s : Services} {bs : List ℕ} {w : World}
        → Up s bs w
        → Ends S
            (λ r w'.
              (t : ℕ) × Starts
                (record config { sip_daemon_thread = t })
                (record s { sip = thread t })
                bs
                r
                w')
            (sip_daemon_run env build config w)
    unfolding sip_daemon_run after_call
    sip_daemon_run-Starts config u = bind (emit-Up u pthread_setcanceltype) λ _ w1 u1.
        check-Up u1 env ok pthread_create _ λ w2 u2.
          bind (ask_number-Up u2 env pthread_created) λ t w3 u3.
            bind (emit-Up u3 (thread_number t)) λ _ w5 u5.
              check-Up u5 env ok (pthread_setname_np t) _ λ w4 u4. ended (
                t,
                (
                  refl,
                  record {
                    api_mode = refl;
                    new_mode = refl;
                    p2p_dht_mode = refl;
                    sip_mode = refl;
                    thread_is = refl;
                    token = refl;
                    listening = refl;
                  },
                  u4,
                ),
              )

    rust_sip-Up :
        (b : Bool) {h : Bool} {bs : List ℕ} {w : World}
        → Up (record { http = h; sip = off; dht = false }) bs w
        → Ends S
            (λ r w'.
              (r ≡ true)
              × Up (record { http = h; sip = if b then rust else off; dht = false }) bs w')
            (when b (call env run_sip_server_rs) (pure true) w)
    unfolding after_call
    rust_sip-Up true u = call-Up u env ok run_sip_server_rs
    rust_sip-Up false u = ended (refl, u)

    pub start_sip-Up :
        (config : Config) {h : Bool} {bs : List ℕ} {w : World}
        → Up (record { http = h; sip = off; dht = false }) bs w
        → Ends S
            (λ c w'.
              (t : ℕ) × SameModes (record config { sip_daemon_thread = t }) c
              × Up (record { http = h; sip = (wanted build config t).sip; dht = false }) bs w')
            (start_sip env build config w)
    unfolding start_sip
    start_sip-Up config u =
        branch_on config.sip_mode
          (λ on. bind (rust_sip-Up (build.have_rust && config.new_mode) u) λ r w1 k.
            branch_on r
              (λ _.
                branch_on (not config.new_mode)
                  (λ old. bind (sip_daemon_run-Starts config k.1) λ r w2 (t, h).
                    mono (or_leave-Up _ (record config { sip_daemon_thread = t }) r w2 h)
                      λ c w3 m. (t, m.0, running_as (as_sip (old_mode on old)) m.1))
                  (λ new. ended (
                    config.sip_daemon_thread,
                    unchanged,
                    running_as (as_sip (new_mode _ on new)) k.1,
                  )))
              (λ failed. absurd (cc)))
          (λ no_sip.
            ended (config.sip_daemon_thread, unchanged, running_as (as_sip (rw no_sip refl)) u))
      where
        old_mode :
            {t : ℕ}
            → config.sip_mode ≡ true
            → not config.new_mode ≡ true
            → thread t ≡ sip_wanted config.sip_mode config.new_mode build.have_rust t
        old_mode {t} on old = rw (on, is_false config.new_mode old) refl

        new_mode :
            (t : ℕ)
            → config.sip_mode ≡ true
            → not config.new_mode ≡ false
            → (if build.have_rust && config.new_mode then rust else off)
              ≡ sip_wanted config.sip_mode config.new_mode build.have_rust t
        new_mode t on new = rw (on, is_true config.new_mode new) (either t build.have_rust)
