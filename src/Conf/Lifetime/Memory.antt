-- ===== src/Conf/Lifetime/Memory.antt =====
-- The memory of the configuration, from its constructor to its destructor.
use sentry_peer.Base.{
  ℕ, ◌≡◌, refl, ap, String, ◌∙◌, sym, subst, Bool, true, false, Option, none, some, List, [], ◌∷◌,
  ◌++◌, count-append,
}
use mathlib.Core.Option.{get_or}
use sentry_peer.World.{World, Env, Stop, Str, M, pure, when, ◌>>=◌, ◌>>◌}
use sentry_peer.World.Calls.{uuid_generate}
use sentry_peer.World.Ends.{Ends, ended, Holding, bind, malloc-Ends, free-Ends, ask_text-Ends}
use sentry_peer.Actor.{free_if_set}
use sentry_peer.Actor.Memory.{blocks_of}
use sentry_peer.Conf.Settings.{Build, Config, Defaults, sentrypeer_config_new}
use sentry_peer.Conf.Lifetime.{
  ConfigPointers, allocate, allocate_if, free_pointer, new_config, sentrypeer_config_destroy,
}
use sentry_peer.Conf.Lifetime.Owned.{
  pointed, pointed_if, with_tls, token_of, owned_with, token_apart, fresh_order,
}

module _ {S : Stop → Type 0} where
  freed :
      (p : Option ℕ) {ys : List ℕ} {w : World}
      → Holding (pointed p ++ ys) w
      → Ends S (λ _ w'. Holding ys w') (free_pointer p w)
  unfolding free_pointer
  freed none h = ended h
  freed (some b) {ys} h = free-Ends b ys h (λ a. refl)

  freed_if :
      (b : Bool) (p : Option ℕ) {ys : List ℕ} {w : World}
      → Holding (pointed_if b p ++ ys) w
      → Ends S (λ _ w'. Holding ys w') (when b (free_pointer p) (pure tt) w)
  freed_if true p h = freed p h
  freed_if false p h = ended h

  allocated :
      {bs : List ℕ} {w : World} → Holding bs w → Ends S (λ b w'. Holding (b ∷ bs) w') (allocate w)
  unfolding allocate
  allocated h = bind (malloc-Ends tt h) λ b w1 h1. ended h1.0

  allocated_if :
      (b : Bool) {bs : List ℕ} {w : World}
      → Holding bs w
      → Ends S (λ p w'. Holding (pointed_if b p ++ bs) w') (allocate_if b w)
  unfolding allocate_if
  allocated_if true h = bind (allocated h) λ b w1 h1. ended h1
  allocated_if false h = ended h

  freed_token :
      (t : Option Str) {ys : List ℕ} {w : World}
      → Holding (blocks_of (t ∷ []) ++ ys) w
      → Ends S (λ _ w'. Holding ys w') (free_if_set t w)
  unfolding free_if_set
  freed_token none h = ended h
  freed_token (some s) {ys} h = free-Ends s.block ys h (λ a. refl)

  freed_tls :
      (b : Bool) (p : ConfigPointers) {ys : List ℕ} {w : World}
      → Holding (with_tls b p ys) w
      → Ends S
          (λ _ w'. Holding ys w')
          (when b
            (do
              free_pointer p.tls_cert_file
              free_pointer p.tls_key_file
              free_pointer p.tls_listen_address
              free_pointer p.config_file)
            (pure tt)
            w)
  freed_tls true p h = bind (freed p.tls_cert_file h) λ _ w1 h1.
      bind (freed p.tls_key_file h1)
        λ _ w2 h2. bind (freed p.tls_listen_address h2) λ _ w3 h3. freed p.config_file h3
  freed_tls false p h = ended h

  pub new_config-Owns :
      (env : Env) (build : Build) (d : Defaults) {bs : List ℕ} {w : World}
      → Holding bs w
      → Ends S
          (λ r w'.
            Holding (owned_with build [] r.1 bs) w'
            × ((uuid : String) × (r.0 ≡ sentrypeer_config_new build d uuid)))
          (new_config env build d w)
  unfolding new_config sentrypeer_config_new
  new_config-Owns env build d {bs} h = bind (allocated h) λ self w1 h1.
      bind (allocated h1) λ uuid w2 h2. bind (ask_text-Ends env uuid_generate h2) λ t w3 h3.
        bind (allocated h3) λ db w4 h4. bind (allocated h4) λ json w5 h5.
          bind (allocated h5) λ node w6 h6. bind (allocated h6) λ url w7 h7.
            bind (allocated h7) λ id w8 h8. bind (allocated h8) λ secret w9 h9.
              bind (allocated_if build.have_opendht h9) λ hash w10 h10. ended (
                record {
                  same = λ a.
                      h10.same a
                      ∙ fresh_order a build.have_rust build.have_opendht hash self uuid db json node
                          url id secret bs;
                },
                (get_or t "", refl),
              )

  pub sentrypeer_config_destroy-Holding :
      (build : Build) (config : Config) (p : ConfigPointers) (ys : List ℕ) {w : World}
      → Holding (owned_with build (token_of config) p ys) w
      → Ends S (λ _ w'. Holding ys w') (sentrypeer_config_destroy build config p w)
  unfolding sentrypeer_config_destroy
  sentrypeer_config_destroy-Holding build config p ys h = bind (freed p.node_id h) λ _ w1 h1.
      bind (freed_if build.have_opendht p.dht_info_hash h1) λ _ w2 h2.
        bind (freed p.p2p_bootstrap_node h2) λ _ w3 h3. bind (freed p.webhook_url h3) λ _ w4 h4.
          bind (freed p.oauth2_client_id h4) λ _ w5 h5.
            bind (freed p.oauth2_client_secret h5) λ _ w6 h6.
              bind (freed_token config.oauth2_access_token h6) λ _ w7 h7.
                bind (freed p.db_file h7) λ _ w8 h8. bind (freed p.json_log_file h8) λ _ w9 h9.
                  bind (freed_tls build.have_rust p h9)
                    λ _ w10 h10. free-Ends p.self ys h10 (λ a. refl)

new_config-token :
    {config : Config} (build : Build) (d : Defaults)
    → ((uuid : String) × (config ≡ sentrypeer_config_new build d uuid))
    → config.oauth2_access_token ≡ none
unfolding sentrypeer_config_new
new_config-token build d (uuid, e) = ap (λ c. c.oauth2_access_token) e

module _ {S : Stop → Type 0} (env : Env) (build : Build) (d : Defaults) where
  -- Whatever runs between the constructor and the destructor, if it keeps the other blocks and leaves
  -- the configuration with no token or with one that is allocated: the destructor always returns, and
  -- exactly the blocks from before the constructor are allocated.
  pub new_config-destroy :
      (body : Config → M Config)
      → ((config : Config) (xs : List ℕ) (w : World)
          → Holding (token_of config ++ xs) w
          → Ends S (λ config' w'. Holding (token_of config' ++ xs) w') (body config w))
      → (bs : List ℕ) (w : World) → Holding bs w
      → Ends S
          (λ _ w'. Holding bs w')
          ((new_config env build d >>= λ r.
              body r.0 >>= λ config. sentrypeer_config_destroy build config r.1)
            w)
  new_config-destroy body body-Holding bs w h = bind (new_config-Owns env build d h) λ r w1 owned.
      bind
        (body-Holding r.0 (owned_with build [] r.1 bs) w1 (
          subst (λ t. Holding (blocks_of (t ∷ []) ++ owned_with build [] r.1 bs) w1)
            (sym (new_config-token build d owned.1)) owned.0))
        λ config w2 k. sentrypeer_config_destroy-Holding build config r.1 bs (record {
          same = λ a.
              k.same a
              ∙ (count-append a (token_of config) (owned_with build [] r.1 bs)
                  ∙ sym (token_apart a build (token_of config) r.1 bs));
        })
