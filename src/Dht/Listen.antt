-- ===== src/Dht/Listen.antt =====
-- What the listener guarantees: what it saves, what it drops, and that it keeps the heap.
use sentry_peer.Base.{
  ℕ, ◌+◌, ◌≡◌, refl, String, Bool, true, false, ◌||◌, ◌==◌, Option, none, some, List, ◌∷◌, ◌++◌,
  arith, count, count-append,
}
use sentry_peer.World.{World, Env, Str, M, pure, and_then, emit, free}
use sentry_peer.World.Calls.{
  sqlite_open, sqlite_prepare, sqlite_bind_text, sqlite_step, sqlite_column_int, sqlite_finalize,
  sqlite_close,
}
use sentry_peer.World.Ends.{
  Ends, ended, Holding, Keeps, Asserts, bind, branch, check-Ends, call-Ends, ask_number-Ends,
  emit-Ends, malloc-Ends, free-Ends,
}
use sentry_peer.Conf.Settings.{Build, Config}
use sentry_peer.Conf.Buffer.{c_string}
use sentry_peer.Actor.{BadActor}
use sentry_peer.Actor.Memory.{Owns, owned, bad_actor_destroy-Holding}
use sentry_peer.Json.{Jansson, Package}
use sentry_peer.Json.Memory.{Returned, json_to_bad_actor-Returned}
use sentry_peer.Database.Exists.{bad_actor_exists, find_event, db_bad_actor_exists}
use sentry_peer.Sip.NoLeak.{bad_actor_log-Keeps}
use sentry_peer.Dht.{received_event, store_event, handle_event, dht_value_callback}

module _ (env : Env) (is_valid_uuid : String → Bool) where
  find_event-Keeps :
      (uuid : String) (config : Config) → Keeps Asserts (find_event env is_valid_uuid uuid config)
  unfolding find_event
  find_event-Keeps uuid config bs w h =
      check-Ends (call-Ends env (sqlite_open (c_string config.db_file)) h) closes λ w1 h1.
        check-Ends (call-Ends env (sqlite_prepare bad_actor_exists) h1) closes λ w2 h2.
          check-Ends (call-Ends env (sqlite_bind_text 1 (some uuid)) h2) closes λ w3 h3.
            check-Ends (call-Ends env sqlite_step h3)
              (λ w' h'. bind (emit-Ends sqlite_finalize h') λ _ w5 h5. closes w5 h5)
              λ w4 h4. bind (ask_number-Ends env (sqlite_column_int 0) h4) λ found w5 h5.
                check-Ends (call-Ends env sqlite_finalize h5) closes λ w6 h6.
                  check-Ends (call-Ends env sqlite_close h6) (λ w' h'. ended h') λ w7 h7. ended h7
    where
      closes :
          (w' : World)
          → Holding bs w'
          → Ends Asserts
              (λ (_ : Bool) w2. Holding bs w2)
              (and_then (emit sqlite_close w') (λ _. pure false))
      closes w' h' = bind (emit-Ends sqlite_close h') λ _ w2 h2. ended h2

  pub db_bad_actor_exists-Keeps :
      (uuid : String) (config : Config)
      → Keeps Asserts (db_bad_actor_exists env is_valid_uuid (some uuid) config)
  unfolding db_bad_actor_exists
  db_bad_actor_exists-Keeps uuid config bs w h =
      branch (is_valid_uuid uuid) (find_event-Keeps uuid config bs w h) (ended h)

-- `true`, and the heap as it was.
abbrev pub Accepted : List ℕ → Bool → World → Type 0
Accepted bs rc w = (rc ≡ true) × Holding bs w

module _ {Json : Type 0} (j : Jansson Json) (is_valid_uuid : String → Bool) (env : Env)
    (pkg : Package) (build : Build) (post : Config → BadActor → M Bool) (config : Config)
    (post-Keeps : (b : BadActor) → Keeps Asserts (post config b)) where
  freed :
      (received : Str) {bs : List ℕ} {w : World}
      → Holding (received.block ∷ bs) w
      → Ends Asserts (Accepted bs) (and_then (free received.block w) (λ _. pure true))
  freed received {bs} h =
      bind (free-Ends received.block bs h (λ a. refl)) λ _ w1 h1. ended (refl, h1)

  store_event-Accepted :
      (received : Str) (o : Option BadActor) {bs : List ℕ} (w : World)
      → Returned (received.block ∷ bs) o w
      → Ends Asserts
          (Accepted bs)
          (store_event j is_valid_uuid env pkg build post config received o w)
  unfolding store_event
  store_event-Accepted received none w h = freed received h
  store_event-Accepted received (some b) {bs} w o =
      let h = held o in
      bind (bad_actor_log-Keeps env j pkg build post config post-Keeps b _ _ h) λ _ w1 h1.
        bind
          (free-Ends received.block (owned b ++ bs) h1
            (λ a. omega (arith, split a, count-append a (owned b) bs)))
          λ _ w2 h2.
            bind (bad_actor_destroy-Holding b bs h2 (λ a. count-append a (owned b) bs))
              λ _ w3 h3. ended (refl, h3)
    where
      split :
          (a : ℕ)
          → count a (owned b ++ received.block ∷ bs)
            ≡ count a (owned b) + count a (received.block ∷ bs)
      split a = count-append a (owned b) (received.block ∷ bs)

      held :
          {v : World} → Owns b (received.block ∷ bs) v → Holding (owned b ++ received.block ∷ bs) v
      held k = record { same = λ a. omega (arith, k.blocks a, split a) }

  handle_event-Accepted :
      (received : Str) (event : Option String) {bs : List ℕ} {w : World}
      → Holding (received.block ∷ bs) w
      → Ends Asserts
          (Accepted bs)
          (handle_event j is_valid_uuid env pkg build post config received event w)
  unfolding handle_event
  handle_event-Accepted received none h = freed received h
  handle_event-Accepted received (some uuid) h =
      bind (db_bad_actor_exists-Keeps env is_valid_uuid uuid config _ _ h) λ exists w1 h1.
        branch exists (freed received h1) (
          bind (json_to_bad_actor-Returned env j pkg config received.contents h1)
            λ o w2 h2. store_event-Accepted received o w2 h2)

  -- For any value that the DHT delivers and any answers of the environment: if the POST frees no block
  -- that is not allocated and leaves the heap as it is, the callback frees no block that is not
  -- allocated, and when it returns it asks to go on listening and exactly the blocks of before are
  -- allocated.
  pub dht_value_callback-Accepted :
      (size : ℕ) (value : String) (expired : Bool) (w : World)
      → Ends Asserts
          (Accepted w.live)
          (dht_value_callback j is_valid_uuid env pkg build post config size value expired w)
  unfolding dht_value_callback
  dht_value_callback-Accepted size value expired w =
      branch (expired || size == 0) (ended (refl, record { same = λ a. refl })) (
        bind (malloc-Ends value (record { same = λ a. refl })) λ received w1 h1.
          handle_event-Accepted received (received_event j is_valid_uuid config (j.loads value))
            h1.0)
