-- ===== src/Database/Lookup.antt =====
-- The heap over the lookups of src/database.c, `db_select_bad_actor_by_ip` and
-- `db_select_phone_number`: what they allocate belongs to the bad actor that they return.
use sentry_peer.Base.{ℕ, ◌≡◌, refl, String, Option, none, some, List, [], ◌∷◌, arith, count}
use sentry_peer.World.{World, Env, Str, and_then, call, emit, pure, when}
use sentry_peer.World.Calls.{
  sqlite_open, sqlite_prepare, sqlite_bind_text, sqlite_step, sqlite_column_text, sqlite_finalize,
  sqlite_close,
}
use sentry_peer.World.Ends.{
  Ends, ended, halted, Holding, Asserts, bind, mono, check-Ends, call-Ends, ask_text-Ends,
  emit-Ends, malloc-Ends,
}
use sentry_peer.Conf.Settings.{Config}
use sentry_peer.Conf.Buffer.{c_string}
use sentry_peer.Actor.{BadActor, built, util_duplicate_string, bad_actor_destroy}
use sentry_peer.Actor.Memory.{Owns, owned, bad_actor_new-built, bad_actor_destroy-Holding}
use sentry_peer.Json.Memory.{Returned}
use sentry_peer.Database.Select.{
  Column, source_ip, called_number, store_column, found_row, select_one,
}

-- A bad actor with a key stored in one of its null fields owns the key as well.
stored_blocks :
    (column : Column) (key : Str) (a : ℕ) (self : ℕ) (timestamp uuid node_id : Str)
    → count a (
        owned (
          store_column column key
            (built self timestamp uuid node_id none none none none none none none none)))
      ≡ count a (key.block ∷ node_id.block ∷ uuid.block ∷ timestamp.block ∷ self ∷ [])
stored_blocks source_ip key a self timestamp uuid node_id = omega arith
stored_blocks called_number key a self timestamp uuid node_id = omega arith

module _ (env : Env) where
  pub duplicated-Ends :
      (t : Option String) {bs : List ℕ} {w : World}
      → Holding bs w
      → Ends Asserts (λ s w'. Holding (s.block ∷ bs) w') (util_duplicate_string t w)
  unfolding util_duplicate_string
  duplicated-Ends none h = halted tt
  duplicated-Ends (some t) h = mono (malloc-Ends t h) λ s w1 h1. h1.0

  -- A failure after the row: the bad actor is destroyed, whatever is called before and after.
  destroyed-Holding :
      (b : BadActor) (bs : List ℕ) {w : World}
      → Owns b bs w
      → Ends Asserts (λ _ w'. Holding bs w') (bad_actor_destroy (some b) w)
  destroyed-Holding b bs {w} o =
      bad_actor_destroy-Holding b {xs = w.live} bs (record { same = λ a. refl }) o.blocks

  -- The two failures after the row, and the success.
  finish-Returned :
      (b : BadActor) {bs : List ℕ} {w : World}
      → Owns b bs w
      → Ends Asserts (Returned bs) (
          and_then (call env sqlite_finalize w) λ ok.
            when ok
              (λ w1. and_then (call env sqlite_close w1) λ ok2.
                when ok2
                  (pure (some b))
                  (λ w2. and_then (bad_actor_destroy (some b) w2) λ _. pure none))
              (λ w1.
                and_then
                  (bad_actor_destroy (some b) w1)
                  λ _ w2. and_then (emit sqlite_close w2) λ _. pure none))
  finish-Returned b {bs} {w} o =
      check-Ends {bs = w.live} (call-Ends env sqlite_finalize (record { same = λ a. refl }))
        (λ w1 h1.
          bind
            (destroyed-Holding b bs (record { blocks = λ a. omega (arith, h1.same a, o.blocks a) }))
            λ _ w2 h2. bind (emit-Ends sqlite_close h2) λ _ w3 h3. ended h3)
        λ w1 h1.
          check-Ends (call-Ends env sqlite_close h1)
            (λ w2 h2.
              bind
                (destroyed-Holding b bs
                  (record { blocks = λ a. omega (arith, h2.same a, o.blocks a) }))
                λ _ w3 h3. ended h3)
            λ w2 h2. ended (record { blocks = λ a. omega (arith, h2.same a, o.blocks a) })

  found_row-Returned :
      (column : Column) (self : ℕ) (timestamp uuid node_id : Str) {bs : List ℕ} {w : World}
      → Holding (node_id.block ∷ uuid.block ∷ timestamp.block ∷ self ∷ bs) w
      → Ends Asserts (Returned bs) (
          found_row env column
            (built self timestamp uuid node_id none none none none none none none none)
            w)
  unfolding found_row
  found_row-Returned column self timestamp uuid node_id h =
      bind (ask_text-Ends env (sqlite_column_text 0) h) λ t w1 h1.
        bind (duplicated-Ends t h1) λ key w2 h2.
          finish-Returned
            (store_column column key
              (built self timestamp uuid node_id none none none none none none none none))
            (record {
              blocks = λ a.
                  omega (arith, h2.same a, stored_blocks column key a self timestamp uuid node_id);
            })

  -- Whatever SQLite answers, a lookup frees nothing that it did not allocate; where it returns a bad
  -- actor the heap holds what that owns and the blocks of before, where it fails just those of before.
  pub select_one-Returned :
      (query : String) (column : Column) (key : String) (config : Config) {bs : List ℕ} {w : World}
      → Holding bs w
      → Ends Asserts (Returned bs) (select_one env query column key config w)
  unfolding select_one
  select_one-Returned query column key config {bs} h =
      check-Ends (call-Ends env (sqlite_open (c_string config.db_file)) h) closes λ w1 h1.
        check-Ends (call-Ends env (sqlite_prepare query) h1) closes λ w2 h2.
          bad_actor_new-built env none none none none none none none none config.node_id _ h2
            λ self timestamp uuid node_id w3 h3.
              let b = built self timestamp uuid node_id none none none none none none none none in
              check-Ends (call-Ends env (sqlite_bind_text 1 (some key)) h3)
                (λ w4 h4.
                  bind (bad_actor_destroy-Holding b bs h4 (λ a. omega arith))
                    λ _ w5 h5. closes w5 h5)
                λ w4 h4.
                  check-Ends (call-Ends env sqlite_step h4)
                    (λ w5 h5. bind (emit-Ends sqlite_finalize h5) λ _ w6 h6.
                      bind (bad_actor_destroy-Holding b bs h6 (λ a. omega arith))
                        λ _ w7 h7. closes w7 h7)
                    λ w5 h5. found_row-Returned column self timestamp uuid node_id h5
    where
      closes :
          (w' : World)
          → Holding bs w'
          → Ends Asserts (Returned bs) (and_then (emit sqlite_close w') (λ _. pure none))
      closes w' h' = bind (emit-Ends sqlite_close h') λ _ w2 h2. ended h2
