-- ===== src/Database/Quiet.antt =====
-- The selects of src/database.c, and the destructors of bad actors, beside the responses of the HTTP API.
pub mod Lists
use sentry_peer.Base.{
  ℕ, zero, suc, ◌≡◌, refl, String, Bool, true, false, Option, none, some, List, [], ◌∷◌,
}
use sentry_peer.World.{World, Env, Str, emit, pure, ◌>>◌}
use sentry_peer.World.Ends.{Ends, ended, halted, bind}
use sentry_peer.World.Calls.{
  clock_gettime, uuid_generate, sqlite_open, sqlite_prepare, sqlite_bind_text, sqlite_step,
  sqlite_column_text, sqlite_column_int, sqlite_finalize, sqlite_close,
}
use sentry_peer.World.Sent.{
  Sent, Quiet, Faults, malloc-Quiet, free-Quiet, emit-Quiet, call-Quiet, ask_text-Quiet,
  ask_number-Quiet, check-Quiet,
}
use sentry_peer.Conf.Settings.{Config}
use sentry_peer.Conf.Buffer.{c_string}
use sentry_peer.Actor.{
  BadActor, util_duplicate_string, bad_actor_new, free_if_set, bad_actor_destroy,
  bad_actors_destroy, destroy_each,
}
use sentry_peer.Database.Select.{
  Column, store_column, found_row, select_one, row_actor, prepend, read_rows, close_rows,
  after_rows, select_all,
}

free_if_set-Quiet :
    (o : Option Str) {rs : List ℕ} (w : World) → Sent rs w → Quiet rs (free_if_set o w)
unfolding free_if_set
free_if_set-Quiet none w h = ended h
free_if_set-Quiet (some s) w h = free-Quiet h s.block

pub bad_actor_destroy-Quiet :
    (o : Option BadActor) {rs : List ℕ} (w : World) → Sent rs w → Quiet rs (bad_actor_destroy o w)
unfolding bad_actor_destroy
bad_actor_destroy-Quiet none w h = ended h
bad_actor_destroy-Quiet (some b) w h = bind (free_if_set-Quiet b.event_timestamp w h) λ _ w h.
    bind (free_if_set-Quiet b.event_uuid w h) λ _ w h.
      bind (free_if_set-Quiet b.source_ip w h) λ _ w h.
        bind (free_if_set-Quiet b.destination_ip w h) λ _ w h.
          bind (free_if_set-Quiet b.transport_type w h) λ _ w h.
            bind (free_if_set-Quiet b.collected_method w h) λ _ w h.
              bind (free_if_set-Quiet b.called_number w h) λ _ w h.
                bind (free_if_set-Quiet b.method w h) λ _ w h.
                  bind (free_if_set-Quiet b.user_agent w h) λ _ w h.
                    bind (free_if_set-Quiet b.sip_message w h) λ _ w h.
                      bind (free_if_set-Quiet b.seen_last w h) λ _ w h.
                        bind (free_if_set-Quiet b.seen_count w h) λ _ w h.
                          bind (free_if_set-Quiet b.created_by_node_id w h)
                            λ _ w h. free-Quiet h b.self

destroy_each-Quiet :
    (bs : List BadActor) {rs : List ℕ} (w : World) → Sent rs w → Quiet rs (destroy_each bs w)
unfolding destroy_each
destroy_each-Quiet [] w h = ended h
destroy_each-Quiet (b ∷ bs) w h =
    bind (bad_actor_destroy-Quiet (some b) w h) λ _ w1 h1. destroy_each-Quiet bs w1 h1

pub bad_actors_destroy-Quiet :
    (bs : List BadActor) {rs : List ℕ} (w : World) → Sent rs w → Quiet rs (bad_actors_destroy bs w)
unfolding bad_actors_destroy
bad_actors_destroy-Quiet [] w h = halted tt
bad_actors_destroy-Quiet (b ∷ bs) w h = destroy_each-Quiet (b ∷ bs) w h

pub util_duplicate_string-Quiet :
    (t : Option String) {rs : List ℕ} (w : World) → Sent rs w → Quiet rs (util_duplicate_string t w)
unfolding util_duplicate_string
util_duplicate_string-Quiet none w h = halted tt
util_duplicate_string-Quiet (some t) w h = malloc-Quiet h t

pub close_with-Quiet :
    {A : Type 0} (a : A) {rs : List ℕ} (w : World)
    → Sent rs w
    → Quiet rs ((emit sqlite_close >> pure a) w)
close_with-Quiet a w h = bind (emit-Quiet h sqlite_close (λ _. refl)) λ _ w1 h1. ended h1

module _ (env : Env) {rs : List ℕ} where
  pub bad_actor_new-Quiet :
      (t : Option String) (w : World)
      → Sent rs w
      → Quiet rs (bad_actor_new env none none none none none none none none t w)
  unfolding bad_actor_new
  bad_actor_new-Quiet t w h = bind (malloc-Quiet h "") λ _ w h. bind (malloc-Quiet h "") λ _ w h.
      bind (malloc-Quiet h "") λ _ w h.
        bind (ask_text-Quiet h clock_gettime (λ _. refl) env) λ _ w h.
          bind (ask_text-Quiet h uuid_generate (λ _. refl) env)
            λ _ w h. bind (util_duplicate_string-Quiet t w h) λ _ w h. ended h

  -- The bad actor is destroyed before the connection is closed, or not closed again.
  destroy_with-Quiet :
      (b : BadActor) (w : World)
      → Sent rs w
      → Quiet rs
          ((bad_actor_destroy (some b) >> (emit sqlite_close >> pure {A = Option BadActor} none)) w)
  destroy_with-Quiet b w h =
      bind (bad_actor_destroy-Quiet (some b) w h) λ _ w1 h1. close_with-Quiet none w1 h1

  found_row-Quiet :
      (column : Column) (b : BadActor) (w : World) → Sent rs w → Quiet rs (found_row env column b w)
  unfolding found_row
  found_row-Quiet column b w h =
      bind (ask_text-Quiet h (sqlite_column_text 0) (λ _. refl) env) λ text w h.
        bind (util_duplicate_string-Quiet text w h) λ copy w h.
          check-Quiet (call-Quiet h sqlite_finalize (λ _. refl) env) (destroy_with-Quiet _) λ w h.
            check-Quiet (call-Quiet h sqlite_close (λ _. refl) env)
              (λ w h. bind (bad_actor_destroy-Quiet _ w h) λ _ w h. ended h) λ w h. ended h

  pub select_one-Quiet :
      (query : String) (column : Column) (key : String) (config : Config) (w : World)
      → Sent rs w
      → Quiet rs (select_one env query column key config w)
  unfolding select_one
  select_one-Quiet query column key config w h =
      check-Quiet (call-Quiet h (sqlite_open (c_string config.db_file)) (λ _. refl) env)
        (close_with-Quiet none)
        λ w h.
          check-Quiet (call-Quiet h (sqlite_prepare query) (λ _. refl) env) (close_with-Quiet none)
            λ w h. bind (bad_actor_new-Quiet (some config.node_id) w h) λ b w h.
              check-Quiet (call-Quiet h (sqlite_bind_text 1 (some key)) (λ _. refl) env)
                (destroy_with-Quiet b)
                λ w h.
                  check-Quiet (call-Quiet h sqlite_step (λ _. refl) env)
                    (λ w h.
                      bind (emit-Quiet h sqlite_finalize (λ _. refl))
                        λ _ w h. destroy_with-Quiet b w h)
                    (found_row-Quiet column b)
