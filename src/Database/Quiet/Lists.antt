-- ===== src/Database/Quiet/Lists.antt =====
-- The selects of src/database.c that return lists, beside the responses of the HTTP API.
use sentry_peer.Base.{ℕ, zero, suc, refl, String, Option, none, some, List}
use sentry_peer.World.{World, Env}
use sentry_peer.World.Ends.{ended, bind}
use sentry_peer.World.Calls.{
  sqlite_open, sqlite_prepare, sqlite_step, sqlite_column_text, sqlite_column_int, sqlite_finalize,
  sqlite_close,
}
use sentry_peer.World.Sent.{
  Sent, Quiet, malloc-Quiet, free-Quiet, call-Quiet, ask_text-Quiet, ask_number-Quiet, check-Quiet,
}
use sentry_peer.Conf.Settings.{Config}
use sentry_peer.Conf.Buffer.{c_string}
use sentry_peer.Actor.{BadActor}
use sentry_peer.Database.Select.{
  Column, row_actor, prepend, read_rows, close_rows, after_rows, select_all,
}
use sentry_peer.Database.Quiet.{
  bad_actors_destroy-Quiet, util_duplicate_string-Quiet, close_with-Quiet, bad_actor_new-Quiet,
}

module _ (env : Env) {rs : List ℕ} where
  row_actor-Quiet :
      (column : Column) (config : Config) (w : World)
      → Sent rs w
      → Quiet rs (row_actor env column config w)
  unfolding row_actor
  row_actor-Quiet column config w h =
      bind (ask_text-Quiet h (sqlite_column_text 0) (λ _. refl) env) λ key w h.
        bind (ask_text-Quiet h (sqlite_column_text 1) (λ _. refl) env) λ seen_last w h.
          bind (ask_text-Quiet h (sqlite_column_text 2) (λ _. refl) env) λ seen_count w h.
            bind (util_duplicate_string-Quiet key w h) λ _ w h.
              bind (bad_actor_new-Quiet env (some config.node_id) w h) λ _ w h.
                bind (util_duplicate_string-Quiet seen_last w h)
                  λ _ w h. bind (util_duplicate_string-Quiet seen_count w h) λ _ w h. ended h

  prepend-Quiet :
      (b : BadActor) (o : Option (List BadActor)) (w : World)
      → Sent rs w
      → Quiet rs (prepend env b o w)
  unfolding prepend
  prepend-Quiet b none w h = ended h
  prepend-Quiet b (some bs) w h = ended h

  read_rows-Quiet :
      (column : Column) (config : Config) (n : ℕ) (w : World)
      → Sent rs w
      → Quiet rs (read_rows env column config n w)
  unfolding read_rows
  read_rows-Quiet column config zero w h = ended h
  read_rows-Quiet column config (suc n) w h =
      check-Quiet (call-Quiet h sqlite_step (λ _. refl) env) (λ w h. ended h)
        λ w h.
          bind (row_actor-Quiet column config w h)
            λ b w h. bind (read_rows-Quiet column config n w h) λ rest w h. prepend-Quiet b rest w h

  close_rows-Quiet :
      (array : ℕ) (rows : List BadActor) (w : World)
      → Sent rs w
      → Quiet rs (close_rows env array rows w)
  unfolding close_rows
  close_rows-Quiet array rows w h =
      check-Quiet (call-Quiet h sqlite_finalize (λ _. refl) env)
        (λ w h.
          bind (bad_actors_destroy-Quiet rows w h)
            λ _ w h. bind (free-Quiet h array) λ _ w h. close_with-Quiet none w h)
        λ w h.
          check-Quiet (call-Quiet h sqlite_close (λ _. refl) env)
            (λ w h.
              bind (bad_actors_destroy-Quiet rows w h)
                λ _ w h. bind (free-Quiet h array) λ _ w h. ended h)
            λ w h. ended h

  after_rows-Quiet :
      (array : ℕ) (o : Option (List BadActor)) (w : World)
      → Sent rs w
      → Quiet rs (after_rows env array o w)
  unfolding after_rows
  after_rows-Quiet array none w h = bind (free-Quiet h array) λ _ w h. close_with-Quiet none w h
  after_rows-Quiet array (some bs) w h = close_rows-Quiet array bs w h

  pub select_all-Quiet :
      (count_query row_query : String) (column : Column) (config : Config) (w : World)
      → Sent rs w
      → Quiet rs (select_all env count_query row_query column config w)
  unfolding select_all
  select_all-Quiet count_query row_query column config w h =
      check-Quiet (call-Quiet h (sqlite_open (c_string config.db_file)) (λ _. refl) env)
        (close_with-Quiet none)
        λ w h.
          check-Quiet (call-Quiet h (sqlite_prepare count_query) (λ _. refl) env)
            (close_with-Quiet none)
            λ w h.
              check-Quiet (call-Quiet h sqlite_step (λ _. refl) env) (close_with-Quiet none) λ w h.
                bind (ask_number-Quiet h (sqlite_column_int 0) (λ _. refl) env) λ n w h.
                  check-Quiet (call-Quiet h sqlite_finalize (λ _. refl) env) (close_with-Quiet none)
                    λ w h.
                      check-Quiet (call-Quiet h (sqlite_prepare row_query) (λ _. refl) env)
                        (close_with-Quiet none)
                        λ w h. bind (malloc-Quiet h tt) λ array w h.
                          bind (read_rows-Quiet column config n w h)
                            λ rows w h. after_rows-Quiet array.block rows w h
