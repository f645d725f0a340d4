-- ===== src/Database/Exists.antt =====
-- `db_bad_actor_exists` of src/database.c.
use sentry_peer.Base.{String, Bool, false, not, Option, none, some, ◌==◌}
use sentry_peer.World.{Env, M, call, ask_number, emit, pure, check, when, ◌>>=◌, ◌>>◌}
use sentry_peer.World.Calls.{
  sqlite_open, sqlite_prepare, sqlite_bind_text, sqlite_step, sqlite_column_int, sqlite_finalize,
  sqlite_close,
}
use sentry_peer.Conf.Settings.{Config}
use sentry_peer.Conf.Buffer.{c_string}

-- BAD_ACTOR_EXISTS
abbrev pub bad_actor_exists : String
bad_actor_exists = "SELECT EXISTS(SELECT 1 FROM honey WHERE event_uuid = ?);"

-- `is_valid_uuid` is `uuid_parse` of libuuid, a parameter.
module _ (env : Env) (is_valid_uuid : String → Bool) where
  -- The body of the branch for a valid UUID.
  unfoldable pub find_event : String → Config → M Bool
  find_event event_uuid config =
      check (call env (sqlite_open (c_string config.db_file))) (do emit sqlite_close; pure false)
        (check (call env (sqlite_prepare bad_actor_exists)) (do emit sqlite_close; pure false)
          (check (call env (sqlite_bind_text 1 (some event_uuid)))
            (do emit sqlite_close; pure false)
            (check (call env sqlite_step) (do emit sqlite_finalize; emit sqlite_close; pure false)
              do
                found ← ask_number env (sqlite_column_int 0)
                check (call env sqlite_finalize) (do emit sqlite_close; pure false)
                    (check (call env sqlite_close) (pure false) (pure (not (found == 0)))))))

  unfoldable pub db_bad_actor_exists : Option String → Config → M Bool
  unfolding find_event
  db_bad_actor_exists none config = pure false
  db_bad_actor_exists (some event_uuid) config =
      when (is_valid_uuid event_uuid) (find_event event_uuid config) (pure false)
