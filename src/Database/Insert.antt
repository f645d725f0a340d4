-- ===== src/Database/Insert.antt =====
-- `db_insert_bad_actor` of src/database.c. EXIT_SUCCESS is `true`.
use sentry_peer.Base.{String, Bool, false, List, [], ◌∷◌}
use sentry_peer.World.{Env, M, call, emit, pure, check, ◌>>◌}
use sentry_peer.World.Calls.{
  Call, sqlite_open, sqlite_exec, sqlite_prepare, sqlite_bind_text, sqlite_step, sqlite_finalize,
  sqlite_close,
}
use sentry_peer.Actor.{BadActor, text_of}
use sentry_peer.Conf.Settings.{Config}
use sentry_peer.Conf.Buffer.{c_string}

abbrev pub schema_check : String
schema_check = "PRAGMA user_version;"

abbrev pub create_table_sql : String
create_table_sql =
    "CREATE TABLE IF NOT EXISTS honey (   honey_id INTEGER PRIMARY KEY,   event_timestamp TEXT,   event_uuid TEXT,   collected_method TEXT,   source_ip TEXT,   called_number TEXT,   transport_type TEXT,   method TEXT,   user_agent TEXT,   sip_message TEXT,   created_by_node_id TEXT,   created_at DATETIME DEFAULT(STRFTIME('%Y-%m-%d %H:%M:%f', 'NOW')));"

abbrev pub create_source_ip_index : String
create_source_ip_index = "CREATE INDEX IF NOT EXISTS source_ip_index ON honey (source_ip);"

abbrev pub create_called_number_index : String
create_called_number_index =
    "CREATE INDEX IF NOT EXISTS called_number_index ON honey (called_number);"

abbrev pub create_event_uuid_index : String
create_event_uuid_index = "CREATE INDEX IF NOT EXISTS event_uuid_index ON honey (event_uuid);"

abbrev pub insert_bad_actor : String
insert_bad_actor =
    "INSERT INTO honey (event_timestamp,   event_uuid, collected_method, source_ip,   called_number, transport_type, method,   user_agent, sip_message, created_by_node_id) VALUES (?, ?, ?, ?, ?, ?, ?, ?, ?, ?);"

-- The calls up to the last binding, in order. After each the code closes the connection and returns
-- if the call has failed.
unfoldable pub insert_calls : Config → BadActor → List Call
insert_calls config b =
    sqlite_open (c_string config.db_file)
    ∷ sqlite_exec schema_check
    ∷ sqlite_exec create_table_sql
    ∷ sqlite_exec create_source_ip_index
    ∷ sqlite_exec create_called_number_index
    ∷ sqlite_exec create_event_uuid_index
    ∷ sqlite_prepare insert_bad_actor
    ∷ sqlite_bind_text 1 (text_of b.event_timestamp)
    ∷ sqlite_bind_text 2 (text_of b.event_uuid)
    ∷ sqlite_bind_text 3 (text_of b.collected_method)
    ∷ sqlite_bind_text 4 (text_of b.source_ip)
    ∷ sqlite_bind_text 5 (text_of b.called_number)
    ∷ sqlite_bind_text 6 (text_of b.transport_type)
    ∷ sqlite_bind_text 7 (text_of b.method)
    ∷ sqlite_bind_text 8 (text_of b.user_agent)
    ∷ sqlite_bind_text 9 (text_of b.sip_message)
    ∷ sqlite_bind_text 10 (text_of b.created_by_node_id)
    ∷ []

module _ (env : Env) where
  -- `if (call != SQLITE_OK) { sqlite3_close(db); return EXIT_FAILURE; }` for each call in turn.
  unfoldable pub each_or_close : List Call → M Bool → M Bool
  each_or_close [] k = k
  each_or_close (c ∷ cs) k =
      check (call env c) (do emit sqlite_close; pure false) (each_or_close cs k)

  -- The step, the finalization and the close.
  unfoldable pub insert_row : M Bool
  insert_row =
      check (call env sqlite_step) (do emit sqlite_finalize; emit sqlite_close; pure false)
        (check (call env sqlite_finalize) (do emit sqlite_close; pure false)
          (call env sqlite_close))

  unfoldable pub db_insert_bad_actor : BadActor → Config → M Bool
  unfolding each_or_close insert_row insert_calls
  db_insert_bad_actor b config = each_or_close (insert_calls config b) insert_row
