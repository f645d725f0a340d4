-- ===== src/Database/Select.antt =====
-- The queries of src/database.c that return bad actors.
use sentry_peer.Base.{ℕ, zero, suc, String, Option, none, some, List, [], ◌∷◌}
use sentry_peer.World.{
  Env, Str, M, malloc, free, call, ask_text, ask_number, emit, pure, check, ◌>>=◌, ◌>>◌,
}
use sentry_peer.World.Calls.{
  sqlite_open, sqlite_prepare, sqlite_bind_text, sqlite_step, sqlite_column_text, sqlite_column_int,
  sqlite_finalize, sqlite_close,
}
use sentry_peer.Actor.{
  BadActor, util_duplicate_string, bad_actor_new, bad_actor_destroy, bad_actors_destroy,
}
use sentry_peer.Conf.Settings.{Config}
use sentry_peer.Conf.Buffer.{c_string}

-- GET_BAD_ACTOR_BY_IP
abbrev pub get_bad_actor_by_ip : String
get_bad_actor_by_ip = "SELECT DISTINCT(source_ip) FROM honey WHERE source_ip = ?;"

-- GET_PHONE_NUMBER
abbrev pub get_phone_number : String
get_phone_number = "SELECT DISTINCT(called_number) FROM honey WHERE called_number = ?;"

-- GET_ROWS_DISTINCT_SOURCE_IP_COUNT
abbrev pub count_source_ips : String
count_source_ips = "SELECT COUNT(DISTINCT source_ip) from honey;"

-- GET_ROWS_DISTINCT_SOURCE_IP_WITH_COUNT_AND_DATE
abbrev pub select_source_ips : String
select_source_ips =
    "SELECT source_ip, max(event_timestamp) as seen_last, count(source_ip) as seen_total FROM honey GROUP BY source_ip order by event_timestamp DESC;"

-- GET_ROWS_DISTINCT_PHONE_NUMBER_COUNT
abbrev pub count_phone_numbers : String
count_phone_numbers =
    "SELECT COUNT(DISTINCT called_number) from honey WHERE called_number LIKE '+%' OR printf('%d', called_number) = called_number;"

-- GET_ROWS_DISTINCT_PHONE_NUMBER_WITH_COUNT_AND_DATE
abbrev pub select_phone_numbers : String
select_phone_numbers =
    "SELECT called_number, max(event_timestamp) as seen_last, count(called_number) as seen_total FROM honey WHERE called_number LIKE '+%' OR printf('%d', called_number) = called_number GROUP BY called_number order by event_timestamp DESC;"

-- Which field of the bad actor the first column of a query goes to.
pub data Column : Type 0 where
  source_ip called_number : Column

abbrev pub store_column : Column → Str → BadActor → BadActor
store_column source_ip s b = record b { source_ip = some s }
store_column called_number s b = record b { called_number = some s }

-- A select that has succeeded hands its result on; `none` is EXIT_FAILURE.
module _ (env : Env) where
  -- The rest of a lookup once a row is there.
  unfoldable pub found_row : Column → BadActor → M (Option BadActor)
  found_row column b = do
    text ← ask_text env (sqlite_column_text 0)
    copy ← util_duplicate_string text
    check (call env sqlite_finalize)
        (do bad_actor_destroy (some (store_column column copy b)); emit sqlite_close; pure none)
        (check (call env sqlite_close)
          (do bad_actor_destroy (some (store_column column copy b)); pure none)
          (pure (some (store_column column copy b))))

  -- `db_select_bad_actor_by_ip` and `db_select_phone_number`, which differ in the query and the field.
  unfoldable pub select_one : String → Column → String → Config → M (Option BadActor)
  unfolding found_row
  select_one query column key config =
      check (call env (sqlite_open (c_string config.db_file))) (do emit sqlite_close; pure none)
        (check (call env (sqlite_prepare query)) (do emit sqlite_close; pure none)
          do
            b ← bad_actor_new env none none none none none none none none (some config.node_id)
            check (call env (sqlite_bind_text 1 (some key)))
                (do bad_actor_destroy (some b); emit sqlite_close; pure none)
                (check (call env sqlite_step)
                  (do
                    emit sqlite_finalize
                    bad_actor_destroy (some b)
                    emit sqlite_close
                    pure none)
                  (found_row column b)))

  unfoldable pub db_select_bad_actor_by_ip : String → Config → M (Option BadActor)
  unfolding select_one
  db_select_bad_actor_by_ip ip config = select_one get_bad_actor_by_ip source_ip ip config

  unfoldable pub db_select_phone_number : String → Config → M (Option BadActor)
  unfolding select_one
  db_select_phone_number number config = select_one get_phone_number called_number number config

  -- One row as a bad actor.
  unfoldable pub row_actor : Column → Config → M BadActor
  row_actor column config = do
    key ← ask_text env (sqlite_column_text 0)
    seen_last ← ask_text env (sqlite_column_text 1)
    seen_count ← ask_text env (sqlite_column_text 2)
    key_copy ← util_duplicate_string key
    b ← bad_actor_new env none none none none none none none none (some config.node_id)
    last_copy ← util_duplicate_string seen_last
    count_copy ← util_duplicate_string seen_count
    pure (record (store_column column key_copy b) {
      seen_last = some last_copy;
      seen_count = some count_copy;
    })

  -- A row before the rows after it.
  unfoldable pub prepend : BadActor → Option (List BadActor) → M (Option (List BadActor))
  prepend b none = pure none
  prepend b (some bs) = pure (some (b ∷ bs))

  -- The `while` loop over the rows that are still to come; `none` is a step that gave no row. The
  -- loop's own failure frees the array only, so the rows read before it come back to no one.
  unfoldable pub read_rows : Column → Config → ℕ → M (Option (List BadActor))
  unfolding row_actor prepend
  read_rows column config zero = pure (some [])
  read_rows column config (suc n) =
      check (call env sqlite_step) (pure none)
        do b ← row_actor column config; rest ← read_rows column config n; prepend b rest

  -- Finalizing and closing after the loop; `array` is the block of the array.
  unfoldable pub close_rows : ℕ → List BadActor → M (Option (ℕ × List BadActor))
  close_rows array rows =
      check (call env sqlite_finalize)
        (do bad_actors_destroy rows; free array; emit sqlite_close; pure none)
        (check (call env sqlite_close) (do bad_actors_destroy rows; free array; pure none)
          (pure (some (array, rows))))

  -- After the loop: a failed step frees the array.
  unfoldable pub after_rows : ℕ → Option (List BadActor) → M (Option (ℕ × List BadActor))
  unfolding close_rows
  after_rows array none = do free array; emit sqlite_close; pure none
  after_rows array (some bs) = close_rows array bs

  -- `db_select_bad_actors` and `db_select_called_numbers`: the count query, then the rows. The result
  -- is the array's block and its entries.
  unfoldable pub select_all : String → String → Column → Config → M (Option (ℕ × List BadActor))
  unfolding read_rows after_rows
  select_all count_query row_query column config =
      check (call env (sqlite_open (c_string config.db_file))) (do emit sqlite_close; pure none)
        (check (call env (sqlite_prepare count_query)) (do emit sqlite_close; pure none)
          (check (call env sqlite_step) (do emit sqlite_close; pure none)
            do
              row_count ← ask_number env (sqlite_column_int 0)
              check (call env sqlite_finalize) (do emit sqlite_close; pure none)
                  (check (call env (sqlite_prepare row_query)) (do emit sqlite_close; pure none)
                    do
                      array ← malloc {A = Unit {0}} tt
                      rows ← read_rows column config row_count
                      after_rows array.block rows)))

  unfoldable pub db_select_bad_actors : Config → M (Option (ℕ × List BadActor))
  unfolding select_all
  db_select_bad_actors config = select_all count_source_ips select_source_ips source_ip config

  unfoldable pub db_select_called_numbers : Config → M (Option (ℕ × List BadActor))
  unfolding select_all
  db_select_called_numbers config =
      select_all count_phone_numbers select_phone_numbers called_number config
