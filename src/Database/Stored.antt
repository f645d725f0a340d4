-- ===== src/Database/Stored.antt =====
-- What an insertion does and what it answers: `db_insert_bad_actor` of src/database.c.
use sentry_peer.Base.{◌≡◌, refl, Bool, true, false, List, [], ◌∷◌, ◌++◌, Bool-cases, inl, inr}
use sentry_peer.World.{World, Env, Run, done, call, emit}
use sentry_peer.World.Script.{all_succeed, second, not_both}
use sentry_peer.World.Calls.{Call, sqlite_step, sqlite_finalize, sqlite_close}
use sentry_peer.Conf.Settings.{Config}
use sentry_peer.Actor.{BadActor, text_of}
use sentry_peer.Database.Rows.{Row, honey, executed, is_open, is_pending}
use sentry_peer.Database.Insert.{
  schema_check, create_table_sql, create_source_ip_index, create_called_number_index,
  create_event_uuid_index, insert_calls, each_or_close, insert_row, db_insert_bad_actor,
}

-- The statement, its step, its end, and the closing of the connection.
abbrev pub statement_calls : List Call
statement_calls = sqlite_step ∷ sqlite_finalize ∷ sqlite_close ∷ []

-- It has failed, the connection is closed last, and the heap is as before.
pub record FailsClosed (w : World) (run : Run Bool) : Type 0 where
  pub end : World
  pub rest : List Call
  pub fails : run ≡ done false end
  pub closed : end.trace ≡ sqlite_close ∷ rest
  pub kept : end.live ≡ w.live

-- The row of a bad actor.
abbrev pub row_of : BadActor → Row
row_of b =
    ("event_timestamp", text_of b.event_timestamp)
    ∷ ("event_uuid", text_of b.event_uuid)
    ∷ ("collected_method", text_of b.collected_method)
    ∷ ("source_ip", text_of b.source_ip)
    ∷ ("called_number", text_of b.called_number)
    ∷ ("transport_type", text_of b.transport_type)
    ∷ ("method", text_of b.method)
    ∷ ("user_agent", text_of b.user_agent)
    ∷ ("sip_message", text_of b.sip_message)
    ∷ ("created_by_node_id", text_of b.created_by_node_id)
    ∷ []

-- What an insertion leaves of the event store and the heap.
pub record Inserts (b : BadActor) (w end : World) : Type 0 where
  pub row : honey end.trace ≡ row_of b ∷ honey w.trace
  pub tables :
      executed end.trace
      ≡ create_event_uuid_index
        ∷ create_called_number_index
        ∷ create_source_ip_index
        ∷ create_table_sql
        ∷ schema_check
        ∷ executed w.trace
  pub finalized : is_pending end.trace ≡ false
  pub closed : is_open end.trace ≡ false
  pub kept : end.live ≡ w.live

-- The calls of an insertion: those up to the last binding, and the statement's.
abbrev pub all_calls : Config → BadActor → List Call
all_calls config b = insert_calls config b ++ statement_calls

module _ (env : Env) where
  insert_row-failure :
      (w : World)
      → all_succeed env statement_calls w.trace ≡ false
      → FailsClosed w (insert_row env w)
  unfolding insert_row all_succeed call emit
  insert_row-failure w h = elim (Bool-cases (env.succeeds w.trace sqlite_step)) [
    | inr e ↦ record {
      end = record w { trace = sqlite_close ∷ sqlite_finalize ∷ sqlite_step ∷ w.trace };
      rest = sqlite_finalize ∷ sqlite_step ∷ w.trace;
      fails = rw e refl;
      closed = refl;
      kept = refl;
    }
    | inl e ↦ elim (Bool-cases (env.succeeds (sqlite_step ∷ w.trace) sqlite_finalize)) [
      | inr e' ↦ record {
        end = record w { trace = sqlite_close ∷ sqlite_finalize ∷ sqlite_step ∷ w.trace };
        rest = sqlite_finalize ∷ sqlite_step ∷ w.trace;
        fails = rw (e, e');
        closed = refl;
        kept = refl;
      }
      | inl e' ↦ record {
        end = record w { trace = sqlite_close ∷ sqlite_finalize ∷ sqlite_step ∷ w.trace };
        rest = sqlite_finalize ∷ sqlite_step ∷ w.trace;
        fails = rw (e, e', close_fails e e' h);
        closed = refl;
        kept = refl;
      }
    ]
  ]
    where
      close_fails :
          env.succeeds w.trace sqlite_step ≡ true
          → env.succeeds (sqlite_step ∷ w.trace) sqlite_finalize ≡ true
          → all_succeed env statement_calls w.trace ≡ false
          → env.succeeds (sqlite_finalize ∷ sqlite_step ∷ w.trace) sqlite_close ≡ false
      close_fails e e' h = not_both (second e' (second e h))

  each_or_close-failure :
      (cs : List Call) (w : World)
      → all_succeed env (cs ++ statement_calls) w.trace ≡ false
      → FailsClosed w (each_or_close env cs (insert_row env) w)
  unfolding each_or_close all_succeed call emit
  each_or_close-failure [] w h = insert_row-failure w h
  each_or_close-failure (c ∷ cs) w h = elim (Bool-cases (env.succeeds w.trace c)) [
    | inl e ↦
        (let later = each_or_close-failure cs (record w { trace = c ∷ w.trace }) (second e h) in
          record {
            end = later.end;
            rest = later.rest;
            fails = rw e later.fails;
            closed = later.closed;
            kept = later.kept;
          })
    | inr e ↦ record {
      end = record w { trace = sqlite_close ∷ c ∷ w.trace };
      rest = c ∷ w.trace;
      fails = rw e refl;
      closed = refl;
      kept = refl;
    }
  ]

  -- If a call of an insertion fails, the insertion reports the failure, the closing of the connection is
  -- its last call, and the heap is as before.
  pub db_insert_bad_actor-FailsClosed :
      (b : BadActor) (config : Config) (w : World)
      → all_succeed env (all_calls config b) w.trace ≡ false
      → FailsClosed w (db_insert_bad_actor env b config w)
  unfolding db_insert_bad_actor
  db_insert_bad_actor-FailsClosed b config w h = each_or_close-failure (insert_calls config b) w h
