-- ===== src/Tests.antt =====
-- The theorems at concrete inputs.
mod Data
mod Start
mod Api
mod Web
mod Daemon
mod Lifecycle
use sentry_peer.Base.{
  ℕ, ◌≡◌, refl, ◌≢◌, ◌↔◌, String, Bool, true, false, Option, none, some, List, [], ◌∷◌, ◌++◌,
  count-append,
}
use sentry_peer.World.{World, Env, M, done, stopped, assert_failed, and_then}
use sentry_peer.World.Ends.{Ends, ended, Holding, Keeps, Asserts, Never}
use sentry_peer.World.Script.{visited, all_succeed, after_calls}
use sentry_peer.Conf.Settings.{Config}
use sentry_peer.Actor.{BadActor, bad_actor_destroy}
use sentry_peer.Actor.Memory.{Owns, owned, bad_actor_destroy-Holding}
use sentry_peer.Json.{or_empty, bad_actor_to_json, json_to_bad_actor}
use sentry_peer.Json.Memory.{Returned, json_to_bad_actor-Returned}
use sentry_peer.Json.RoundTrip.{lookup, Recovered, json_to_bad_actor-bad_actor_to_json}
use sentry_peer.Database.Insert.{insert_calls, db_insert_bad_actor}
use sentry_peer.Database.Stored.{FailsClosed, db_insert_bad_actor-FailsClosed}
use sentry_peer.Sip.Log.{sip_log_event}
use sentry_peer.Sip.Parser.{sip_message_parser}
use sentry_peer.Sip.Memory.{sip_message_parser-Owns}
use sentry_peer.Sip.Logged.{sip_log_event-Never}
use sentry_peer.Sip.Aborts.{sip_message_parser-aborts}
use sentry_peer.Dht.{received_event, new_event, dht_value_callback}
use sentry_peer.Dht.Listen.{Accepted, dht_value_callback-Accepted}
use sentry_peer.Dht.Filter.{IsNewEvent, new_event_iff, dropped}
use Data.{
  kind_env, full_disk_env, response_env, busy_world, c_build, loud_config, options_packet, caller,
  unparsed_caller, test_package, library_for, caller_object, post_ok,
}

post-Keeps : {S : _} (b : BadActor) → Keeps S (post_ok loud_config b)
post-Keeps b bs w h = ended h

sip_log_event-Never_example :
    Ends Never
      (λ _ w'. Holding busy_world.live w')
      (sip_log_event kind_env
        (library_for caller_object)
        test_package
        c_build
        post_ok
        loud_config
        options_packet
        busy_world)
sip_log_event-Never_example =
    sip_log_event-Never kind_env (library_for caller_object) test_package c_build post_ok
      loud_config post-Keeps (λ tr e. cc) options_packet busy_world (λ e. cc) (λ e. cc) (λ e. cc)
      (λ e. cc) refl

dht_value_callback-Accepted_example : Ends Asserts (Accepted busy_world.live) (
    dht_value_callback
      (library_for caller_object)
      (λ _. true)
      kind_env
      test_package
      c_build
      post_ok
      loud_config
      5
      "{...}"
      false
      busy_world)
dht_value_callback-Accepted_example =
    dht_value_callback-Accepted (library_for caller_object) (λ _. true) kind_env test_package
      c_build post_ok loud_config post-Keeps 5 "{...}" false busy_world

new_event_iff_example :
    (new_event (library_for caller_object) (λ _. true) loud_config caller_object ≡ some "uuid-1")
    ↔ IsNewEvent (library_for caller_object) (λ _. true) loud_config caller_object "uuid-1"
new_event_iff_example =
    new_event_iff (library_for caller_object) (λ _. true) loud_config caller_object "uuid-1"

-- An object without members is dropped.
dropped_example :
    (w' : World) × (dht_value_callback
        (library_for [])
        (λ _. true)
        kind_env
        test_package
        c_build
        post_ok
        loud_config
        5
        "{}"
        false
        busy_world
      ≡ done true w')
    × (w'.trace ≡ busy_world.trace)
    × (w'.live ≡ busy_world.live)
unfolding received_event new_event lookup
dropped_example =
    dropped (library_for []) (λ _. true) kind_env test_package c_build post_ok loud_config 5 "{}"
      false busy_world (λ e. refl)

json_to_bad_actor-bad_actor_to_json_example :
    Ends Never
      (λ r w'. Recovered caller r)
      (and_then
        (bad_actor_to_json kind_env (library_for caller_object) test_package caller busy_world)
        λ text.
          json_to_bad_actor kind_env
            (library_for caller_object)
            test_package
            loud_config
            (or_empty text))
json_to_bad_actor-bad_actor_to_json_example =
    json_to_bad_actor-bad_actor_to_json kind_env (library_for caller_object) test_package
      loud_config caller_object caller busy_world refl (λ key. refl) refl refl

json_to_bad_actor-Returned_example :
    Ends Asserts
      (λ r w'. Returned busy_world.live r w')
      (json_to_bad_actor kind_env
        (library_for caller_object)
        test_package
        loud_config
        "{...}"
        busy_world)
json_to_bad_actor-Returned_example =
    json_to_bad_actor-Returned kind_env (library_for caller_object) test_package loud_config "{...}"
      (record { same = λ a. refl })

db_insert_bad_actor-FailsClosed_example :
    FailsClosed busy_world (db_insert_bad_actor full_disk_env caller loud_config busy_world)
unfolding all_succeed insert_calls
db_insert_bad_actor-FailsClosed_example =
    db_insert_bad_actor-FailsClosed full_disk_env caller loud_config busy_world refl

sip_message_parser-Owns_example :
    Ends Asserts
      (λ r w'. Owns r.1 (20 ∷ []) w')
      (sip_message_parser response_env
        (b'S' ∷ [])
        1
        unparsed_caller
        (record { trace = []; live = owned unparsed_caller ++ 20 ∷ []; next = 21 }))
sip_message_parser-Owns_example =
    sip_message_parser-Owns response_env (λ tr e. tt) (b'S' ∷ []) 1 unparsed_caller
      (refl, refl, refl, refl) (record { same = λ a. refl })

sip_message_parser-aborts_example :
    (w' : World) × (sip_message_parser response_env (b'S' ∷ []) 1 unparsed_caller busy_world
      ≡ stopped assert_failed w')
unfolding all_succeed visited
sip_message_parser-aborts_example =
    sip_message_parser-aborts response_env (b'S' ∷ []) 1 unparsed_caller "SIP/2.0 200 OK" busy_world
      refl refl refl

bad_actor_destroy-Holding_example :
    Ends Never
      (λ _ w'. Holding (20 ∷ []) w')
      (bad_actor_destroy
        (some caller)
        (record { trace = []; live = owned caller ++ 20 ∷ []; next = 21 }))
bad_actor_destroy-Holding_example =
    bad_actor_destroy-Holding caller {xs = owned caller ++ 20 ∷ []} (20 ∷ [])
      (record { same = λ a. refl }) (λ a. count-append a (owned caller) (20 ∷ []))
