-- ===== src/Tests/Api.antt =====
-- The theorems on the HTTP API and on the selects at concrete inputs.
use Prim.Native.String.{len}
use sentry_peer.Base.{ℕ, ◌==◌, if◌then◌else◌, ◌≡◌, refl, String, true, false, some, [], ◌∷◌, ◌++◌}
use sentry_peer.World.{World, done, call, ask_number, emit}
use sentry_peer.World.Ends.{Ends, Holding, Asserts, Never}
use sentry_peer.World.Calls.{
  sqlite_open, sqlite_prepare, sqlite_bind_text, sqlite_step, sqlite_column_int, sqlite_finalize,
  sqlite_close,
}
use sentry_peer.Conf.Settings.{sentrypeer_config_new}
use sentry_peer.Conf.Buffer.{c_string}
use sentry_peer.Json.{bad_actor_members}
use sentry_peer.Json.RoundTrip.{lookup}
use sentry_peer.Database.Exists.{bad_actor_exists, find_event, db_bad_actor_exists}
use sentry_peer.Dht.{new_event, received_event, dht_value_callback}
use sentry_peer.Dht.Known.{dht_value_callback-known}
use sentry_peer.Json.Memory.{Returned}
use sentry_peer.Actor.Memory.{owned_all}
use sentry_peer.Database.Select.{
  select_one, select_all, source_ip, get_bad_actor_by_ip, count_source_ips, select_source_ips,
}
use sentry_peer.Database.Lookup.{select_one-Returned}
use sentry_peer.Database.Lists.{Selects, Listed, select_all-Listed}
use sentry_peer.Http.Regex.{Match, Pcre2}
use sentry_peer.Http.Listing.{ip_addresses_kind, answer_rows}
use sentry_peer.Http.Routes.{dispatch, route_handler}
use sentry_peer.Http.NoLeak.{NoBadFree}
use sentry_peer.Http.ListingNoLeak.{answer_rows-Holding}
use sentry_peer.Http.Answered.{Answered}
use sentry_peer.Http.Requests.{route_handler-silent, route_handler-Holding}
use sentry_peer.Http.Refused.{Refused, dispatch-refuses}
use sentry_peer.Tests.Data.{
  c_build, post_ok, kind_env, two_rows_env, busy_world, loud_config, caller, test_package,
  library_for, caller_object,
}

-- A match of a whole text whose group begins at an offset.
abbrev whole_match : ℕ → String → Match
whole_match group subject = record {
  rc = 2;
  ovector = λ i. if i == 0 then 0 else if i == 2 then group else len subject;
}

-- The group of every pattern begins behind `/ip-addresses/`.
abbrev after_prefix : Pcre2
after_prefix = record { compiles = λ _. true; match = λ _ subject. some (whole_match 14 subject) }

route_handler-silent_example :
    route_handler after_prefix
      (λ _. false)
      (library_for caller_object)
      kind_env
      test_package
      (λ _. true)
      loud_config
      "/numbers"
      "GET"
      4
      true
      busy_world
    ≡ done (false, true) busy_world
route_handler-silent_example =
    route_handler-silent after_prefix (λ _. false) (library_for caller_object) kind_env test_package
      (λ _. true) loud_config "/numbers" "GET" 4 true busy_world refl

dispatch-refuses_example :
    Ends Never
      (λ _ w'. Refused busy_world w')
      (dispatch after_prefix
        (λ _. false)
        (library_for caller_object)
        kind_env
        test_package
        (λ _. true)
        loud_config
        "/ip-addresses/ipset"
        busy_world)
dispatch-refuses_example =
    dispatch-refuses after_prefix (λ _. false) (library_for caller_object) kind_env test_package
      (λ _. true) loud_config (λ tr text. refl) "/ip-addresses/ipset"
      (whole_match 14 "/ip-addresses/ipset") busy_world refl refl refl
      (record {
        compiles = refl;
        matches = refl;
        enough_room = refl;
        ordered = refl;
        within = refl;
      })
      refl

route_handler-Holding_example :
    Ends NoBadFree
      (λ _ w'. Holding busy_world.live w')
      (route_handler after_prefix
        (λ _. true)
        (library_for caller_object)
        kind_env
        test_package
        (λ _. true)
        loud_config
        "/ip-addresses/192.0.2.1"
        "GET"
        0
        true
        busy_world)
route_handler-Holding_example =
    route_handler-Holding after_prefix (λ _. true) (library_for caller_object) kind_env test_package
      (λ _. true) loud_config (λ tr text. refl) "/ip-addresses/192.0.2.1" "GET" 0 true busy_world
      refl refl

answer_rows-Holding_example :
    Ends NoBadFree
      (λ _ w'. Holding (20 ∷ []) w')
      (answer_rows
        (library_for caller_object)
        kind_env
        test_package
        ip_addresses_kind
        15
        (caller ∷ [])
        (some (caller_object ∷ []))
        (record { trace = []; live = 15 ∷ (owned_all (caller ∷ []) ++ 20 ∷ []); next = 21 }))
answer_rows-Holding_example =
    answer_rows-Holding (library_for caller_object) kind_env test_package (λ tr text. refl)
      ip_addresses_kind 15 (caller ∷ []) (some (caller_object ∷ []))
      (record { trace = []; live = 15 ∷ (owned_all (caller ∷ []) ++ 20 ∷ []); next = 21 })
      (record { same = λ a. refl })

select_one-Returned_example :
    Ends Asserts
      (Returned busy_world.live)
      (select_one kind_env get_bad_actor_by_ip source_ip "192.0.2.1" loud_config busy_world)
select_one-Returned_example =
    select_one-Returned kind_env get_bad_actor_by_ip source_ip "192.0.2.1" loud_config
      (record { same = λ a. refl })

select_all-Listed_example :
    Ends
      (Selects two_rows_env)
      (Listed busy_world.live)
      (select_all two_rows_env count_source_ips select_source_ips source_ip loud_config busy_world)
select_all-Listed_example =
    select_all-Listed two_rows_env count_source_ips select_source_ips source_ip loud_config
      (record { same = λ a. refl })

-- The event store has the event of the caller's object.
abbrev checked_world : World
checked_world = record {
  trace =
      sqlite_close
      ∷ sqlite_finalize
      ∷ sqlite_column_int 0
      ∷ sqlite_step
      ∷ sqlite_bind_text 1 (some "uuid-1")
      ∷ sqlite_prepare bad_actor_exists
      ∷ sqlite_open (c_string loud_config.db_file)
      ∷ [];
  live = 20 ∷ 7 ∷ 3 ∷ [];
  next = 21;
}

dht_value_callback-known_example :
    Ends Never
      (λ rc w'. (rc ≡ true) × (w'.trace ≡ checked_world.trace))
      (dht_value_callback
        (library_for caller_object)
        (λ _. true)
        two_rows_env
        test_package
        c_build
        post_ok
        loud_config
        5
        "{...}"
        false
        busy_world)
unfolding received_event new_event lookup bad_actor_members db_bad_actor_exists find_event call
    ask_number emit sentrypeer_config_new
dht_value_callback-known_example =
    dht_value_callback-known (library_for caller_object) (λ _. true) two_rows_env test_package
      c_build post_ok loud_config 5 "{...}" false "uuid-1" busy_world checked_world refl refl refl
