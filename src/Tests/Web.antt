-- ===== src/Tests/Web.antt =====
-- The theorems on the webhook at concrete inputs.
use sentry_peer.Base.{String, length, str_eq, if◌then◌else◌, ◌==◌}
use sentry_peer.Base.{◌≡◌, refl, inl, true, false, none, some, [], ◌∷◌, ◌++◌}
use mathlib.Core.List.{flatten}
use sentry_peer.World.{Env}
use sentry_peer.World.Ends.{Ends, Holding, Never}
use sentry_peer.Conf.Settings.{Config}
use sentry_peer.Json.{Jansson}
use sentry_peer.Webhook.Curl.{MemoryStruct, perform_into}
use sentry_peer.Webhook.Token.{Network}
use sentry_peer.Webhook.Post.{json_http_post_bad_actor}
use sentry_peer.Webhook.Answered.{After}
use sentry_peer.Webhook.Chunk.{IsChunk, perform_into-IsChunk}
use sentry_peer.Webhook.Posted.{
  Exhausts, json_http_post_bad_actor-After, json_http_post_bad_actor-plain,
}
use sentry_peer.Webhook.Endless.{Overflows, json_http_post_bad_actor-unending}
use sentry_peer.Tests.Data.{
  kind_env, busy_world, loud_config, caller, test_package, library_for, Object, str,
}

abbrev refusing_env : Env
refusing_env = record { succeeds = λ _ _. true; text = λ _ _. some "INVITE"; number = λ _ _. 401 }

-- A server that sends two pieces.
abbrev two_pieces : Network
two_pieces = record {
  text_of_bytes = λ _. "bytes";
  received = λ _. (b'{' ∷ []) ∷ (b'}' ∷ []) ∷ [];
  formatted = λ _ _ text. text;
}

abbrev token_object : Object
token_object = ("access_token", "t") ∷ []

-- A server that sends the token's object in two pieces, and a library that reads it, and no other text.
abbrev token_text : String
token_text = "{\"access_token\": \"t\"}"

abbrev token_network : Network
token_network = record two_pieces {
  text_of_bytes = λ bytes. if length bytes == 2 then token_text else "";
}

abbrev token_library : Jansson Object
token_library = record (library_for token_object) {
  loads = λ text. if str_eq text token_text then some token_object else none;
}

abbrev oauth2_config : Config
oauth2_config = record loud_config { oauth2_mode = true; oauth2_access_token = some (str 7 "old") }

abbrev plain_config : Config
plain_config = record loud_config { oauth2_mode = false; oauth2_access_token = none }

abbrev empty_chunk : MemoryStruct
empty_chunk = record { memory = record { block = 7; contents = [] }; size = 0 }

json_http_post_bad_actor-After_example : Ends Exhausts (After oauth2_config (3 ∷ [])) (
    json_http_post_bad_actor refusing_env
      (library_for token_object)
      test_package
      two_pieces
      3
      oauth2_config
      caller
      busy_world)
json_http_post_bad_actor-After_example =
    json_http_post_bad_actor-After refusing_env (library_for token_object) test_package two_pieces 2
      oauth2_config caller (3 ∷ []) busy_world (record { same = λ a. refl })

json_http_post_bad_actor-plain_example :
    Ends Never
      (λ r w'. (r.1 ≡ plain_config) × Holding (7 ∷ 3 ∷ []) w')
      (json_http_post_bad_actor refusing_env
        (library_for token_object)
        test_package
        two_pieces
        1
        plain_config
        caller
        busy_world)
json_http_post_bad_actor-plain_example =
    json_http_post_bad_actor-plain refusing_env (library_for token_object) test_package two_pieces 0
      plain_config caller busy_world refl refl (record { same = λ a. refl })

json_http_post_bad_actor-unending_example :
    Ends Overflows
      (λ _ _. ⊥)
      (json_http_post_bad_actor refusing_env token_library test_package token_network 100
        oauth2_config caller busy_world)
unfolding flatten sentry_peer.Json.RoundTrip.lookup
json_http_post_bad_actor-unending_example =
    json_http_post_bad_actor-unending refusing_env token_library test_package token_network 99
      oauth2_config caller (3 ∷ []) busy_world
      (record {
        succeeds = λ _ _. refl;
        refused = λ _. inl refl;
        packs_credentials = (_, refl);
        packs_event = (_, refl);
        reply = λ _. record {
          json = token_object;
          token = "t";
          loads = refl;
          has_token = refl;
          token_text = refl;
        };
      })
      refl (record { same = λ a. refl })

perform_into-IsChunk_example :
    Ends Never
      (λ r w'.
        Holding (r.1.memory.block ∷ 3 ∷ []) w'
        × IsChunk ([] ++ flatten (two_pieces.received [])) r.1)
      (perform_into kind_env two_pieces.received empty_chunk busy_world)
perform_into-IsChunk_example =
    perform_into-IsChunk kind_env two_pieces.received empty_chunk busy_world
      (record { size_is = refl; holds = refl }) (record { same = λ a. refl })
