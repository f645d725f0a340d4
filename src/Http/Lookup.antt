-- ===== src/Http/Lookup.antt =====
-- The routes that answer from one lookup: `called_number_route` and `ip_address_route`; and
-- `health_check_route` with `json_is_requested`.
use sentry_peer.Base.{String, Bool, false, Option, none, some, [], ◌∷◌}
use sentry_peer.World.{Env, Str, M, malloc, free, ask_text, pure, when, ◌>>=◌, ◌>>◌}
use sentry_peer.World.Calls.{mhd_lookup_content_type}
use sentry_peer.Conf.Settings.{Config}
use sentry_peer.Actor.{BadActor, text_of, bad_actor_destroy}
use sentry_peer.Json.{Jansson, Package}
use sentry_peer.Database.Select.{db_select_bad_actor_by_ip, db_select_phone_number}
use sentry_peer.Http.Response.{persistent, must_free, finalise_response}

abbrev pub content_type_html : String
content_type_html = "text/html"

abbrev pub content_type_json : String
content_type_json = "application/json"

abbrev pub not_found_bad_actor_json : String
not_found_bad_actor_json = "{\"message\": \"No bad actor found\"}"

abbrev pub not_found_phone_number_json : String
not_found_phone_number_json = "{\"message\": \"No phone number found\"}"

abbrev pub hello_html : String
hello_html = "<html><body><h1>Hello from SentryPeer!</h1><h2>All is well!</h2></body></html>"

module _ {Json : Type 0} (j : Jansson Json) where
  -- `json_pack("{s:s}", name, text)`: a null text fails.
  unfoldable pub pack_text : String → Option String → Option Json
  pack_text name none = none
  pack_text name (some text) = j.pack ((name, text) ∷ [])

  -- `json_dumps` of an object, which is null for null.
  unfoldable pub dump_indented : Option Json → M (Option Str)
  dump_indented none = pure none
  dump_indented (some json) = do s ← malloc (j.dumps_indented json); pure (some s)

  module _ (env : Env) (pkg : Package) where
    -- The two branches after a lookup. `key` is the matched text, which the route frees; `text` reads
    -- the field that is answered.
    unfoldable pub answer_lookup :
        String → (BadActor → Option String) → String → Str → Option BadActor → M Bool
    unfolding pack_text dump_indented
    answer_lookup name text not_found key none = do
      free key.block
      bad_actor_destroy none
      finalise_response env pkg (persistent not_found) content_type_json 404
    answer_lookup name text not_found key (some b) = do
      reply ← dump_indented (pack_text name (text b))
      free key.block
      bad_actor_destroy (some b)
      finalise_response env pkg (must_free reply) content_type_json 200

    unfoldable pub called_number_route : Str → Config → M Bool
    unfolding answer_lookup
    called_number_route phone_number config = do
      found ← db_select_phone_number env phone_number.contents config
      answer_lookup "phone_number_found" (λ b. text_of b.called_number) not_found_phone_number_json
          phone_number found

    unfoldable pub ip_address_route : Str → Config → M Bool
    unfolding answer_lookup
    ip_address_route ip_address config = do
      found ← db_select_bad_actor_by_ip env ip_address.contents config
      answer_lookup "bad_actor_found" (λ b. text_of b.source_ip) not_found_bad_actor_json ip_address
          found

    -- The test, by `strncasecmp`, of a request's content type with CONTENT_TYPE_JSON, a parameter.
    module _ (begins_with_json : String → Bool) where
      unfoldable pub json_is_requested : Option String → Bool
      json_is_requested none = false
      json_is_requested (some content_type) = begins_with_json content_type

      unfoldable pub health_check_route : M Bool
      unfolding json_is_requested dump_indented
      health_check_route = do
        content_type ← ask_text env mhd_lookup_content_type
        when (json_is_requested content_type)
            (do
              reply ← dump_indented (
                  j.pack (
                    ("status", "OK")
                    ∷ ("message", "Hello from SentryPeer!")
                    ∷ ("version", pkg.version)
                    ∷ []))
              finalise_response env pkg (must_free reply) content_type_json 200)
            (finalise_response env pkg (persistent hello_html) content_type_html 200)
