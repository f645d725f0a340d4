-- ===== src/Http/Routes.antt =====
-- The dispatch of `route_handler`, src/http_routes.c. The routes are those of src/http_routes.h.
use sentry_peer.Base.{
  ℕ, String, Bool, true, false, not, Option, none, some, List, [], ◌∷◌, ◌==◌, str_eq,
}
use sentry_peer.World.{Env, Str, M, free, pure, when, ◌>>=◌, ◌>>◌}
use sentry_peer.Conf.Settings.{Config}
use sentry_peer.Json.{Jansson, Package}
use sentry_peer.Http.Regex.{Pcre2, regex_match}
use sentry_peer.Http.Response.{persistent, finalise_response}
use sentry_peer.Http.Lookup.{
  content_type_html, content_type_json, called_number_route, ip_address_route, health_check_route,
}
use sentry_peer.Http.Listing.{ip_addresses_route, called_numbers_route}

abbrev pub ip_address_route_pattern : String
ip_address_route_pattern = "/ip-addresses/(.+)"

abbrev pub number_route_pattern : String
number_route_pattern = "/numbers/(\\+?[0-9]+$)"

abbrev pub status_ok_json : String
status_ok_json = "{\"status\": \"OK\"}"

abbrev pub bad_data_json : String
bad_data_json = "{\"error\": \"The request data was invalid\"}"

abbrev pub not_found_error_json : String
not_found_error_json = "{\"error\": \"The requested resource could not be found.\"}"

-- The routes that answer with their own text, after the number's.
abbrev pub placeholder_routes : List String
placeholder_routes =
    "/countries" ∷ "/countries/:country" ∷ "/countries/:country/:city" ∷ "/user-agents"
    ∷ "/user-agents/:user_agent" ∷ "/sip-methods" ∷ "/sip-methods/:sip_method" ∷ []

-- `if (regex_match(…) == EXIT_SUCCESS) { … } else …`
unfoldable pub if_matched : Option Str → (Str → M Bool) → M Bool → M Bool
if_matched none on_match rest = rest
if_matched (some matched) on_match rest = on_match matched

-- `valid_ip` is `valid_ip_address_format` (Utils) over `inet_pton`.
module _ (pcre : Pcre2) (valid_ip : String → Bool) where
  module _ {Json : Type 0} (j : Jansson Json) (env : Env) (pkg : Package)
      (begins_with_json : String → Bool) (config : Config) where
    unfoldable pub try_placeholders : String → List String → M Bool
    try_placeholders url [] =
        finalise_response env pkg (persistent not_found_error_json) content_type_json 404
    try_placeholders url (route ∷ rest) =
        when (str_eq url route) (finalise_response env pkg (persistent route) content_type_html 200)
          (try_placeholders url rest)

    unfoldable pub try_numbers : String → M Bool
    unfolding if_matched try_placeholders
    try_numbers url = when (str_eq url "/numbers") (called_numbers_route j env pkg config) do
      matched ← regex_match pcre url number_route_pattern
      if_matched matched (λ number. called_number_route j env pkg number config)
          (try_placeholders url placeholder_routes)

    -- The body of the IP address route.
    unfoldable pub answer_ip : Str → M Bool
    answer_ip ip =
        when (valid_ip ip.contents) (ip_address_route j env pkg ip config) do
          free ip.block
          finalise_response env pkg (persistent bad_data_json) content_type_json 400

    -- The chain of tests on the URL.
    unfoldable pub dispatch : String → M Bool
    unfolding if_matched try_numbers answer_ip
    dispatch url =
        when (str_eq url "/health-check") (health_check_route j env pkg begins_with_json) (
          when (str_eq url "/")
            (finalise_response env pkg (persistent status_ok_json) content_type_json 200)
            (when (str_eq url "/ip-addresses") (ip_addresses_route j env pkg config) do
              matched ← regex_match pcre url ip_address_route_pattern
              if_matched matched answer_ip (
                  when (str_eq url "/ip-addresses/ipset")
                    (finalise_response env pkg (persistent "/ip-addresses/ipset") content_type_html
                      200)
                    (try_numbers url))))

    -- A call of the handler for a request. `seen` says that `*ptr` is the mark of the first call, and the
    -- result is MHD_YES or MHD_NO with its new value.
    unfoldable pub route_handler : String → String → ℕ → Bool → M (Bool × Bool)
    unfolding dispatch
    route_handler url method upload_data_size seen =
        when (not (str_eq method "GET")) (pure (false, seen)) (
          when (not seen) (pure (true, true)) (
            when (not (upload_data_size == 0)) (pure (false, seen))
              do answer ← dispatch url; pure (answer, false)))
