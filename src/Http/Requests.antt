-- ===== src/Http/Requests.antt =====
-- What the handler of src/http_routes.c does with a request.
use sentry_peer.Base.{
  ℕ, ◌≡◌, refl, String, Bool, true, false, not, ◌&&◌, ◌==◌, Option, none, some, List, [], ◌∷◌,
  str_eq, if◌then◌else◌,
}
use sentry_peer.World.{World, Env, Str, M, done, and_then, pure, when, ◌>>=◌}
use sentry_peer.World.Ends.{Ends, ended, Holding, bind, branch, free-Ends}
use sentry_peer.Conf.Settings.{Config}
use sentry_peer.Json.{Jansson, Package}
use sentry_peer.Http.Response.{persistent}
use sentry_peer.Http.Lookup.{content_type_json, content_type_html}
use sentry_peer.Http.Routes.{
  ip_address_route_pattern, number_route_pattern, status_ok_json, bad_data_json,
  not_found_error_json, placeholder_routes, if_matched, try_placeholders, try_numbers, answer_ip,
  dispatch, route_handler,
}
use sentry_peer.Http.Regex.{Pcre2, regex_match}
use sentry_peer.Http.Matched.{Matched, regex_match-Matched}
use sentry_peer.Http.NoLeak.{
  NoBadFree, CreatesAll, finalise_response-Holding, called_number_route-Holding,
  ip_address_route-Holding, health_check_route-Holding,
}

-- The three guards of the handler.
guarded :
    (get seen empty : Bool) (rest : M (Bool × Bool)) (w : World)
    → (get && (seen && empty)) ≡ false
    → when
        (not get)
        (pure (false, seen))
        (when (not seen) (pure (true, true)) (when (not empty) (pure (false, seen)) rest))
        w
      ≡ done (get && not seen, if get then true else seen) w
guarded false seen empty rest w h = refl
guarded true false empty rest w h = refl
guarded true true false rest w h = refl
guarded true true true rest w h = absurd (cc)

module _ (pcre : Pcre2) (valid_ip : String → Bool) {Json : Type 0} (j : Jansson Json) (env : Env)
    (pkg : Package) (begins_with_json : String → Bool) (config : Config) where
  -- A call of the handler for a request that is no GET, is seen for the first time, or comes with a body
  -- queues no response and changes nothing: it answers MHD_YES just to the first call of a GET, and
  -- marks the request in that case only.
  pub route_handler-silent :
      (url method : String) (upload_data_size : ℕ) (seen : Bool) (w : World)
      → (str_eq method "GET" && (seen && (upload_data_size == 0))) ≡ false
      → route_handler pcre valid_ip j env pkg begins_with_json config url method upload_data_size
          seen w
        ≡ done (str_eq method "GET" && not seen, if str_eq method "GET" then true else seen) w
  unfolding route_handler
  route_handler-silent url method size seen w h =
      guarded (str_eq method "GET") seen (size == 0)
        (dispatch pcre valid_ip j env pkg begins_with_json config url >>= λ answer.
          pure (answer, false))
        w h

  module _ (creates : CreatesAll env) where
    try_placeholders-Holding :
        (url : String) (routes : List String) {bs : List ℕ} {w : World}
        → Holding bs w
        → Ends NoBadFree
            (λ _ w'. Holding bs w')
            (try_placeholders pcre valid_ip j env pkg begins_with_json config url routes w)
    unfolding try_placeholders
    try_placeholders-Holding url [] h =
        finalise_response-Holding env pkg creates (persistent not_found_error_json)
          content_type_json 404 h
    try_placeholders-Holding url (route ∷ rest) h =
        branch (str_eq url route)
          (finalise_response-Holding env pkg creates (persistent route) content_type_html 200 h)
          (try_placeholders-Holding url rest h)

    if_matched-Holding :
        (regex url : String) (on_match : Str → M Bool) (rest : M Bool) {bs : List ℕ} {w : World}
        → Holding bs w
        → ((s : Str) (w' : World)
            → Holding (s.block ∷ bs) w'
            → Ends NoBadFree (λ _ w2. Holding bs w2) (on_match s w'))
        → ((w' : World) → Holding bs w' → Ends NoBadFree (λ _ w2. Holding bs w2) (rest w'))
        → Ends NoBadFree
            (λ _ w2. Holding bs w2)
            (and_then (regex_match pcre url regex w) λ matched. if_matched matched on_match rest)
    unfolding if_matched
    if_matched-Holding regex url on_match rest {bs} h matches fails =
        bind (regex_match-Matched pcre url regex h) λ o w1 h1. chosen o w1 h1
      where
        chosen :
            (o : Option Str) (w1 : World)
            → Matched bs o w1
            → Ends NoBadFree (λ _ w2. Holding bs w2) (if_matched o on_match rest w1)
        chosen none w1 h1 = fails w1 h1
        chosen (some s) w1 h1 = matches s w1 h1

    answer_ip-Holding :
        (ip : Str) {bs : List ℕ} (w : World)
        → Holding (ip.block ∷ bs) w
        → Ends NoBadFree
            (λ _ w'. Holding bs w')
            (answer_ip pcre valid_ip j env pkg begins_with_json config ip w)
    unfolding answer_ip
    answer_ip-Holding ip {bs} w h =
        branch (valid_ip ip.contents) (ip_address_route-Holding env pkg creates j ip config h) (
          bind (free-Ends ip.block bs h (λ a. refl)) λ _ w1 h1.
            finalise_response-Holding env pkg creates (persistent bad_data_json) content_type_json
              400 h1)

    try_numbers-Holding :
        (url : String) {bs : List ℕ} {w : World}
        → str_eq url "/numbers" ≡ false
        → Holding bs w
        → Ends NoBadFree
            (λ _ w'. Holding bs w')
            (try_numbers pcre valid_ip j env pkg begins_with_json config url w)
    unfolding try_numbers
    try_numbers-Holding url e h = rw e (
        if_matched-Holding number_route_pattern url _ _ h
          (λ s w1 h1. called_number_route-Holding env pkg creates j s config h1)
          λ w1 h1. try_placeholders-Holding url placeholder_routes h1)

    dispatch-Holding :
        (url : String) {bs : List ℕ} {w : World}
        → str_eq url "/ip-addresses" ≡ false
        → str_eq url "/numbers" ≡ false
        → Holding bs w
        → Ends NoBadFree
            (λ _ w'. Holding bs w')
            (dispatch pcre valid_ip j env pkg begins_with_json config url w)
    unfolding dispatch
    dispatch-Holding url listing numbers h =
        branch (str_eq url "/health-check")
          (health_check_route-Holding env pkg creates j begins_with_json h)
          (branch (str_eq url "/")
            (finalise_response-Holding env pkg creates (persistent status_ok_json) content_type_json
              200 h)
            (rw listing (
              if_matched-Holding ip_address_route_pattern url _ _ h
                (λ ip w1 h1. answer_ip-Holding ip w1 h1)
                λ w1 h1.
                  branch (str_eq url "/ip-addresses/ipset")
                    (finalise_response-Holding env pkg creates (persistent "/ip-addresses/ipset")
                      content_type_html 200 h1)
                    (try_numbers-Holding url numbers h1))))

    -- If libmicrohttpd creates every response: on a URL other than the two that list, a call of the
    -- handler frees no block that is not allocated, whatever the method, the database and PCRE2 answer,
    -- and when it returns exactly the blocks of before are allocated.
    pub route_handler-Holding :
        (url method : String) (upload_data_size : ℕ) (seen : Bool) (w : World)
        → str_eq url "/ip-addresses" ≡ false
        → str_eq url "/numbers" ≡ false
        → Ends NoBadFree
            (λ _ w'. Holding w.live w')
            (route_handler pcre valid_ip j env pkg begins_with_json config url method
              upload_data_size seen w)
    unfolding route_handler
    route_handler-Holding url method size seen w listing numbers =
        branch (not (str_eq method "GET")) (ended (record { same = λ a. refl })) (
          branch (not seen) (ended (record { same = λ a. refl })) (
            branch (not (size == 0)) (ended (record { same = λ a. refl })) (
              bind (dispatch-Holding url listing numbers (record { same = λ a. refl }))
                λ answer w1 h1. ended h1)))
