-- ===== src/Http/Refused.antt =====
-- How `route_handler` of src/http_routes.c refuses a text that is no IP address.
use Prim.Native.String.{len, slice}
use sentry_peer.Base.{ap, ℕ, ◌+◌, ◌≡◌, refl, String, Bool, true, false, List, [], ◌∷◌, ◌++◌, str_eq}
use sentry_peer.World.{World, Env, call, emit}
use sentry_peer.World.Calls.{
  Call, mhd_create_response, mhd_queue_response, mhd_add_response_header, mhd_destroy_response,
}
use sentry_peer.World.Ends.{Ends, ended, Never, free_head, mono, branch}
use sentry_peer.Conf.Settings.{Config}
use sentry_peer.Json.{Jansson, Package}
use sentry_peer.Http.Response.{
  persistent, free_reply, add_headers, headers, respond, finalise_response,
}
use sentry_peer.Http.Lookup.{content_type_json}
use sentry_peer.Http.Regex.{Match, Pcre2}
use sentry_peer.Http.Matched.{Captures, regex_match-Captures}
use sentry_peer.Http.NoLeak.{CreatesAll}
use sentry_peer.Http.Routes.{
  ip_address_route_pattern, bad_data_json, if_matched, answer_ip, dispatch,
}

-- The calls that a response gets once it is queued: headers, and its end.
abbrev pub only_headers : List Call → Bool
only_headers [] = true
only_headers (mhd_add_response_header _ _ ∷ cs) = only_headers cs
only_headers (mhd_destroy_response ∷ cs) = only_headers cs
only_headers (_ ∷ cs) = false

-- Since some world, one response was made, of the message on bad data, and queued with status 400; the
-- only calls since then are those on its headers and its end; and the heap is as it was.
pub record Refused (start end : World) : Type 0 where
  pub later : List Call
  pub trace :
      end.trace
      ≡ later
        ++ (mhd_queue_response 400
            ∷ mhd_create_response "{\"error\": \"The request data was invalid\"}"
            ∷ start.trace)
  pub header_calls : only_headers later ≡ true
  pub heap : end.live ≡ start.live

-- The calls of a list come after a trace, and the heap is as it was.
record Adds (before : List Call) (live : List ℕ) (w : World) : Type 0 where
  later : List Call
  trace : w.trace ≡ later ++ before
  header_calls : only_headers later ≡ true
  heap : w.live ≡ live

module _ (env : Env) (pkg : Package) where
  add_headers-Adds :
      (hs : List (String × String)) (text : String) (queued : Bool) {before : List Call}
      {live : List ℕ} (w : World)
      → Adds before live w
      → Ends Never (λ _ w'. Adds before live w') (add_headers env pkg hs (persistent text) queued w)
  unfolding add_headers call emit free_reply
  add_headers-Adds [] text queued w h = ended (record {
    later = mhd_destroy_response ∷ h.later;
    trace = ap (λ tr. mhd_destroy_response ∷ tr) h.trace;
    header_calls = h.header_calls;
    heap = h.heap;
  })
  add_headers-Adds ((name, value) ∷ rest) text queued w h =
      branch (env.succeeds w.trace (mhd_add_response_header name value))
        (add_headers-Adds rest text queued _ (record {
          later = mhd_add_response_header name value ∷ h.later;
          trace = ap (λ tr. mhd_add_response_header name value ∷ tr) h.trace;
          header_calls = h.header_calls;
          heap = h.heap;
        }))
        (ended (record {
          later = mhd_destroy_response ∷ mhd_add_response_header name value ∷ h.later;
          trace = ap (λ tr. mhd_destroy_response ∷ mhd_add_response_header name value ∷ tr) h.trace;
          header_calls = h.header_calls;
          heap = h.heap;
        }))

module _ (pcre : Pcre2) (valid_ip : String → Bool) {Json : Type 0} (j : Jansson Json) (env : Env)
    (pkg : Package) (begins_with_json : String → Bool) (config : Config) where
  -- The branch that the request takes.
  refused_by :
      (url : String) (m : Match) (w : World)
      → str_eq url "/health-check" ≡ false
      → str_eq url "/" ≡ false
      → str_eq url "/ip-addresses" ≡ false
      → Captures pcre ip_address_route_pattern url m
      → valid_ip (slice url (m.ovector 2) (len url)) ≡ false
      → dispatch pcre valid_ip j env pkg begins_with_json config url w
        ≡ finalise_response env pkg
            (persistent bad_data_json)
            content_type_json
            400
            (record w { next = w.next + 1 + 1 + 1 })
  unfolding dispatch if_matched answer_ip
  refused_by url m w e1 e2 e3 captured invalid =
      rw
        (
          e1,
          e2,
          e3,
          regex_match-Captures pcre url ip_address_route_pattern m w captured,
          invalid,
          free_head (w.next + 1 + 1) w.live (record w { next = w.next + 1 + 1 + 1 }),
        )
        refl

  -- If libmicrohttpd creates every response: where the URL is none of the three exact routes before it,
  -- the pattern of the IP address route compiles and matches, its group begins within the URL, and the
  -- text from there on is no IP address, the dispatch always returns; a response with the message on bad
  -- data is then created and queued with status 400, and no calls are made but these two and those on
  -- its headers and its end, so neither the event store nor a later route is asked; and the heap is as
  -- it was.
  pub dispatch-refuses :
      CreatesAll env
      → (url : String) (m : Match) (w : World) → str_eq url "/health-check" ≡ false
      → str_eq url "/" ≡ false
      → str_eq url "/ip-addresses" ≡ false
      → Captures pcre ip_address_route_pattern url m
      → valid_ip (slice url (m.ovector 2) (len url)) ≡ false
      → Ends Never
          (λ _ w'. Refused w w')
          (dispatch pcre valid_ip j env pkg begins_with_json config url w)
  unfolding finalise_response respond call
  dispatch-refuses creates url m w e1 e2 e3 captured invalid =
      rw (refused_by url m w e1 e2 e3 captured invalid, creates w.trace bad_data_json)
        (mono
          (add_headers-Adds env pkg (headers env pkg content_type_json) bad_data_json _ _
            (record { later = []; trace = refl; header_calls = refl; heap = refl }))
          λ _ w' h. record {
            later = h.later;
            trace = h.trace;
            header_calls = h.header_calls;
            heap = h.heap;
          })
