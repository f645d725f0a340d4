-- ===== src/Http/Answered.antt =====
-- The responses that the routes of src/http_*_route.c queue.
use sentry_peer.Base.{ℕ, ap, ◌≡◌, refl, String, Bool, false, Option, none, some, List, [], ◌∷◌}
use sentry_peer.World.{World, Env, Run, Str, call}
use sentry_peer.World.Ends.{Ends, ended, halted, bind, branch, mono}
use sentry_peer.World.Calls.{mhd_add_response_header, mhd_destroy_response, mhd_lookup_content_type}
use sentry_peer.World.Sent.{
  responses, Faults, Sent, Quiet, malloc-Quiet, free-Quiet, emit-Quiet, call-Quiet, ask_text-Quiet,
  check-Quiet,
}
use sentry_peer.Conf.Settings.{Config}
use sentry_peer.Actor.{BadActor}
use sentry_peer.Json.{Jansson, Package}
use sentry_peer.Database.Select.{
  get_phone_number, get_bad_actor_by_ip, source_ip, called_number, count_source_ips,
  select_source_ips, count_phone_numbers, select_phone_numbers, db_select_bad_actor_by_ip,
  db_select_phone_number, db_select_bad_actors, db_select_called_numbers,
}
use sentry_peer.Database.Quiet.{bad_actor_destroy-Quiet, bad_actors_destroy-Quiet, select_one-Quiet}
use sentry_peer.Database.Quiet.Lists.{select_all-Quiet}
use sentry_peer.Http.Response.{
  Reply, persistent, must_free, free_reply, add_headers, headers, respond, finalise_response,
}
use sentry_peer.Http.Lookup.{
  content_type_json, content_type_html, pack_text, dump_indented, answer_lookup,
  called_number_route, ip_address_route, health_check_route, json_is_requested, hello_html,
}
use sentry_peer.Http.Listing.{
  Kind, ip_addresses_kind, called_numbers_kind, row_objects, answer_rows, answer_listing,
  ip_addresses_route, called_numbers_route,
}
use sentry_peer.Http.NoLeak.{CreatesAll}

-- The statuses of the API.
pub data IsStatus : ℕ → Type 0 where
  ok : IsStatus 200
  bad_request : IsStatus 400
  not_found : IsStatus 404

-- One response was queued after those of before.
pub record Answered (rs : List ℕ) (w : World) : Type 0 where
  pub status : ℕ
  pub is_status : IsStatus status
  pub one : responses w.trace ≡ status ∷ rs

abbrev pub Answers : List ℕ → Run Bool → Type 0
Answers rs run = Ends Faults (λ _ w'. Answered rs w') run

free_reply-Quiet :
    (reply : Reply) {rs : List ℕ} (w : World) → Sent rs w → Quiet rs (free_reply reply w)
unfolding free_reply
free_reply-Quiet (persistent text) w h = ended h
free_reply-Quiet (must_free none) w h = ended h
free_reply-Quiet (must_free (some s)) w h = free-Quiet h s.block

module _ (env : Env) (pkg : Package) where
  end_response-Quiet :
      (reply : Reply) (rc : Bool) {rs : List ℕ} (w : World)
      → Sent rs w
      → Quiet rs (add_headers env pkg [] reply rc w)
  unfolding add_headers
  end_response-Quiet reply rc w h =
      bind (emit-Quiet h mhd_destroy_response (λ _. refl))
        λ _ w h. bind (free_reply-Quiet reply w h) λ _ w h. ended h

  add_headers-Quiet :
      (hs : List (String × String)) (reply : Reply) (queued : Bool) {rs : List ℕ} (w : World)
      → Sent rs w
      → Quiet rs (add_headers env pkg hs reply queued w)
  unfolding add_headers
  add_headers-Quiet [] reply queued w h = end_response-Quiet reply queued w h
  add_headers-Quiet ((name, value) ∷ rest) reply queued w h =
      check-Quiet (call-Quiet h (mhd_add_response_header name value) (λ _. refl) env)
        (end_response-Quiet reply false) (add_headers-Quiet rest reply queued)

  module _ (creates : CreatesAll env) {rs : List ℕ} where
    respond-Answers :
        (text : String) (reply : Reply) (content_type : String) {status : ℕ} (is : IsStatus status)
        (w : World)
        → Sent rs w
        → Answers rs (respond env pkg text reply content_type status w)
    unfolding respond call
    respond-Answers text reply content_type {status} is w h = rw (creates w.trace text) (
        mono
          (add_headers-Quiet (headers env pkg content_type) reply _ _
            (record { same = ap (λ sent. status ∷ sent) h.same }))
          λ _ w1 h1. record { status = status; is_status = is; one = h1.same })

    pub finalise_response-Answers :
        (reply : Reply) (content_type : String) {status : ℕ} (is : IsStatus status) (w : World)
        → Sent rs w
        → Answers rs (finalise_response env pkg reply content_type status w)
    unfolding finalise_response
    finalise_response-Answers (persistent text) content_type is w h =
        respond-Answers text (persistent text) content_type is w h
    finalise_response-Answers (must_free none) content_type is w h = halted tt
    finalise_response-Answers (must_free (some s)) content_type is w h =
        respond-Answers s.contents (must_free (some s)) content_type is w h

    module _ {Json : Type 0} (j : Jansson Json) where
      dump_indented-Quiet :
          (o : Option Json) (w : World) → Sent rs w → Quiet rs (dump_indented j o w)
      unfolding dump_indented
      dump_indented-Quiet none w h = ended h
      dump_indented-Quiet (some json) w h =
          bind (malloc-Quiet h (j.dumps_indented json)) λ _ w h. ended h

      answer_lookup-Answers :
          (name : String) (text : BadActor → Option String) (nothing : String) (key : Str)
          (o : Option BadActor) (w : World)
          → Sent rs w
          → Answers rs (answer_lookup j env pkg name text nothing key o w)
      unfolding answer_lookup
      answer_lookup-Answers name text nothing key none w h = bind (free-Quiet h key.block) λ _ w h.
          bind (bad_actor_destroy-Quiet none w h)
            λ _ w h. finalise_response-Answers (persistent nothing) content_type_json not_found w h
      answer_lookup-Answers name text nothing key (some b) w h =
          bind (dump_indented-Quiet (pack_text j name (text b)) w h) λ reply w h.
            bind (free-Quiet h key.block) λ _ w h.
              bind (bad_actor_destroy-Quiet (some b) w h)
                λ _ w h. finalise_response-Answers (must_free reply) content_type_json ok w h

      pub called_number_route-Answers :
          (number : Str) (config : Config) (w : World)
          → Sent rs w
          → Answers rs (called_number_route j env pkg number config w)
      unfolding called_number_route db_select_phone_number
      called_number_route-Answers number config w h =
          bind (select_one-Quiet env get_phone_number called_number number.contents config w h)
            λ o w h. answer_lookup-Answers _ _ _ number o w h

      pub ip_address_route-Answers :
          (ip : Str) (config : Config) (w : World)
          → Sent rs w
          → Answers rs (ip_address_route j env pkg ip config w)
      unfolding ip_address_route db_select_bad_actor_by_ip
      ip_address_route-Answers ip config w h =
          bind (select_one-Quiet env get_bad_actor_by_ip source_ip ip.contents config w h)
            λ o w h. answer_lookup-Answers _ _ _ ip o w h

      pub health_check_route-Answers :
          (begins_with_json : String → Bool) (w : World)
          → Sent rs w
          → Answers rs (health_check_route j env pkg begins_with_json w)
      unfolding health_check_route
      health_check_route-Answers begins_with_json w h =
          bind (ask_text-Quiet h mhd_lookup_content_type (λ _. refl) env) λ t w h.
            branch (json_is_requested j env pkg begins_with_json t)
              (bind (dump_indented-Quiet _ w h)
                λ reply w h. finalise_response-Answers (must_free reply) content_type_json ok w h)
              (finalise_response-Answers (persistent hello_html) content_type_html ok w h)

      answer_rows-Answers :
          (kind : Kind) (array : ℕ) (rows : List BadActor) (objects : Option (List Json))
          (w : World)
          → Sent rs w
          → Answers rs (answer_rows j env pkg kind array rows objects w)
      unfolding answer_rows
      answer_rows-Answers kind array rows none w h =
          bind (bad_actors_destroy-Quiet rows w h) λ _ w h. bind (free-Quiet h array) λ _ w h.
            finalise_response-Answers (persistent kind.not_found) content_type_json not_found w h
      answer_rows-Answers kind array rows (some objects) w h = bind (malloc-Quiet h _) λ reply w h.
          bind (bad_actors_destroy-Quiet rows w h) λ _ w h.
            bind (free-Quiet h array)
              λ _ w h. finalise_response-Answers (must_free (some reply)) content_type_json ok w h

      answer_listing-Answers :
          (kind : Kind) (o : Option (ℕ × List BadActor)) (w : World)
          → Sent rs w
          → Answers rs (answer_listing j env pkg kind o w)
      unfolding answer_listing
      answer_listing-Answers kind none w h =
          finalise_response-Answers (persistent kind.not_found) content_type_json not_found w h
      answer_listing-Answers kind (some (array, [])) w h =
          bind (bad_actors_destroy-Quiet [] w h) λ _ w h. bind (free-Quiet h array) λ _ w h.
            finalise_response-Answers (persistent kind.not_found) content_type_json not_found w h
      answer_listing-Answers kind (some (array, b ∷ bs)) w h =
          answer_rows-Answers kind array (b ∷ bs) (row_objects j kind (b ∷ bs)) w h

      pub ip_addresses_route-Answers :
          (config : Config) (w : World)
          → Sent rs w
          → Answers rs (ip_addresses_route j env pkg config w)
      unfolding ip_addresses_route db_select_bad_actors
      ip_addresses_route-Answers config w h =
          bind (select_all-Quiet env count_source_ips select_source_ips source_ip config w h)
            λ o w h. answer_listing-Answers ip_addresses_kind o w h

      pub called_numbers_route-Answers :
          (config : Config) (w : World)
          → Sent rs w
          → Answers rs (called_numbers_route j env pkg config w)
      unfolding called_numbers_route db_select_called_numbers
      called_numbers_route-Answers config w h =
          bind
            (select_all-Quiet env count_phone_numbers select_phone_numbers called_number config w h)
            λ o w h. answer_listing-Answers called_numbers_kind o w h
