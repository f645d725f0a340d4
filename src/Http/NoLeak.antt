-- ===== src/Http/NoLeak.antt =====
-- The heap over the response to a request and the routes that answer from one lookup.
use sentry_peer.Base.{
  ℕ, ◌≡◌, refl, String, Bool, true, false, Option, none, some, List, [], ◌∷◌, ◌++◌, arith,
  count-append,
}
use sentry_peer.World.{
  World, Env, Stop, assert_failed, bad_free, bad_read, bad_write, stack_overflow, out_of_fuel,
  exit_with, killed, Run, Str, and_then, call, pure, emit,
}
use sentry_peer.World.Calls.{
  Call, mhd_create_response, mhd_queue_response, mhd_add_response_header, mhd_destroy_response,
  mhd_lookup_content_type,
}
use sentry_peer.World.Ends.{
  Ends, ended, halted, Holding, Asserts, bind, branch, check-Ends, call-Ends, ask_text-Ends,
  emit-Ends, malloc-Ends, free-Ends,
}
use sentry_peer.Conf.Settings.{Config}
use sentry_peer.Actor.{BadActor, text_of, bad_actor_destroy}
use sentry_peer.Actor.Memory.{owned, bad_actor_destroy-Holding}
use sentry_peer.Json.{Jansson, Package}
use sentry_peer.Json.Memory.{Returned}
use sentry_peer.Database.Select.{
  db_select_bad_actor_by_ip, db_select_phone_number, get_bad_actor_by_ip, get_phone_number,
  source_ip, called_number,
}
use sentry_peer.Database.Lookup.{select_one-Returned}
use sentry_peer.Http.Response.{
  Reply, persistent, must_free, free_reply, add_headers, headers, respond, finalise_response,
}
use sentry_peer.Http.Lookup.{
  content_type_json, pack_text, dump_indented, answer_lookup, called_number_route, ip_address_route,
  health_check_route, json_is_requested, hello_html, content_type_html, not_found_phone_number_json,
  not_found_bad_actor_json,
}

-- Every stop but the free of a block that is not allocated.
abbrev pub NoBadFree : Stop → Type 0
NoBadFree bad_free = ⊥
NoBadFree _ = Unit {0}

allowed : (s : Stop) → Asserts s → NoBadFree s
allowed assert_failed p = tt
allowed (exit_with code) p = tt
allowed killed p = tt
allowed bad_free p = p
allowed bad_read p = tt
allowed bad_write p = tt
allowed stack_overflow p = tt
allowed out_of_fuel p = tt

pub more_stops :
    {A : Type 0} {P : A → World → Type 0} {run : Run A} → Ends Asserts P run → Ends NoBadFree P run
more_stops (ended p) = ended p
more_stops (halted {s = s} p) = halted (allowed s p)

-- The block that a reply hands over.
abbrev pub reply_blocks : Reply → List ℕ
reply_blocks (must_free (some s)) = s.block ∷ []
reply_blocks _ = []

abbrev pub CreatesAll : Env → Type 0
CreatesAll env =
    (tr : List Call) (text : String) → env.succeeds tr (mhd_create_response text) ≡ true

module _ (env : Env) (pkg : Package) (creates : CreatesAll env) where
  free_reply-Holding :
      (reply : Reply) {bs : List ℕ} {w : World}
      → Holding (reply_blocks reply ++ bs) w
      → Ends NoBadFree (λ _ w'. Holding bs w') (free_reply reply w)
  unfolding free_reply
  free_reply-Holding (persistent text) h = ended h
  free_reply-Holding (must_free none) h = ended h
  free_reply-Holding (must_free (some s)) {bs} h = free-Ends s.block bs h (λ a. refl)

  destroyed :
      (reply : Reply) (answer : Bool) {bs : List ℕ} {w : World}
      → Holding (reply_blocks reply ++ bs) w
      → Ends NoBadFree
          (λ _ w'. Holding bs w')
          (and_then
            (emit mhd_destroy_response w)
            λ _ w1. and_then (free_reply reply w1) λ _. pure answer)
  destroyed reply answer h =
      bind (emit-Ends mhd_destroy_response h)
        λ _ w1 h1. bind (free_reply-Holding reply h1) λ _ w2 h2. ended h2

  add_headers-Holding :
      (hs : List (String × String)) (reply : Reply) (queued : Bool) {bs : List ℕ} {w : World}
      → Holding (reply_blocks reply ++ bs) w
      → Ends NoBadFree (λ _ w'. Holding bs w') (add_headers env pkg hs reply queued w)
  unfolding add_headers
  add_headers-Holding [] reply queued h = destroyed reply queued h
  add_headers-Holding ((name, value) ∷ rest) reply queued h =
      check-Ends (call-Ends env (mhd_add_response_header name value) h)
        (λ w1 h1. destroyed reply false h1) λ w1 h1. add_headers-Holding rest reply queued h1

  respond-Holding :
      (text : String) (reply : Reply) (content_type : String) (status : ℕ) {bs : List ℕ} {w : World}
      → Holding (reply_blocks reply ++ bs) w
      → Ends NoBadFree (λ _ w'. Holding bs w') (respond env pkg text reply content_type status w)
  unfolding respond call
  respond-Holding text reply content_type status {w = w} h = rw (creates w.trace text) (
      bind (call-Ends env (mhd_queue_response status) (record { same = h.same }))
        λ queued w1 h1. add_headers-Holding (headers env pkg content_type) reply queued h1)

  pub finalise_response-Holding :
      (reply : Reply) (content_type : String) (status : ℕ) {bs : List ℕ} {w : World}
      → Holding (reply_blocks reply ++ bs) w
      → Ends NoBadFree
          (λ _ w'. Holding bs w')
          (finalise_response env pkg reply content_type status w)
  unfolding finalise_response
  finalise_response-Holding (persistent text) content_type status h =
      respond-Holding text (persistent text) content_type status h
  finalise_response-Holding (must_free none) content_type status h = halted tt
  finalise_response-Holding (must_free (some s)) content_type status h =
      respond-Holding s.contents (must_free (some s)) content_type status h

  module _ {Json : Type 0} (j : Jansson Json) where
    dumped-Holding :
        (o : Option Json) {bs : List ℕ} {w : World}
        → Holding bs w
        → Ends NoBadFree
            (λ r w'. Holding (reply_blocks (must_free r) ++ bs) w')
            (dump_indented j o w)
    unfolding dump_indented
    dumped-Holding none h = ended h
    dumped-Holding (some json) h =
        bind (malloc-Ends (j.dumps_indented json) h) λ s w1 h1. ended h1.0

    answer_lookup-Holding :
        (name : String) (text : BadActor → Option String) (not_found : String) (key : Str)
        (o : Option BadActor) {bs : List ℕ} (w : World)
        → Returned (key.block ∷ bs) o w
        → Ends NoBadFree
            (λ _ w'. Holding bs w')
            (answer_lookup j env pkg name text not_found key o w)
    unfolding answer_lookup bad_actor_destroy
    answer_lookup-Holding name text not_found key none {bs} w h =
        bind (free-Ends key.block bs h (λ a. refl))
          λ _ w1 h1. finalise_response-Holding (persistent not_found) content_type_json 404 h1
    answer_lookup-Holding name text not_found key (some b) {bs} w o =
        bind
          (dumped-Holding (pack_text j name (text b)) {bs = w.live} (record { same = λ a. refl }))
          λ reply w1 h1.
            let sent = reply_blocks (must_free reply) in
            bind
              (free-Ends key.block (owned b ++ (sent ++ bs)) h1 λ a. omega (
                arith,
                o.blocks a,
                count-append a sent w.live,
                count-append a (owned b) (sent ++ bs),
                count-append a sent bs,
              ))
              λ _ w2 h2.
                bind
                  (bad_actor_destroy-Holding b (sent ++ bs) h2
                    (λ a. count-append a (owned b) (sent ++ bs)))
                  λ _ w3 h3. finalise_response-Holding (must_free reply) content_type_json 200 h3

    -- If libmicrohttpd creates every response: a request for a number frees the matched text that it is
    -- given, the bad actor that it finds and the answer, each once, and when it returns the blocks of
    -- before are left.
    pub called_number_route-Holding :
        (number : Str) (config : Config) {bs : List ℕ} {w : World}
        → Holding (number.block ∷ bs) w
        → Ends NoBadFree (λ _ w'. Holding bs w') (called_number_route j env pkg number config w)
    unfolding called_number_route db_select_phone_number
    called_number_route-Holding number config h =
        bind
          (more_stops
            (select_one-Returned env get_phone_number called_number number.contents config h))
          λ o w1 h1.
            answer_lookup-Holding "phone_number_found" (λ b. text_of b.called_number)
              not_found_phone_number_json number o w1 h1

    -- The same for an IP address.
    pub ip_address_route-Holding :
        (ip : Str) (config : Config) {bs : List ℕ} {w : World}
        → Holding (ip.block ∷ bs) w
        → Ends NoBadFree (λ _ w'. Holding bs w') (ip_address_route j env pkg ip config w)
    unfolding ip_address_route db_select_bad_actor_by_ip
    ip_address_route-Holding ip config h =
        bind
          (more_stops (select_one-Returned env get_bad_actor_by_ip source_ip ip.contents config h))
          λ o w1 h1.
            answer_lookup-Holding "bad_actor_found" (λ b. text_of b.source_ip)
              not_found_bad_actor_json ip o w1 h1

    pub health_check_route-Holding :
        (begins_with_json : String → Bool) {bs : List ℕ} {w : World}
        → Holding bs w
        → Ends NoBadFree (λ _ w'. Holding bs w') (health_check_route j env pkg begins_with_json w)
    unfolding health_check_route
    health_check_route-Holding begins_with_json h =
        bind (ask_text-Ends env mhd_lookup_content_type h) λ t w1 h1.
          branch (json_is_requested j env pkg begins_with_json t)
            (bind (dumped-Holding (j.pack _) h1)
              λ reply w2 h2. finalise_response-Holding (must_free reply) content_type_json 200 h2)
            (finalise_response-Holding (persistent hello_html) content_type_html 200 h1)
