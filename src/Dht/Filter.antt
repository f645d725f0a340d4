-- ===== src/Dht/Filter.antt =====
-- Which received values reach the event store.
use text.Mathlib.Text.{starts_with}
use sentry_peer.Base.{
  ℕ, ◌+◌, ◌≡◌, refl, String, Bool, true, false, not, ◌||◌, ◌==◌, ◌↔◌, Option, none, some, arith,
  Bool-cases, inl, inr,
}
use sentry_peer.World.{World, Env, M, done, malloc}
use sentry_peer.World.Ends.{free_fresh}
use sentry_peer.Conf.Settings.{Build, Config}
use sentry_peer.Actor.{BadActor}
use sentry_peer.Json.{Jansson, Package}
use sentry_peer.Dht.{
  require, with_text, new_event, received_event, handle_event, dht_value_callback,
}

-- What an object must be to count as an event of another node.
pub record IsNewEvent {Json : Type 0} (j : Jansson Json) (is_valid_uuid : String → Bool)
    (config : Config) (json : Json) (event_uuid : String) : Type 0 where
  pub node_id : String
  pub object : j.is_object json ≡ true
  pub has_node : j.has_member "created_by_node_id" json ≡ true
  pub node_text : j.string_member "created_by_node_id" json ≡ some node_id
  pub node_valid : is_valid_uuid node_id ≡ true
  pub foreign : starts_with node_id config.node_id ≡ false
  pub has_event : j.has_member "event_uuid" json ≡ true
  pub event_text : j.string_member "event_uuid" json ≡ some event_uuid
  pub event_valid : is_valid_uuid event_uuid ≡ true

required :
    (b : Bool) {rest : Option String} {x : String}
    → require b rest ≡ some x
    → (b ≡ true) × (rest ≡ some x)
required true e = (refl, e)
required false e = absurd (cc)

text_given :
    (t : Option String) {rest : String → Option String} {x : String}
    → with_text t rest ≡ some x
    → (s : String) × (t ≡ some s) × (rest s ≡ some x)
text_given none e = absurd (cc)
text_given (some s) e = (s, refl, e)

not-true : (b : Bool) → not b ≡ true → b ≡ false
not-true true e = absurd (cc)
not-true false e = refl

module _ {Json : Type 0} (j : Jansson Json) (is_valid_uuid : String → Bool) where
  passed :
      (config : Config) (json : Json) (event_uuid : String)
      → new_event j is_valid_uuid config json ≡ some event_uuid
      → IsNewEvent j is_valid_uuid config json event_uuid
  unfolding new_event
  passed config json event_uuid e =
      let (object, e1) = required (j.is_object json) e in
      let (has_node, e2) = required (j.has_member "created_by_node_id" json) e1 in
      let (node_id, node_text, e3) = text_given (j.string_member "created_by_node_id" json) e2 in
      let (node_valid, e4) = required (is_valid_uuid node_id) e3 in
      let (own, e5) = required (not (starts_with node_id config.node_id)) e4 in
      let (has_event, e6) = required (j.has_member "event_uuid" json) e5 in
      let (event, event_text, e7) = text_given (j.string_member "event_uuid" json) e6 in
      let (event_valid, e8) = required (is_valid_uuid event) e7 in
      record {
        node_id = node_id;
        object = object;
        has_node = has_node;
        node_text = node_text;
        node_valid = node_valid;
        foreign = not-true (starts_with node_id config.node_id) own;
        has_event = has_event;
        event_text = cc;
        event_valid = cc;
      }

  -- An object passes the callback's tests with a UUID exactly when it is an object whose node id and
  -- event UUID are texts and valid UUIDs, the latter that one, and whose node id does not begin with
  -- this node's.
  pub new_event_iff :
      (config : Config) (json : Json) (event_uuid : String)
      → (new_event j is_valid_uuid config json ≡ some event_uuid)
        ↔ IsNewEvent j is_valid_uuid config json event_uuid
  unfolding new_event
  new_event_iff config json event_uuid = (passed config json event_uuid, λ e. ground arith)

  module _ (env : Env) (pkg : Package) (build : Build) (post : Config → BadActor → M Bool) where
    -- A value that is expired, empty, not JSON, or fails one of the tests makes no call of the database,
    -- the logs or the network, and leaves the heap as it was.
    pub dropped :
        (config : Config) (size : ℕ) (value : String) (expired : Bool) (w : World)
        → ((expired || size == 0) ≡ false
            → received_event j is_valid_uuid config (j.loads value) ≡ none)
        → (w' : World) × (dht_value_callback j is_valid_uuid env pkg build post config size value
              expired w
            ≡ done true w')
          × (w'.trace ≡ w.trace)
          × (w'.live ≡ w.live)
    unfolding dht_value_callback handle_event malloc
    dropped config size value expired w h = elim (Bool-cases (expired || size == 0)) [
      | inl e ↦ (w, rw e, refl, refl)
      | inr e ↦ (record w { next = w.next + 1 }, rw (e, h e, free_fresh w), refl, refl)
    ]
