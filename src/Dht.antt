-- ===== src/Dht.antt =====
-- The listener on the DHT: `dht_value_callback` of src/peer_to_peer_dht.c.
pub mod Listen
pub mod Filter
pub mod Known
pub mod Node
use text.Mathlib.Text.{starts_with}
use sentry_peer.Base.{
  ℕ, String, Bool, true, false, not, ◌&&◌, ◌||◌, Option, none, some, ◌==◌, if◌then◌else◌,
}
use sentry_peer.World.{Env, Str, M, malloc, free, pure, when, ◌>>=◌, ◌>>◌}
use sentry_peer.Conf.Settings.{Build, Config}
use sentry_peer.Actor.{BadActor, bad_actor_destroy}
use sentry_peer.Json.{Jansson, Package, json_to_bad_actor}
use sentry_peer.Database.Exists.{db_bad_actor_exists}
use sentry_peer.Sip.Log.{bad_actor_log}

-- A failed test of the callback leaves it; `then` is the rest.
abbrev pub require {ℓ} : {A : Type ℓ} → Bool → Option A → Option A
require true rest = rest
require false rest = none

abbrev pub with_text {ℓ} : {A : Type ℓ} → Option String → (String → Option A) → Option A
with_text none rest = none
with_text (some t) rest = rest t

-- `uuid_parse` accepts the text: a parameter.
module _ {Json : Type 0} (j : Jansson Json) (is_valid_uuid : String → Bool) where
  -- The tests on a received object, in their order; the result is its event UUID. A value that begins
  -- with this node's id is its own.
  unfoldable pub new_event : Config → Json → Option String
  new_event config json = require (j.is_object json) (
      require (j.has_member "created_by_node_id" json) (
        with_text (j.string_member "created_by_node_id" json) λ node_id.
          require (is_valid_uuid node_id) (
            require (not (starts_with node_id config.node_id)) (
              require (j.has_member "event_uuid" json) (
                with_text (j.string_member "event_uuid" json)
                  λ event_uuid. require (is_valid_uuid event_uuid) (some event_uuid))))))

  unfoldable pub received_event : Config → Option Json → Option String
  unfolding new_event
  received_event config none = none
  received_event config (some json) = new_event config json

  module _ (env : Env) (pkg : Package) (build : Build)
      (json_http_post_bad_actor : Config → BadActor → M Bool) where
    -- Whether the logging succeeds is not looked at.
    unfoldable pub store_event : Config → Str → Option BadActor → M Bool
    store_event config received none = do free received.block; pure true
    store_event config received (some b) = do
      _ ← bad_actor_log env j pkg build json_http_post_bad_actor config b
      free received.block
      bad_actor_destroy (some b)
      pure true

    unfoldable pub handle_event : Config → Str → Option String → M Bool
    unfolding store_event
    handle_event config received none = do free received.block; pure true
    handle_event config received (some event_uuid) = do
      exists ← db_bad_actor_exists env is_valid_uuid (some event_uuid) config
      when exists (do free received.block; pure true)
          (json_to_bad_actor env j pkg config received.contents >>= store_event config received)

    -- `size` is the size of the value, and `value` its text.
    unfoldable pub dht_value_callback : Config → ℕ → String → Bool → M Bool
    unfolding handle_event received_event
    dht_value_callback config size value expired = when (expired || size == 0) (pure true) do
      received ← malloc value
      handle_event config received (received_event config (j.loads value))
