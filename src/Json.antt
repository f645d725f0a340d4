-- ===== src/Json.antt =====
-- Bad actors as JSON: `bad_actor_to_json`, `json_to_bad_actor` and `json_log_bad_actor` of
-- src/json_logger.c. The JSON library is a parameter, `Jansson`.
pub mod Memory
pub mod RoundTrip
use sentry_peer.Base.{
  ℕ, String, Bool, true, false, Option, none, some, List, [], ◌∷◌, str_eq, if◌then◌else◌,
}
use sentry_peer.World.{Env, Block, Str, M, malloc, free, call, emit, pure, check, when, ◌>>=◌, ◌>>◌}
use sentry_peer.World.Calls.{fopen, fprintf, fclose}
use sentry_peer.Actor.{BadActor, text_of, util_duplicate_string, bad_actor_new, free_if_set}
use sentry_peer.Conf.Settings.{Config}
use sentry_peer.Conf.Buffer.{c_string}

-- What the program uses of the library: `json_pack` of an object of strings, which fails on a text that
-- is not UTF-8, and of a number and an array, `json_dumps`, compact and with JSON_INDENT, `json_loadb`, `json_unpack_ex` with JSON_VALIDATE_ONLY for a list of string
-- members, `json_is_object`, `json_object_get`, and `json_string_value` of a member (`none` for NULL,
-- where the member is missing or no string).
pub record Jansson (Json : Type 0) : Type 0 where
  pub pack : List (String × String) → Option Json
  pub dumps : Json → String
  pub dumps_indented : Json → String
  pub pack_list : String → ℕ → String → List Json → Json
  pub loads : String → Option Json
  pub validate : List String → Json → Bool
  pub is_object : Json → Bool
  pub has_member : String → Json → Bool
  pub string_member : String → Json → Option String

-- `field ? field : ""`
abbrev pub or_empty : Option Str → String
or_empty none = ""
or_empty (some s) = s.contents

-- PACKAGE_NAME and PACKAGE_VERSION come from the build.
pub record Package : Type 0 where
  pub name : String
  pub version : String

unfoldable pub bad_actor_members : Package → BadActor → List (String × String)
bad_actor_members pkg b =
    ("app_name", pkg.name)
    ∷ ("app_version", pkg.version)
    ∷ ("event_timestamp", or_empty b.event_timestamp)
    ∷ ("event_uuid", or_empty b.event_uuid)
    ∷ ("created_by_node_id", or_empty b.created_by_node_id)
    ∷ ("collected_method", or_empty b.collected_method)
    ∷ ("transport_type", or_empty b.transport_type)
    ∷ ("source_ip", or_empty b.source_ip)
    ∷ ("destination_ip", or_empty b.destination_ip)
    ∷ ("called_number", or_empty b.called_number)
    ∷ ("sip_method", or_empty b.method)
    ∷ ("sip_user_agent", or_empty b.user_agent)
    ∷ ("sip_message", or_empty b.sip_message)
    ∷ []

unfoldable pub bad_actor_keys : List String
bad_actor_keys =
    "app_name" ∷ "app_version" ∷ "event_timestamp" ∷ "event_uuid" ∷ "created_by_node_id"
    ∷ "collected_method" ∷ "transport_type" ∷ "source_ip" ∷ "destination_ip" ∷ "called_number"
    ∷ "sip_method" ∷ "sip_user_agent" ∷ "sip_message" ∷ []

abbrev pub with_members :
    BadActor
    → Option Str
    → Option Str
    → Option Str
    → Option Str
    → Option Str
    → Option Str
    → Option Str
    → Option Str
    → Option Str
    → Option Str
    → Option Str
    → BadActor
with_members b event_timestamp event_uuid created_by_node_id collected_method transport_type
      source_ip destination_ip called_number method user_agent sip_message =
    record b {
      event_timestamp = event_timestamp;
      event_uuid = event_uuid;
      created_by_node_id = created_by_node_id;
      collected_method = collected_method;
      transport_type = transport_type;
      source_ip = source_ip;
      destination_ip = destination_ip;
      called_number = called_number;
      method = method;
      user_agent = user_agent;
      sip_message = sip_message;
    }

module _ {Json : Type 0} (env : Env) (j : Jansson Json) (pkg : Package) where
  -- What follows `json_pack`.
  unfoldable pub dump_json : Option Json → M (Option Str)
  dump_json none = pure none
  dump_json (some json) = do s ← malloc (j.dumps json); pure (some s)

  -- The caller frees the text. `none` is NULL.
  unfoldable pub bad_actor_to_json : BadActor → M (Option Str)
  unfolding bad_actor_members dump_json
  bad_actor_to_json b = dump_json (j.pack (bad_actor_members pkg b))

  -- A member of the object, copied. The copy's assertion fails where the member is no string.
  unfoldable pub copy_member : Json → String → M (Option Str)
  unfolding util_duplicate_string
  copy_member json key = do s ← util_duplicate_string (j.string_member key json); pure (some s)

  -- The fields that are read from a valid object, in the order of the assignments.
  unfoldable pub read_members : Json → BadActor → M BadActor
  unfolding copy_member
  read_members json b = do
    event_timestamp ← copy_member json "event_timestamp"
    event_uuid ← copy_member json "event_uuid"
    created_by_node_id ← copy_member json "created_by_node_id"
    collected_method ← copy_member json "collected_method"
    transport_type ← copy_member json "transport_type"
    source_ip ← copy_member json "source_ip"
    destination_ip ← copy_member json "destination_ip"
    called_number ← copy_member json "called_number"
    method ← copy_member json "sip_method"
    user_agent ← copy_member json "sip_user_agent"
    sip_message ← copy_member json "sip_message"
    pure (
        with_members b event_timestamp event_uuid created_by_node_id collected_method transport_type
          source_ip destination_ip called_number method user_agent sip_message)

  -- A new bad actor, whose own time stamp, UUID and node id give way to those of the object.
  unfoldable pub actor_of_object : Config → Json → M BadActor
  unfolding read_members
  actor_of_object config json = do
    b ← bad_actor_new env none none none none none none none none (some config.node_id)
    free_if_set b.event_timestamp
    free_if_set b.event_uuid
    free_if_set b.created_by_node_id
    read_members json b

  -- What follows `json_loadb`.
  unfoldable pub convert : Config → Option Json → M (Option BadActor)
  unfolding actor_of_object bad_actor_keys
  convert config none = pure none
  convert config (some json) =
      when (j.validate bad_actor_keys json) (do b ← actor_of_object config json; pure (some b))
        (pure none)

  unfoldable pub json_to_bad_actor : Config → String → M (Option BadActor)
  unfolding convert
  json_to_bad_actor config json_to_convert = convert config (j.loads json_to_convert)

  -- One line of the log, once the file is open.
  unfoldable pub write_line : Option Str → M Bool
  write_line none = do emit fclose; pure false
  write_line (some s) = do emit (fprintf s.contents); free s.block; call env fclose

  -- EXIT_SUCCESS is `true`.
  unfoldable pub json_log_bad_actor : Config → BadActor → M Bool
  unfolding bad_actor_to_json write_line
  json_log_bad_actor config b =
      check (call env (fopen (c_string config.json_log_file))) (pure false)
        (bad_actor_to_json b >>= write_line)
