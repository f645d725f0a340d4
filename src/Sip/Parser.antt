-- ===== src/Sip/Parser.antt =====
-- `sip_message_parser` of src/sip_parser.c. What libosip2 answers is the environment's.
use sentry_peer.Base.{ℕ, String, Bool, true, false, Option, none, some, List, str_eq, if◌then◌else◌}
use sentry_peer.World.{Env, Str, M, malloc, call, ask_text, emit, pure, check, ◌>>=◌, ◌>>◌}
use sentry_peer.World.Calls.{
  osip_message_init, parser_init, osip_message_free, osip_message_parse, osip_message_to_str,
  osip_sip_method, osip_to, osip_to_url, osip_to_url_username, osip_user_agent_header,
}
use sentry_peer.Actor.{BadActor, util_duplicate_string}

-- BAD_ACTOR_NOT_FOUND
abbrev pub bad_actor_not_found : String
bad_actor_not_found = "NOT_FOUND"

-- A missing or empty header stands as NOT_FOUND.
abbrev pub user_agent_or_not_found : Option String → String
user_agent_or_not_found none = bad_actor_not_found
user_agent_or_not_found (some hvalue) = if str_eq hvalue "" then bad_actor_not_found else hvalue

abbrev pub username_or_not_found : Option String → String
username_or_not_found none = bad_actor_not_found
username_or_not_found (some username) = username

module _ (env : Env) where
  -- The three nested tests of `to`, `to->url` and `to->url->username`.
  unfoldable pub called_number_text : M String
  called_number_text = check (call env osip_to) (pure bad_actor_not_found) (
      check (call env osip_to_url) (pure bad_actor_not_found)
        do username ← ask_text env osip_to_url_username; pure (username_or_not_found username))

  -- The fields that are read from a parsed message.
  unfoldable pub take_fields : BadActor → Str → M BadActor
  unfolding called_number_text
  take_fields b sip_message = do
    method_text ← ask_text env osip_sip_method
    method ← util_duplicate_string method_text
    number_text ← called_number_text
    called_number ← util_duplicate_string (some number_text)
    agent_text ← ask_text env osip_user_agent_header
    user_agent ← util_duplicate_string (some (user_agent_or_not_found agent_text))
    pure (record b {
      sip_message = some sip_message;
      method = some method;
      called_number = some called_number;
      user_agent = some user_agent;
    })

  -- What follows `osip_message_to_str`; `none` is its failure.
  unfoldable pub parse_result : BadActor → Option String → M (Bool × BadActor)
  unfolding take_fields
  parse_result b none = do emit osip_message_free; pure (false, record b { sip_message = none })
  parse_result b (some text) = do
    sip_message ← malloc text
    b' ← take_fields b sip_message
    emit osip_message_free
    pure (true, b')

  -- EXIT_SUCCESS is `true`. The bad actor that is passed by reference comes back beside it.
  unfoldable pub sip_message_parser : List ℕ → ℕ → BadActor → M (Bool × BadActor)
  unfolding parse_result
  sip_message_parser incoming_sip_message packet_size b =
      check (call env osip_message_init) (do emit osip_message_free; pure (false, b))
        (check (call env parser_init) (do emit osip_message_free; pure (false, b))
          (check (call env (osip_message_parse incoming_sip_message packet_size))
            (do emit osip_message_free; pure (false, b))
            (do text ← ask_text env osip_message_to_str; parse_result b text)))
