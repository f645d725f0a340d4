-- ===== src/Webhook/Token.antt =====
-- The OAuth2 bearer token, src/json_logger.c: requested, kept in the configuration, put into a header.
use sentry_peer.Base.{ℕ, String, Bool, true, false, Option, none, some, List, [], ◌∷◌, map, take}
use sentry_peer.World.{
  Env, Str, M, assert_failed, bad_read, malloc, free, call, pure, stop, check, when, ◌>>=◌, ◌>>◌,
}
use sentry_peer.World.Calls.{
  Call, snprintf, write_save_json_results, writedata_chunk, curlopt_url, curlopt_postfields,
  curlopt_httpheader,
}
use sentry_peer.Actor.{util_duplicate_string, free_if_set}
use sentry_peer.Conf.Settings.{Config}
use sentry_peer.Conf.Buffer.{c_string}
use sentry_peer.Json.{Jansson}
use sentry_peer.Webhook.Curl.{MemoryStruct, curl_slist_append, set_options, perform_into}

-- What the transfers need from outside: the text of some bytes, the pieces that a server sends, and the
-- text that `snprintf` leaves in a buffer of some size, given a format and its argument.
pub record Network : Type 0 where
  pub text_of_bytes : List ℕ → String
  pub received : List Call → List (List ℕ)
  pub formatted : ℕ → String → String → String

abbrev pub oauth2_token_url : String
oauth2_token_url = "https://authz.sentrypeer.com/oauth/token"

abbrev pub oauth2_audience : String
oauth2_audience = "https://sentrypeer.com/api"

abbrev pub oauth2_grant_type : String
oauth2_grant_type = "client_credentials"

-- strlen("Authorization: Bearer ") + AUTH0_MAX_BEARER_TOKEN_LEN + 1
abbrev pub bearer_header_len : ℕ
bearer_header_len = 4119

abbrev pub bearer_format : String
bearer_format = "Authorization: Bearer %s"

-- A result code and the list of headers as the caller sees it afterwards.
abbrev pub WithHeaders : Type 0
WithHeaders = Bool × List Str

unfoldable pub free_oauth2_access_token : Config → M Config
unfolding free_if_set
free_oauth2_access_token config = do
  free_if_set config.oauth2_access_token
  pure (record config { oauth2_access_token = none })

module _ {Json : Type 0} (env : Env) (j : Jansson Json) (net : Network) where
  abbrev pub client_credentials : Config → List (String × String)
  client_credentials config =
      ("client_id", net.text_of_bytes (c_string config.oauth2_client_id))
      ∷ ("client_secret", net.text_of_bytes (c_string config.oauth2_client_secret))
      ∷ ("audience", oauth2_audience)
      ∷ ("grant_type", oauth2_grant_type)
      ∷ []

  -- What follows `json_loadb`: the token is copied into the configuration.
  unfoldable pub keep_token : MemoryStruct → Str → Config → Option Json → M (Bool × Config)
  keep_token chunk json_string config none = stop assert_failed
  keep_token chunk json_string config (some json) =
      when (j.has_member "access_token" json)
        (do
          token ← util_duplicate_string (j.string_member "access_token" json)
          free chunk.memory.block
          free json_string.block
          pure (true, record config { oauth2_access_token = some token }))
        (stop assert_failed)

  -- What follows `curl_easy_perform`.
  unfoldable pub read_token : Str → Config → (Bool × MemoryStruct) → M (Bool × Config)
  unfolding keep_token
  read_token json_string config r =
      when r.0
        (keep_token r.1 json_string config
          (j.loads (net.text_of_bytes (take r.1.size r.1.memory.contents))))
        (do free json_string.block; free r.1.memory.block; pure (false, config))

  -- What follows `json_pack`.
  unfoldable pub post_credentials : MemoryStruct → Config → Option Json → M (Bool × Config)
  unfolding read_token
  post_credentials chunk config none = do free chunk.memory.block; pure (false, config)
  post_credentials chunk config (some json) = do
    json_string ← malloc (j.dumps json)
    check (set_options env (curlopt_postfields json_string.contents ∷ []))
        (do free json_string.block; free chunk.memory.block; pure (false, config))
        (perform_into env net.received chunk >>= read_token json_string config)

  unfoldable pub request_oauth2_bearer_token : Config → M (Bool × Config)
  unfolding post_credentials
  request_oauth2_bearer_token config = do
    memory ← malloc {A = List ℕ} []
    check
        (set_options env
          (write_save_json_results ∷ writedata_chunk ∷ curlopt_url oauth2_token_url ∷ []))
        (do free memory.block; pure (false, config))
        (post_credentials (record { memory = memory; size = 0 }) config
          (j.pack (client_credentials config)))

  -- The node is appended to the caller's list. Its text is a copy of a copy; `dup`, the first one, is
  -- not freed.
  unfoldable pub set_oauth2_bearer_token_header : Option Str → List Str → M WithHeaders
  set_oauth2_bearer_token_header none headers = stop bad_read
  set_oauth2_bearer_token_header (some token) headers = do
    header ← malloc (net.formatted bearer_header_len bearer_format token.contents)
    check (call env (snprintf bearer_header_len bearer_format token.contents))
        (do free header.block; pure (false, headers))
        (do
          dup ← util_duplicate_string (some header.contents)
          headers' ← curl_slist_append headers dup.contents
          check (set_options env (curlopt_httpheader (map (λ node. node.contents) headers') ∷ []))
              (do free header.block; pure (false, headers'))
              (do free header.block; pure (true, headers')))

  unfoldable pub get_and_set_oauth2_bearer_token :
      Config → List Str → M (Bool × (Config × List Str))
  unfolding request_oauth2_bearer_token set_oauth2_bearer_token_header
  get_and_set_oauth2_bearer_token config headers = do
    (requested, config') ← request_oauth2_bearer_token config
    when requested
        (do
          (set, headers') ← set_oauth2_bearer_token_header config'.oauth2_access_token headers
          pure (set, (config', headers')))
        (pure (false, (config', headers)))
