-- ===== src/Webhook/Post.antt =====
-- `json_http_post_bad_actor` of src/json_logger.c.
use sentry_peer.Base.{
  ℕ, zero, suc, Bool, true, false, not, ◌&&◌, ◌||◌, ◌==◌, Option, none, some, List, [], ◌∷◌, map,
}
use sentry_peer.World.{
  Env, Str, M, stack_overflow, malloc, free, call, emit, ask_number, pure, stop, check, when, ◌>>=◌,
  ◌>>◌,
}
use sentry_peer.World.Calls.{
  curlopt_useragent, curlopt_url, curlopt_postfields, curlopt_sslversion_tls12, curlopt_timeout,
  curlopt_httpheader, write_ignore_data, writedata_null, curl_global_init, curl_easy_init,
  curl_easy_perform, curl_easy_getinfo_code,
}
use sentry_peer.Actor.{BadActor}
use sentry_peer.Conf.Settings.{Config}
use sentry_peer.Conf.Buffer.{c_string}
use sentry_peer.Json.{Jansson, Package, bad_actor_to_json}
use sentry_peer.Webhook.Curl.{curl_slist_append, http_cleanup_curl, set_options}
use sentry_peer.Webhook.Token.{
  Network, WithHeaders, free_oauth2_access_token, set_oauth2_bearer_token_header,
  get_and_set_oauth2_bearer_token,
}

-- The local variables of a POST under way: the block of the handle, the list of headers, the JSON text.
pub record Posting : Type 0 where
  pub curl : ℕ
  pub headers : List Str
  pub json_string : Str

abbrev pub is_null : Option Str → Bool
is_null none = true
is_null (some _) = false

-- The result and the configuration afterwards.
abbrev pub Posted : Type 0
Posted = Bool × Config

-- `free(json_string); http_cleanup_curl(curl, headers); return …;`
unfoldable pub end_posting : Posting → Bool → Config → M Posted
end_posting p rc config = do
  free p.json_string.block
  http_cleanup_curl p.curl p.headers
  pure (rc, config)

-- The tests on the response code. `retry` is the function's call of itself.
unfoldable pub after_retry : Posting → Posted → M Posted
unfolding end_posting
after_retry p r = when r.0 (end_posting p true r.1) (pure (false, r.1))

unfoldable pub handle_response : (Config → M Posted) → Posting → Config → ℕ → M Posted
unfolding end_posting after_retry
handle_response retry p config code =
    when (not (code == 200) && not (code == 201))
      (when config.oauth2_mode
        (when (code == 401 || code == 403)
          (free_oauth2_access_token config >>= λ config'. retry config' >>= after_retry p)
          (end_posting p false config))
        (end_posting p false config))
      (end_posting p true config)

module _ {Json : Type 0} (env : Env) (j : Jansson Json) (pkg : Package) (net : Network) where
  -- The transfer of the bad actor itself.
  unfoldable pub send_bad_actor : (Config → M Posted) → Posting → Config → M Posted
  unfolding handle_response
  send_bad_actor retry p config =
      check
        (set_options env (
          curlopt_postfields p.json_string.contents
          ∷ curlopt_url (net.text_of_bytes (c_string config.webhook_url))
          ∷ writedata_null
          ∷ write_ignore_data
          ∷ []))
        (end_posting p false config)
        (check (call env curl_easy_perform) (end_posting p false config)
          (ask_number env curl_easy_getinfo_code >>= handle_response retry p config))

  -- The header of a token that is there already, or else the list as it stands.
  unfoldable pub set_headers : Config → List Str → M WithHeaders
  set_headers config headers =
      when config.oauth2_mode
        (when (is_null config.oauth2_access_token)
          (do
            ok ← set_options env (curlopt_httpheader (map (λ node. node.contents) headers) ∷ [])
            pure (ok, headers))
          (set_oauth2_bearer_token_header env j net config.oauth2_access_token headers))
        (pure (true, headers))

  unfoldable pub get_token : Config → List Str → M (Bool × (Config × List Str))
  get_token config headers =
      when (config.oauth2_mode && is_null config.oauth2_access_token)
        (get_and_set_oauth2_bearer_token env j net config headers) (pure (true, (config, headers)))

  -- From the headers on.
  unfoldable pub authorize : (Config → M Posted) → Posting → Config → M Posted
  unfolding set_headers get_token send_bad_actor
  authorize retry p config = do
    (set, headers) ← set_headers config p.headers
    when set
        (do
          (got, (config', headers')) ← get_token config headers
          when got (send_bad_actor retry (record p { headers = headers' }) config')
              (end_posting (record p { headers = headers' }) false config'))
        (end_posting (record p { headers = headers }) false config)

  -- What follows `bad_actor_to_json`.
  unfoldable pub post_json : (Config → M Posted) → Config → ℕ → List Str → Option Str → M Posted
  unfolding authorize
  post_json retry config curl headers none = do http_cleanup_curl curl headers; pure (false, config)
  post_json retry config curl headers (some json_string) =
      let p : Posting = record { curl = curl; headers = headers; json_string = json_string } in
      check
        (set_options env
          (curlopt_useragent "SentryPeer/1.0" ∷ curlopt_sslversion_tls12 ∷ curlopt_timeout 2 ∷ []))
        (end_posting p false config) (authorize retry p config)

  -- One call, up to the response code. `retry` is the call that follows a 401 or 403.
  unfoldable pub post_once : (Config → M Posted) → Config → BadActor → M Posted
  unfolding post_json
  post_once retry config b = do
    emit curl_global_init
    check (call env curl_easy_init) (pure (false, config)) (do
      curl ← malloc {A = Unit {0}} tt
      headers ← curl_slist_append [] "Content-Type: application/json"
      json_string ← bad_actor_to_json env j pkg b
      post_json retry config curl.block headers json_string)

  -- The number is that of the frames that the stack has room for: the function calls itself.
  unfoldable pub json_http_post_bad_actor : ℕ → Config → BadActor → M Posted
  unfolding post_once
  json_http_post_bad_actor zero config b = stop stack_overflow
  json_http_post_bad_actor (suc frames) config b =
      post_once (λ config'. json_http_post_bad_actor frames config' b) config b

  -- The POST as `bad_actor_log` calls it: only the result code is returned.
  unfoldable pub webhook : ℕ → Config → BadActor → M Bool
  webhook frames config b = json_http_post_bad_actor frames config b >>= λ r. pure r.0
