-- ===== src/Webhook/TokenMemory.antt =====
-- What the handling of the bearer token does to the heap.
use sentry_peer.Base.{
  ℕ, ◌≡◌, refl, ◌≢◌, Bool, true, false, Option, none, some, List, [], ◌∷◌, ◌++◌, arith, String,
  count-append,
}
use sentry_peer.World.{World, Env, Stop, Str, assert_failed, and_then, free, pure}
use sentry_peer.World.Calls.{snprintf, curlopt_postfields}
use sentry_peer.World.Ends.{Ends, ended, halted, bind, mono}
use sentry_peer.World.Held.{
  Held, reordered, swapped, lost, malloc-Held, free-Held, call-Held, check-Held, branch_on,
}
use sentry_peer.Actor.{util_duplicate_string, free_if_set}
use sentry_peer.Actor.Memory.{blocks_of}
use sentry_peer.Conf.Settings.{Config}
use sentry_peer.Json.{Jansson}
use sentry_peer.Webhook.Curl.{MemoryStruct}
use sentry_peer.Webhook.Token.{
  Network, bearer_header_len, bearer_format, free_oauth2_access_token, client_credentials,
  keep_token, read_token, post_credentials, request_oauth2_bearer_token,
  set_oauth2_bearer_token_header, get_and_set_oauth2_bearer_token,
}
use sentry_peer.Webhook.Transfers.{
  header_blocks, curl_slist_append-Held, set_options-Held, perform_into-Held,
}

abbrev pub token_blocks : Config → List ℕ
token_blocks config = blocks_of (config.oauth2_access_token ∷ [])

-- The configuration with its token, beside some blocks. The OAuth2 mode has not changed.
pub record WithToken (leak : Bool) (before : Config) (bs : List ℕ) (config : Config) (w : World)
    : Type 0 where
  pub held : Held leak (token_blocks config ++ bs) w
  pub mode : config.oauth2_mode ≡ before.oauth2_mode

-- A token that was asked for is there.
pub record Requested (leak : Bool) (before : Config) (bs : List ℕ) (r : Bool × Config) (w : World)
    : Type 0 where
  pub token : WithToken leak before bs r.1 w
  pub is_set : r.0 ≡ true → r.1.oauth2_access_token ≢ none

module _ {leak : Bool} {S : Stop → Type 0} where
  free_if_set-Held :
      (p : Option Str) {bs : List ℕ} {w : World}
      → Held leak (blocks_of (p ∷ []) ++ bs) w
      → Ends S (λ _ w'. Held leak bs w') (free_if_set p w)
  unfolding free_if_set
  free_if_set-Held none h = ended h
  free_if_set-Held (some s) {bs} h = free-Held s.block bs h (λ a. refl)

  pub free_oauth2_access_token-WithToken :
      (config : Config) {bs : List ℕ} {w : World}
      → Held leak (token_blocks config ++ bs) w
      → Ends S (WithToken leak config bs) (free_oauth2_access_token config w)
  unfolding free_oauth2_access_token
  free_oauth2_access_token-WithToken config h =
      bind (free_if_set-Held config.oauth2_access_token h)
        λ _ w1 h1. ended (record { held = h1; mode = refl })

no_request :
    {leak : Bool} {config : Config} {bs : List ℕ} {w : World}
    → Held leak (token_blocks config ++ bs) w
    → Requested leak config bs (false, config) w
no_request h = record { token = record { held = h; mode = refl }; is_set = λ e. cc }

module _ {leak : Bool} {S : Stop → Type 0} (may : leak ≡ true) (fails : S assert_failed) where
  duplicate-Held :
      (t : Option String) {bs : List ℕ} {w : World}
      → Held leak bs w
      → Ends S (λ s w'. Held leak (s.block ∷ bs) w') (util_duplicate_string t w)
  unfolding util_duplicate_string
  duplicate-Held none h = halted fails
  duplicate-Held (some t) h = mono (malloc-Held t h) λ s w1 h1. h1.0

  module _ {Json : Type 0} (env : Env) (j : Jansson Json) (net : Network) where
    keep_token-Requested :
        (chunk : MemoryStruct) (json_string : Str) (config : Config) (o : Option Json) {bs : List ℕ}
        {w : World}
        → Held leak (chunk.memory.block ∷ json_string.block ∷ token_blocks config ++ bs) w
        → Ends S (Requested leak config bs) (keep_token env j net chunk json_string config o w)
    unfolding keep_token
    keep_token-Requested chunk json_string config none h = halted fails
    keep_token-Requested chunk json_string config (some json) {bs} h =
        branch_on (j.has_member "access_token" json)
          (λ _. bind (duplicate-Held (j.string_member "access_token" json) h) λ token w1 h1.
            bind
              (free-Held chunk.memory.block
                (token.block ∷ json_string.block ∷ token_blocks config ++ bs) h1 (λ a. omega arith))
              λ _ w2 h2.
                bind
                  (free-Held json_string.block (token.block ∷ token_blocks config ++ bs) h2
                    (λ a. omega arith))
                  λ _ w3 h3. ended (record {
                    token = record {
                      held =
                          lost may h3 (λ a. omega (arith, count-append a (token_blocks config) bs));
                      mode = refl;
                    };
                    is_set = λ _ e. cc;
                  }))
          (λ _. halted fails)

    read_token-Requested :
        (json_string : Str) (config : Config) (r : Bool × MemoryStruct) {bs : List ℕ} {w : World}
        → Held leak (r.1.memory.block ∷ json_string.block ∷ token_blocks config ++ bs) w
        → Ends S (Requested leak config bs) (read_token env j net json_string config r w)
    unfolding read_token
    read_token-Requested json_string config r {bs} h =
        branch_on r.0 (λ _. keep_token-Requested r.1 json_string config _ h)
          (λ _.
            bind
              (free-Held json_string.block (r.1.memory.block ∷ token_blocks config ++ bs) h
                (λ a. omega arith))
              λ _ w1 h1.
                bind (free-Held r.1.memory.block (token_blocks config ++ bs) h1 (λ a. refl))
                  λ _ w2 h2. ended (no_request h2))

    post_credentials-Requested :
        (chunk : MemoryStruct) (config : Config) (o : Option Json) {bs : List ℕ} {w : World}
        → Held leak (chunk.memory.block ∷ token_blocks config ++ bs) w
        → Ends S (Requested leak config bs) (post_credentials env j net chunk config o w)
    unfolding post_credentials
    post_credentials-Requested chunk config none {bs} h =
        bind (free-Held chunk.memory.block (token_blocks config ++ bs) h (λ a. refl))
          λ _ w1 h1. ended (no_request h1)
    post_credentials-Requested chunk config (some json) {bs} h =
        bind (malloc-Held (j.dumps json) h) λ json_string w1 h1.
          check-Held (set_options-Held env (curlopt_postfields json_string.contents ∷ []) h1.0)
            (λ w' h'.
              bind
                (free-Held json_string.block (chunk.memory.block ∷ token_blocks config ++ bs) h'
                  (λ a. refl))
                λ _ w2 h2.
                  bind (free-Held chunk.memory.block (token_blocks config ++ bs) h2 (λ a. refl))
                    λ _ w3 h3. ended (no_request h3))
            λ w2 h2.
              bind (perform_into-Held env net.received chunk (reordered h2 (λ a. omega arith)))
                λ r w3 h3. read_token-Requested json_string config r h3

    request-Requested :
        (config : Config) {bs : List ℕ} {w : World}
        → Held leak (token_blocks config ++ bs) w
        → Ends S (Requested leak config bs) (request_oauth2_bearer_token env j net config w)
    unfolding request_oauth2_bearer_token
    request-Requested config {bs} h = bind (malloc-Held {A = List ℕ} [] h) λ memory w1 h1.
        check-Held (set_options-Held env _ h1.0)
          (λ w' h'.
            bind (free-Held memory.block (token_blocks config ++ bs) h' (λ a. refl))
              λ _ w2 h2. ended (no_request h2))
          λ w2 h2.
            post_credentials-Requested (record { memory = memory; size = 0 }) config
              (j.pack (client_credentials env j net config)) h2

    -- The copy that `curl_slist_append` copies again is lost.
    pub set_header-Held :
        (token : Str) (headers : List Str) {bs : List ℕ} {w : World}
        → Held leak (header_blocks headers ++ bs) w
        → Ends S
            (λ r w'. Held leak (header_blocks r.1 ++ bs) w')
            (set_oauth2_bearer_token_header env j net (some token) headers w)
    unfolding set_oauth2_bearer_token_header
    set_header-Held token headers {bs} h = bind (malloc-Held _ h) λ header w1 h1.
        check-Held (call-Held (snprintf bearer_header_len bearer_format token.contents) h1.0 env)
          (λ w' h'.
            bind (free-Held header.block (header_blocks headers ++ bs) h' (λ a. refl))
              λ _ w2 h2. ended h2)
          λ w2 h2. bind (duplicate-Held (some header.contents) h2) λ dup w3 h3.
            bind
              (curl_slist_append-Held headers dup.contents {bs = header.block ∷ bs} (
                lost may h3 (λ a. omega (
                  arith,
                  count-append a (header_blocks headers) bs,
                  count-append a (header_blocks headers) (header.block ∷ bs),
                ))))
              λ headers' w4 h4.
                check-Held (set_options-Held env _ h4) (λ w' h'. freed header headers' false h')
                  λ w5 h5. freed header headers' true h5
      where
        freed :
            (header : Str) (headers' : List Str) (rc : Bool) {bs' : List ℕ} {v : World}
            → Held leak (header_blocks headers' ++ header.block ∷ bs') v
            → Ends S
                (λ (r : Bool × List Str) w'. Held leak (header_blocks r.1 ++ bs') w')
                (and_then (free header.block v) (λ _. pure (rc, headers')))
        freed header headers' rc {bs'} k =
            bind
              (free-Held header.block (header_blocks headers' ++ bs') k (λ a. omega (
                arith,
                count-append a (header_blocks headers') bs',
                count-append a (header_blocks headers') (header.block ∷ bs'),
              )))
              λ _ w' h'. ended h'

    pub get_and_set-Requested :
        (config : Config) (headers : List Str) {bs : List ℕ} {w : World}
        → Held leak (header_blocks headers ++ (token_blocks config ++ bs)) w
        → Ends S
            (λ r v. WithToken leak config (header_blocks r.1.1 ++ bs) r.1.0 v)
            (get_and_set_oauth2_bearer_token env j net config headers w)
    unfolding get_and_set_oauth2_bearer_token
    get_and_set-Requested config headers {bs} h =
        bind (request-Requested config (swapped (header_blocks headers) (token_blocks config) bs h))
          λ r w1 q.
            branch_on r.0 (λ on. with_header r.1 r.1.oauth2_access_token refl (q.is_set on) q.token)
              (λ _. ended q.token)
      where
        with_header :
            (config' : Config) (token : Option Str) {v : World}
            → config'.oauth2_access_token ≡ token
            → token ≢ none
            → WithToken leak config (header_blocks headers ++ bs) config' v
            → Ends S
                (λ (r : Bool × (Config × List Str)).
                  WithToken leak config (header_blocks r.1.1 ++ bs) r.1.0)
                (and_then
                  (set_oauth2_bearer_token_header env j net token headers v)
                  (λ s. pure (s.0, (config', s.1))))
        with_header config' none e set t = absurd (set refl)
        with_header config' (some token) e set t =
            bind
              (set_header-Held token headers
                (swapped (token_blocks config') (header_blocks headers) bs t.held))
              λ s w2 h2. ended (record {
                held = swapped (header_blocks s.1) (token_blocks config') bs h2;
                mode = t.mode;
              })
