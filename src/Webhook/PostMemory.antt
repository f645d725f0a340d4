-- ===== src/Webhook/PostMemory.antt =====
-- What a POST does to the heap and to the configuration.
use sentry_peer.Base.{
  ℕ, zero, suc, ◌≡◌, refl, true, false, ◌&&◌, Option, none, some, List, [], ◌∷◌, ◌++◌, arith,
  count-append, sym, subst,
}
use sentry_peer.World.{World, Env, Stop, Str, M, assert_failed, stack_overflow}
use sentry_peer.World.Calls.{
  curl_easy_perform, curl_easy_getinfo_code, curl_global_init, curl_easy_init,
}
use sentry_peer.World.Ends.{Ends, ended, halted, bind, mono, branch}
use sentry_peer.World.Held.{
  Held, added, reordered, swapped, malloc-Held, call-Held, ask_number-Held, emit-Held, check-Held,
  branch_on,
}
use sentry_peer.World.Script.{both}
use sentry_peer.Actor.{BadActor}
use sentry_peer.Actor.Memory.{blocks_of}
use sentry_peer.Conf.Settings.{Build, Config}
use sentry_peer.Json.{Jansson, Package}
use sentry_peer.Sip.NoLeak.{bad_actor_to_json-Ends}
use sentry_peer.Webhook.Token.{Network, set_oauth2_bearer_token_header}
use sentry_peer.Webhook.Post.{
  Posting, Posted, is_null, send_bad_actor, set_headers, get_token, authorize, post_json, post_once,
  json_http_post_bad_actor,
}
use sentry_peer.Webhook.Transfers.{
  header_blocks, curl_slist_append-Held, http_cleanup_curl-Held, set_options-Held,
}
use sentry_peer.Webhook.TokenMemory.{token_blocks, set_header-Held, get_and_set-Requested}
use sentry_peer.Webhook.Answered.{
  After, in_use, OnTheWay, unchanged, end_posting-After, handle_response-After,
}

any_build : Build
any_build = record { have_rust = false; have_opendht = false }

module _ {S : Stop → Type 0} (before : Config) (retry : Config → M Posted) (bs : List ℕ)
    (retry-After : before.oauth2_mode ≡ true
      → (config : Config) (cs : List ℕ) (w : World) → config.oauth2_mode ≡ true
      → Held true (token_blocks config ++ cs) w
      → Ends S (After config cs) (retry config w))
    {Json : Type 0} (env : Env) (j : Jansson Json) (pkg : Package) (net : Network) where
  send_bad_actor-After :
      (p : Posting) (config : Config) {w : World}
      → OnTheWay before config
      → Held before.oauth2_mode (in_use p config bs) w
      → Ends S (After before bs) (send_bad_actor env j pkg net retry p config w)
  unfolding send_bad_actor
  send_bad_actor-After p config way h =
      check-Held (set_options-Held env _ h)
        (λ w' h'. end_posting-After before p false config way h')
        λ w1 h1.
          check-Held (call-Held curl_easy_perform h1 env)
            (λ w' h'. end_posting-After before p false config way h')
            λ w2 h2.
              bind (ask_number-Held curl_easy_getinfo_code h2 env)
                λ code w3 h3. handle_response-After before retry bs retry-After p config code way h3

  module _ (fails : before.oauth2_mode ≡ true → S assert_failed) where
    set_headers-Held :
        (headers : List Str) {xs : List ℕ} {w : World}
        → Held before.oauth2_mode (header_blocks headers ++ xs) w
        → Ends S
            (λ r w'. Held before.oauth2_mode (header_blocks r.1 ++ xs) w')
            (set_headers env j pkg net before headers w)
    unfolding set_headers
    set_headers-Held headers {xs} {w} h =
        branch_on before.oauth2_mode
          (λ on.
            branch_on (is_null before.oauth2_access_token)
              (λ _. bind (set_options-Held env _ h) λ ok w1 h1. ended h1)
              (λ set. with_token on before.oauth2_access_token set))
          (λ _. ended h)
      where
        with_token :
            before.oauth2_mode ≡ true
            → (token : Option Str) → is_null token ≡ false
            → Ends S
                (λ r w'. Held before.oauth2_mode (header_blocks r.1 ++ xs) w')
                (set_oauth2_bearer_token_header env j net token headers w)
        with_token on none set = absurd (cc)
        with_token on (some token) set = set_header-Held on (fails on) env j net token headers h

    get_token-OnTheWay :
        (headers : List Str) {xs : List ℕ} {w : World}
        → Held before.oauth2_mode (header_blocks headers ++ (token_blocks before ++ xs)) w
        → Ends S
            (λ r w'.
              OnTheWay before r.1.0
              × Held before.oauth2_mode (header_blocks r.1.1 ++ (token_blocks r.1.0 ++ xs)) w')
            (get_token env j pkg net before headers w)
    unfolding get_token
    get_token-OnTheWay headers {xs} h =
        branch_on (before.oauth2_mode && is_null before.oauth2_access_token)
          (λ both_hold.
            let on = (both before.oauth2_mode both_hold).0 in
            mono (get_and_set-Requested on (fails on) env j net before headers h) λ r w1 t.
              ((
                record { mode = t.mode; same = λ off. absurd (cc) },
                swapped (token_blocks r.1.0) (header_blocks r.1.1) xs t.held,
              )))
          (λ _. ended (unchanged, h))

    authorize-After :
        (p : Posting) {w : World}
        → Held before.oauth2_mode (in_use p before bs) w
        → Ends S (After before bs) (authorize env j pkg net retry p before w)
    unfolding authorize
    authorize-After p h = bind (set_headers-Held p.headers h) λ s w1 h1.
        branch s.0
          (bind (get_token-OnTheWay s.1 h1) λ g w2 held.
            branch g.0 (send_bad_actor-After (record p { headers = g.1.1 }) g.1.0 held.0 held.1)
              (end_posting-After before (record p { headers = g.1.1 }) false g.1.0 held.0 held.1))
          (end_posting-After before (record p { headers = s.1 }) false before unchanged h1)

    post_json-After :
        (curl : ℕ) (headers : List Str) (o : Option Str) {w : World}
        → Held before.oauth2_mode
            (blocks_of (o ∷ []) ++ (header_blocks headers ++ (curl ∷ (token_blocks before ++ bs))))
            w
        → Ends S (After before bs) (post_json env j pkg net retry before curl headers o w)
    unfolding post_json
    post_json-After curl headers none h =
        bind
          (http_cleanup_curl-Held curl headers (
            reordered h (λ a. omega (
              arith,
              count-append a (header_blocks headers) (curl ∷ (token_blocks before ++ bs)),
              count-append a (header_blocks headers) (token_blocks before ++ bs),
            ))))
          λ _ w1 h1. ended (record { token = record { held = h1; mode = refl }; same = λ _. refl })
    post_json-After curl headers (some json_string) h =
        let p : Posting = record { curl = curl; headers = headers; json_string = json_string } in
        let h0 = reordered {cs = in_use p before bs} h (λ a. omega (
          arith,
          count-append a (header_blocks headers) (curl ∷ (token_blocks before ++ bs)),
          count-append a (token_blocks before) bs,
          count-append a (token_blocks before) (json_string.block ∷ curl ∷ bs),
          count-append a (header_blocks headers)
              (token_blocks before ++ (json_string.block ∷ curl ∷ bs)),
        )) in
        check-Held (set_options-Held env _ h0)
          (λ w' h'. end_posting-After before p false before unchanged h')
          λ w1 h1. authorize-After p h1

    pub post_once-After :
        (b : BadActor) {w : World}
        → Held before.oauth2_mode (token_blocks before ++ bs) w
        → Ends S (After before bs) (post_once env j pkg net retry before b w)
    unfolding post_once
    post_once-After b h = bind (emit-Held curl_global_init h) λ _ w1 h1.
        check-Held (call-Held curl_easy_init h1 env)
          (λ w' h'. ended (record { token = record { held = h'; mode = refl }; same = λ _. refl }))
          λ w2 h2. bind (malloc-Held tt h2) λ curl w3 h3.
            bind (curl_slist_append-Held [] _ h3.0) λ headers w4 h4.
              bind (bad_actor_to_json-Ends env j pkg any_build b (record { same = λ a. refl }))
                λ o w5 h5. post_json-After curl.block headers o (added (blocks_of (o ∷ [])) h4 h5)

-- The recursion: with OAuth2, the stack may run out.
module _ {S : Stop → Type 0} {Json : Type 0} (env : Env) (j : Jansson Json) (pkg : Package)
    (net : Network) (b : BadActor) where
  pub post-After :
      (frames : ℕ) (config : Config) (bs : List ℕ) (w : World)
      → (config.oauth2_mode ≡ true → S assert_failed × S stack_overflow)
      → Held config.oauth2_mode (token_blocks config ++ bs) w
      → Ends S (After config bs) (json_http_post_bad_actor env j pkg net (suc frames) config b w)
  unfolding json_http_post_bad_actor
  post-After zero config bs w stops h =
      post_once-After config (λ c. json_http_post_bad_actor env j pkg net zero c b) bs
        (λ on c cs v mode k. halted (stops on).1) env j pkg net (λ on. (stops on).0) b h
  post-After (suc n) config bs w stops h =
      post_once-After config (λ c. json_http_post_bad_actor env j pkg net (suc n) c b) bs
        (λ on c cs v mode k.
          post-After n c cs v (λ _. stops on)
            (subst (λ l. Held l (token_blocks c ++ cs) v) (sym mode) k))
        env j pkg net (λ on. (stops on).0) b h
