-- ===== src/Webhook/Endless.antt =====
-- POSTs that are refused again and again.
use sentry_peer.Base.{
  ◌⊎◌, ℕ, zero, suc, ◌≡◌, refl, ◌∙◌, true, not, ◌&&◌, ◌||◌, ◌==◌, String, Option, none, some, List,
  [], ◌∷◌, ◌++◌, length, ap, sym, subst, take, ◌+◌, ◌*◌, arith, length-append,
}
use sentry_peer.World.{
  World, Env, Stop, assert_failed, bad_free, bad_read, bad_write, exit_with, killed, out_of_fuel,
  stack_overflow, Str, Run, M, call, ask_number,
}
use sentry_peer.World.Calls.{Call, CurlOption, curl_easy_getinfo_code}
use sentry_peer.World.Ends.{Ends, ended, halted, Holding, bind, mono, branch}
use sentry_peer.Actor.{BadActor, util_duplicate_string}
use sentry_peer.Conf.Settings.{Config}
use sentry_peer.Json.{Jansson, Package, bad_actor_to_json, dump_json, bad_actor_members}
use sentry_peer.Webhook.Curl.{MemoryStruct, save_json_results, set_options, deliver, perform_into}
use sentry_peer.Webhook.Token.{
  Network, request_oauth2_bearer_token, post_credentials, read_token, keep_token,
  client_credentials, set_oauth2_bearer_token_header, get_and_set_oauth2_bearer_token,
}
use sentry_peer.Webhook.Post.{
  Posting, Posted, is_null, handle_response, send_bad_actor, set_headers, get_token, authorize,
  post_json, post_once, json_http_post_bad_actor,
}
use sentry_peer.Webhook.TokenMemory.{token_blocks}
use sentry_peer.Webhook.Posted.{Exhausts, json_http_post_bad_actor-After}
use mathlib.Core.List.{append-nil, append_assoc, flatten}
use sentry_peer.Webhook.Chunk.{IsChunk, read_back}
use sentry_peer.Webhook.Refusals.{
  IsToken, Gives, NotAsserts, Refuses, append-Gives, emit-Gives, free-Gives, go, malloc-Gives, off,
  released-Gives, unauthorized, unwanted,
}

-- The stack is full.
abbrev pub Overflows : Stop → Type 0
Overflows s = s ≡ stack_overflow

Overflows-only : (s : Stop) → Exhausts s → NotAsserts s → Overflows s
Overflows-only stack_overflow p q = refl
Overflows-only assert_failed p q = absurd q
Overflows-only bad_free p q = absurd p
Overflows-only bad_read p q = absurd p
Overflows-only bad_write p q = absurd p
Overflows-only out_of_fuel p q = absurd p
Overflows-only (exit_with code) p q = absurd p
Overflows-only killed p q = absurd p

overflows :
    {A : Type 0} {P : A → World → Type 0} {run : Run A}
    → Ends Exhausts P run
    → Gives (λ _. ⊥) run
    → Ends Overflows (λ _ _. ⊥) run
overflows (ended p) (ended q) = absurd q
overflows (halted {s = s} p) (halted q) = halted (Overflows-only s p q)

module _ {Json : Type 0} (env : Env) (j : Jansson Json) (pkg : Package) (net : Network)
    (login : Config) (b : BadActor) (r : Refuses env j pkg net login b) where
  -- What a POST leaves of the configuration.
  abbrev SameLogin : Config → Type 0
  SameLogin c =
      (c.oauth2_mode ≡ login.oauth2_mode)
      × (client_credentials env j net c ≡ client_credentials env j net login)

  call-Gives : (c : Call) (w : World) → Gives (λ b. b ≡ true) (call env c w)
  unfolding call
  call-Gives c w = ended (r.succeeds w.trace c)

  set_options-Gives :
      (os : List CurlOption) (w : World) → Gives (λ b. b ≡ true) (set_options env os w)
  unfolding set_options
  set_options-Gives [] w = ended refl
  set_options-Gives (o ∷ os) w =
      bind (call-Gives _ w) λ ok w1 e. go ok (off e) λ _. set_options-Gives os w1

  save-Gives :
      (json : List ℕ) (mem : MemoryStruct) {bytes : List ℕ} (w : World)
      → IsChunk bytes mem
      → Gives (λ p. IsChunk (bytes ++ json) p.1) (save_json_results json 1 (length json) mem w)
  unfolding save_json_results
  save-Gives json mem {bytes} w c = bind (malloc-Gives _ w) λ ptr w1 e.
      bind (free-Gives mem.memory.block w1) λ _ w2 _. ended (record {
        size_is = omega (arith, c.size_is, length-append bytes json);
        holds = ap (λ l. take (mem.size + 1 * length json) l) e ∙ read_back json mem c;
      })

  deliver-Gives :
      (pieces : List (List ℕ)) (mem : MemoryStruct) {bytes : List ℕ} (w : World)
      → IsChunk bytes mem
      → Gives (λ mem'. IsChunk (bytes ++ flatten pieces) mem') (deliver env pieces mem w)
  unfolding deliver flatten
  deliver-Gives [] mem {bytes} w c = ended (subst (λ l. IsChunk l mem) (sym (append-nil bytes)) c)
  deliver-Gives (piece ∷ pieces) mem {bytes} w c = bind (save-Gives piece mem w c) λ p w1 saved.
      mono (deliver-Gives pieces p.1 w1 saved)
        λ mem' w2 k. subst (λ l. IsChunk l mem') (append_assoc bytes piece (flatten pieces)) k

  perform_into-Gives :
      (mem : MemoryStruct) (w : World)
      → IsChunk [] mem
      → Gives
          (λ p. (p.0 ≡ true) × ((tr : List Call) × IsChunk (flatten (net.received tr)) p.1))
          (perform_into env net.received mem w)
  unfolding perform_into
  perform_into-Gives mem w c =
      bind (deliver-Gives (net.received w.trace) mem w c)
        λ mem' w1 k. bind (call-Gives _ w1) λ ok w2 e. ended (e, (w.trace, k))

  keep_token-Gives :
      (chunk : MemoryStruct) (s : Str) (config : Config) (text : String) (w : World)
      → IsToken j text
      → SameLogin config
      → Gives
          (λ p. (p.0 ≡ true) × SameLogin p.1)
          (keep_token env j net chunk s config (j.loads text) w)
  unfolding keep_token util_duplicate_string
  keep_token-Gives chunk s config text w t same =
      rw (t.loads, t.has_token, t.token_text)
        (bind (malloc-Gives t.token w) λ token w1 _.
          bind (free-Gives chunk.memory.block w1)
            λ _ w2 _. bind (free-Gives s.block w2) λ _ w3 _. ended (refl, same))

  post_credentials-Gives :
      (chunk : MemoryStruct) (config : Config) (o : Option Json) (w : World)
      → IsChunk [] chunk
      → SameLogin config
      → ((json : Json) × (o ≡ some json))
      → Gives (λ p. (p.0 ≡ true) × SameLogin p.1) (post_credentials env j net chunk config o w)
  unfolding post_credentials read_token
  post_credentials-Gives chunk config none w c same (json, e) = absurd (cc)
  post_credentials-Gives chunk config (some json) w c same _ =
      bind (malloc-Gives (j.dumps json) w) λ s w1 _. bind (set_options-Gives _ w1) λ ok w2 e.
        go ok (off e) λ _. bind (perform_into-Gives chunk w2 c) λ p w3 sent.
          go p.0 (off sent.0) λ _.
            keep_token-Gives p.1 s config _ w3
              (subst (λ l. IsToken j (net.text_of_bytes l)) (sym sent.1.1.holds) (r.reply sent.1.0))
              same

  request-Gives :
      (config : Config) (w : World)
      → SameLogin config
      → Gives (λ p. (p.0 ≡ true) × SameLogin p.1) (request_oauth2_bearer_token env j net config w)
  unfolding request_oauth2_bearer_token
  request-Gives config w same = bind (malloc-Gives {A = List ℕ} [] w) λ memory w1 e0.
      bind (set_options-Gives _ w1) λ ok w2 e. go ok (off e) λ _.
        post_credentials-Gives (record { memory = memory; size = 0 }) config _ w2
          (record { size_is = refl; holds = refl }) same
          (r.packs_credentials.0, ap j.pack same.1 ∙ r.packs_credentials.1)

  -- The header of a token that is set. Reading through a null pointer is a stop too.
  set_header-Gives :
      (token : Option Str) (headers : List Str) (w : World)
      → Gives (λ p. p.0 ≡ true) (set_oauth2_bearer_token_header env j net token headers w)
  unfolding set_oauth2_bearer_token_header util_duplicate_string
  set_header-Gives none headers w = halted tt
  set_header-Gives (some token) headers w = bind (malloc-Gives _ w) λ header w1 _.
      bind (call-Gives _ w1) λ ok w2 e. go ok (off e) λ _.
        bind (malloc-Gives header.contents w2) λ dup w3 _.
          bind (append-Gives headers dup.contents w3) λ headers' w4 _.
            bind (set_options-Gives _ w4)
              λ ok w5 e. go ok (off e) λ _. bind (free-Gives header.block w5) λ _ w6 _. ended refl

  set_headers-Gives :
      (config : Config) (headers : List Str) (w : World)
      → Gives (λ p. p.0 ≡ true) (set_headers env j pkg net config headers w)
  unfolding set_headers
  set_headers-Gives config headers w =
      branch config.oauth2_mode
        (branch (is_null config.oauth2_access_token)
          (bind (set_options-Gives _ w) λ ok w1 e. ended e)
          (set_header-Gives config.oauth2_access_token headers w))
        (ended refl)

  get_token-Gives :
      (config : Config) (headers : List Str) (w : World)
      → SameLogin config
      → Gives (λ p. (p.0 ≡ true) × SameLogin p.1.0) (get_token env j pkg net config headers w)
  unfolding get_token get_and_set_oauth2_bearer_token
  get_token-Gives config headers w same =
      branch (config.oauth2_mode && is_null config.oauth2_access_token)
        (bind (request-Gives config w same) λ p w1 e. go p.0 (off e.0) (λ _.
          bind (set_header-Gives p.1.oauth2_access_token headers w1) λ s w2 set. ended (set, e.1)))
        (ended (refl, same))

  asked-Gives :
      (w : World) → Gives (λ n. (n ≡ 401) ⊎ (n ≡ 403)) (ask_number env curl_easy_getinfo_code w)
  unfolding ask_number
  asked-Gives w = ended (r.refused w.trace)

  freed_login :
      (config c : Config)
      → c ≡ record config { oauth2_access_token = none }
      → SameLogin config
      → SameLogin c
  freed_login config c e same =
      (ap (λ x. x.oauth2_mode) e ∙ same.0, ap (λ x. client_credentials env j net x) e ∙ same.1)

  -- The frames that are left make no difference: the function never returns.
  module _ (retry : Config → M Posted) (on : login.oauth2_mode ≡ true)
      (never : (c : Config) (w : World) → SameLogin c → Gives (λ _. ⊥) (retry c w)) where
    handle_response-Gives :
        (p : Posting) (config : Config) (code : ℕ) (w : World)
        → SameLogin config
        → (code ≡ 401) ⊎ (code ≡ 403)
        → Gives (λ _. ⊥) (handle_response retry p config code w)
    unfolding handle_response
    handle_response-Gives p config code w same refused =
        go (not (code == 200) && not (code == 201)) (off (unwanted code refused)) (λ _.
          go config.oauth2_mode (off (same.0 ∙ on)) (λ _.
            go (code == 401 || code == 403) (off (unauthorized code refused)) (λ _.
              bind (released-Gives config w) λ config' w1 e.
                bind (never config' w1 (freed_login config config' e same)) λ _ w2 f. absurd f)))

    post_once-Gives :
        (config : Config) (w : World)
        → SameLogin config
        → Gives (λ _. ⊥) (post_once env j pkg net retry config b w)
    unfolding post_once post_json authorize send_bad_actor bad_actor_to_json
    post_once-Gives config w same = bind (emit-Gives _ w) λ _ w1 _.
        bind (call-Gives _ w1) λ ok w2 e. go ok (off e) λ _. bind (malloc-Gives tt w2) λ curl w3 _.
          bind (append-Gives [] _ w3) λ headers w4 _.
            bind (packed (j.pack (bad_actor_members pkg b)) r.packs_event w4)
              λ o w5 s. posting curl.block headers o s w5
      where
        packed :
            (o : Option Json)
            → ((json : Json) × (o ≡ some json))
            → (v : World) → Gives (λ t. (s : Str) × (t ≡ some s)) (dump_json env j pkg o v)
        packed none (json, e) v = absurd (cc)
        packed (some json) _ v = bind (malloc-Gives (j.dumps json) v) λ s w' _. ended (s, refl)

        posting :
            (curl : ℕ) (headers : List Str) (o : Option Str)
            → ((s : Str) × (o ≡ some s))
            → (v : World) → Gives (λ _. ⊥) (post_json env j pkg net retry config curl headers o v)
        posting curl headers none (s, e) v = absurd (cc)
        posting curl headers (some text) _ v = bind (set_options-Gives _ v) λ ok w1 e.
            go ok (off e) λ _. bind (set_headers-Gives config headers w1) λ s w2 e.
              go s.0 (off e) (λ _. bind (get_token-Gives config s.1 w2 same) λ g w3 k.
                go g.0 (off k.0) (λ _. bind (set_options-Gives _ w3) λ ok w4 e. go ok (off e) λ _.
                  bind (call-Gives _ w4) λ ok w5 e. go ok (off e) λ _.
                    bind (asked-Gives w5) λ code w6 refused.
                      handle_response-Gives
                        (record { curl = curl; headers = g.1.1; json_string = text }) g.1.0 code w6
                        k.1 refused))

  never_returns :
      (frames : ℕ) (config : Config) (w : World)
      → login.oauth2_mode ≡ true
      → SameLogin config
      → Gives (λ _. ⊥) (json_http_post_bad_actor env j pkg net frames config b w)
  unfolding json_http_post_bad_actor
  never_returns zero config w on same = halted tt
  never_returns (suc frames) config w on same =
      post_once-Gives (λ c. json_http_post_bad_actor env j pkg net frames c b) on
        (λ c v k. never_returns frames c v on k) config w same

-- If every call succeeds, the configuration's credentials and the bad actor can be packed as JSON, each
-- reply of the servers is a JSON object with an access token, every event is refused with 401 or 403, and
-- OAuth2 is on, then a POST never returns: however many frames the stack has room for, the function calls
-- itself until there is no room left.
pub json_http_post_bad_actor-unending :
    {Json : Type 0} (env : Env) (j : Jansson Json) (pkg : Package) (net : Network) (frames : ℕ)
    (config : Config) (b : BadActor) (bs : List ℕ) (w : World)
    → Refuses env j pkg net config b
    → config.oauth2_mode ≡ true
    → Holding (token_blocks config ++ bs) w
    → Ends Overflows (λ _ _. ⊥) (json_http_post_bad_actor env j pkg net (suc frames) config b w)
json_http_post_bad_actor-unending env j pkg net frames config b bs w r on h =
    overflows (json_http_post_bad_actor-After env j pkg net frames config b bs w h)
      (never_returns env j pkg net config b r (suc frames) config w on (refl, refl))
