-- ===== src/Webhook/Posted.antt =====
-- What a POST guarantees: about the heap and the token, without OAuth2, and within `sip_log_event`.
use sentry_peer.Base.{ap, ◌∙◌, ℕ, suc, ◌≡◌, false, none, List, [], ◌∷◌, ◌++◌, subst, sym}
use sentry_peer.World.{World, Env, Stop, assert_failed, stack_overflow}
use sentry_peer.World.Ends.{Ends, Holding, Never, mono}
use sentry_peer.World.Held.{Held, Held-Holding, Holding-Held}
use sentry_peer.Actor.{BadActor}
use sentry_peer.Actor.Memory.{blocks_of}
use sentry_peer.Conf.Settings.{Config}
use sentry_peer.Json.{Jansson, Package}
use sentry_peer.Webhook.Token.{Network}
use sentry_peer.Webhook.Post.{json_http_post_bad_actor}
use sentry_peer.Webhook.TokenMemory.{token_blocks}
use sentry_peer.Webhook.Answered.{After}
use sentry_peer.Webhook.PostMemory.{post-After}

-- A failed assertion, or a stack without room for one more call.
abbrev pub Exhausts : Stop → Type 0
Exhausts assert_failed = Unit {0}
Exhausts stack_overflow = Unit {0}
Exhausts _ = ⊥

module _ {Json : Type 0} (env : Env) (j : Jansson Json) (pkg : Package) (net : Network) where
  -- For any configuration, with OAuth2 or without, and whatever the servers answer: from a heap that
  -- holds the configuration's token, if it has one, and other blocks, a POST frees no block that is not
  -- allocated and reads no token through a null pointer; it stops at most by a failed assertion or for
  -- want of stack. Where it returns, the token that the configuration then has is allocated, and so are
  -- the other blocks; without OAuth2 no others are, and the configuration is as it was.
  pub json_http_post_bad_actor-After :
      (frames : ℕ) (config : Config) (b : BadActor) (bs : List ℕ) (w : World)
      → Holding (token_blocks config ++ bs) w
      → Ends Exhausts
          (After config bs)
          (json_http_post_bad_actor env j pkg net (suc frames) config b w)
  json_http_post_bad_actor-After frames config b bs w h =
      post-After env j pkg net b frames config bs w (λ _. (tt, tt)) (Holding-Held h)

  -- Without OAuth2 and without a token, one frame is enough: whatever the servers answer, a POST
  -- returns, and the configuration and the allocated blocks are as they were.
  pub json_http_post_bad_actor-plain :
      (frames : ℕ) (config : Config) (b : BadActor) {bs : List ℕ} (w : World)
      → config.oauth2_mode ≡ false
      → config.oauth2_access_token ≡ none
      → Holding bs w
      → Ends Never
          (λ r w'. (r.1 ≡ config) × Holding bs w')
          (json_http_post_bad_actor env j pkg net (suc frames) config b w)
  json_http_post_bad_actor-plain frames config b {bs} w off null h =
      mono
        (post-After {S = Never} env j pkg net b frames config bs w (λ on. absurd (cc))
          (Holding-Held (subst (λ t. Holding (blocks_of (t ∷ []) ++ bs) w) (sym null) h)))
        λ r w' after. (
          after.same off,
          Held-Holding off (
              subst (λ t. Held config.oauth2_mode (blocks_of (t ∷ []) ++ bs) w')
                (ap (λ c. c.oauth2_access_token) (after.same off) ∙ null) after.token.held),
        )
