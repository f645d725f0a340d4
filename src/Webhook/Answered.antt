-- ===== src/Webhook/Answered.antt =====
-- The heap and the configuration from the response code of a POST on.
use sentry_peer.Base.{
  ℕ, ◌≡◌, refl, ◌∙◌, Bool, true, false, not, ◌&&◌, ◌||◌, ◌==◌, List, ◌∷◌, ◌++◌, arith, count-append,
  sym, subst,
}
use sentry_peer.World.{World, Stop, M, and_then}
use sentry_peer.World.Ends.{Ends, ended, bind, branch}
use sentry_peer.World.Held.{Held, swapped, lost, free-Held, branch_on}
use sentry_peer.Conf.Settings.{Config}
use sentry_peer.Webhook.Token.{free_oauth2_access_token}
use sentry_peer.Webhook.Post.{Posting, Posted, end_posting, after_retry, handle_response}
use sentry_peer.Webhook.Transfers.{header_blocks, http_cleanup_curl-Held}
use sentry_peer.Webhook.TokenMemory.{token_blocks, WithToken, free_oauth2_access_token-WithToken}

-- Afterwards the heap holds the token that the configuration has, and the blocks of before. Without
-- OAuth2 that is all it holds, and the configuration is as it was.
pub record After (before : Config) (bs : List ℕ) (r : Posted) (w : World) : Type 0 where
  pub token : WithToken before.oauth2_mode before bs r.1 w
  pub same : before.oauth2_mode ≡ false → r.1 ≡ before

-- What is allocated while a POST is under way.
abbrev pub in_use : Posting → Config → List ℕ → List ℕ
in_use p config bs =
    header_blocks p.headers ++ (token_blocks config ++ (p.json_string.block ∷ p.curl ∷ bs))

-- A configuration on the way: what may be lost does not change.
pub record OnTheWay (before config : Config) : Type 0 where
  pub mode : config.oauth2_mode ≡ before.oauth2_mode
  pub same : before.oauth2_mode ≡ false → config ≡ before

pub unchanged : {config : Config} → OnTheWay config config
unchanged = record { mode = refl; same = λ _. refl }

module _ {S : Stop → Type 0} (before : Config) where
  pub end_posting-After :
      (p : Posting) (rc : Bool) (config : Config) {bs : List ℕ} {w : World}
      → OnTheWay before config
      → Held before.oauth2_mode (in_use p config bs) w
      → Ends S (After before bs) (end_posting p rc config w)
  unfolding end_posting
  end_posting-After p rc config {bs} way h =
      bind
        (free-Held p.json_string.block
          (p.curl ∷ header_blocks p.headers ++ (token_blocks config ++ bs)) h
          (λ a. omega (
            arith,
            count-append a (header_blocks p.headers)
                (token_blocks config ++ (p.json_string.block ∷ p.curl ∷ bs)),
            count-append a (token_blocks config) (p.json_string.block ∷ p.curl ∷ bs),
            count-append a (header_blocks p.headers) (token_blocks config ++ bs),
            count-append a (token_blocks config) bs,
          )))
        λ _ w1 h1. bind (http_cleanup_curl-Held p.curl p.headers h1) λ _ w2 h2.
          ended (record { token = record { held = h2; mode = way.mode }; same = way.same })

  after_retry-After :
      (p : Posting) (r : Posted) {bs : List ℕ} {w : World}
      → before.oauth2_mode ≡ true
      → r.1.oauth2_mode ≡ true
      → Held before.oauth2_mode
          (token_blocks r.1 ++ (header_blocks p.headers ++ (p.json_string.block ∷ p.curl ∷ bs)))
          w
      → Ends S (After before bs) (after_retry p r w)
  unfolding after_retry
  after_retry-After p r {bs} {w} may mode h =
      branch r.0
        (end_posting-After p true r.1 way (
          swapped (token_blocks r.1) (header_blocks p.headers) (p.json_string.block ∷ p.curl ∷ bs)
            h))
        (ended (record {
          token = record {
            held = lost may h (λ a. omega (
              arith,
              count-append a (token_blocks r.1) bs,
              count-append a (token_blocks r.1)
                  (header_blocks p.headers ++ (p.json_string.block ∷ p.curl ∷ bs)),
              count-append a (header_blocks p.headers) (p.json_string.block ∷ p.curl ∷ bs),
            ));
            mode = way.mode;
          };
          same = way.same;
        }))
    where
      way : OnTheWay before r.1
      way = record { mode = mode ∙ sym may; same = λ e. absurd (cc) }

  module _ (retry : Config → M Posted) (bs : List ℕ)
      (retry-After : before.oauth2_mode ≡ true
        → (config : Config) (cs : List ℕ) (w : World) → config.oauth2_mode ≡ true
        → Held true (token_blocks config ++ cs) w
        → Ends S (After config cs) (retry config w)) where
    refused-After :
        (p : Posting) (config : Config) {w : World}
        → before.oauth2_mode ≡ true
        → config.oauth2_mode ≡ true
        → Held before.oauth2_mode (in_use p config bs) w
        → Ends S (After before bs) (
            and_then
              (free_oauth2_access_token config w)
              λ config' w'. and_then (retry config' w') (after_retry p))
    refused-After p config may mode h =
        let rest = p.json_string.block ∷ p.curl ∷ bs in
        bind
          (free_oauth2_access_token-WithToken config
            (swapped (header_blocks p.headers) (token_blocks config) rest h))
          λ config' w1 t1.
            bind
              (retry-After may config' (header_blocks p.headers ++ rest) w1 (t1.mode ∙ mode) (
                subst (λ l. Held l (token_blocks config' ++ (header_blocks p.headers ++ rest)) w1)
                  may t1.held))
              λ r w2 after. after_retry-After p r may (after.token.mode ∙ (t1.mode ∙ mode)) (
                subst (λ l. Held l (token_blocks r.1 ++ (header_blocks p.headers ++ rest)) w2)
                  (t1.mode ∙ mode ∙ sym may) after.token.held)

    pub handle_response-After :
        (p : Posting) (config : Config) (code : ℕ) {w : World}
        → OnTheWay before config
        → Held before.oauth2_mode (in_use p config bs) w
        → Ends S (After before bs) (handle_response retry p config code w)
    unfolding handle_response
    handle_response-After p config code way h =
        branch (not (code == 200) && not (code == 201))
          (branch_on config.oauth2_mode
            (λ on.
              branch (code == 401 || code == 403) (refused-After p config (sym way.mode ∙ on) on h)
                (end_posting-After p false config way h))
            (λ _. end_posting-After p false config way h))
          (end_posting-After p true config way h)
