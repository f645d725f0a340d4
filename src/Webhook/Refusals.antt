-- ===== src/Webhook/Refusals.antt =====
-- Servers that refuse every event, and what runs that fail no assertion return.
use sentry_peer.Base.{
  ◌⊎◌, inl, inr, remove, if◌then◌else◌, ℕ, ◌≡◌, refl, Bool, true, false, not, ◌&&◌, ◌||◌, ◌==◌,
  String, Option, none, some, List,
}
use sentry_peer.World.{
  World, Env, Stop, assert_failed, bad_free, Block, Str, Run, done, stopped, malloc, free, emit,
}
use sentry_peer.World.Calls.{Call, curl_easy_getinfo_code}
use sentry_peer.World.Ends.{Ends, ended, halted, bind}
use sentry_peer.Actor.{free_if_set}
use sentry_peer.Conf.Settings.{Config}
use sentry_peer.Json.{Jansson, Package, bad_actor_members}
use sentry_peer.Webhook.Curl.{curl_slist_append}
use sentry_peer.Webhook.Token.{Network, client_credentials, free_oauth2_access_token}
use mathlib.Core.List.{flatten}
use sentry_peer.Actor.{BadActor}

-- Every stop but a failed assertion.
abbrev pub NotAsserts : Stop → Type 0
NotAsserts assert_failed = ⊥
NotAsserts _ = Unit {0}

-- What a run that returns, returns.
abbrev pub Gives : {A : Type 0} → (A → Type 0) → Run A → Type 0
Gives P run = Ends NotAsserts (λ a _. P a) run

-- The text that the token's server sends is an object with an access token.
pub record IsToken {Json : Type 0} (j : Jansson Json) (text : String) : Type 0 where
  pub json : Json
  pub token : String
  pub loads : j.loads text ≡ some json
  pub has_token : j.has_member "access_token" json ≡ true
  pub token_text : j.string_member "access_token" json ≡ some token

-- Every call succeeds; the credentials of the configuration, and the bad actor, can be packed; the servers
-- reply with a token to whoever asks, and refuse every event with 401 or 403.
pub record Refuses {Json : Type 0} (env : Env) (j : Jansson Json) (pkg : Package) (net : Network)
    (config : Config) (b : BadActor) : Type 0 where
  pub succeeds : (tr : List Call) (c : Call) → env.succeeds tr c ≡ true
  pub refused :
      (tr : List Call)
      → (env.number tr curl_easy_getinfo_code ≡ 401) ⊎ (env.number tr curl_easy_getinfo_code ≡ 403)
  pub packs_credentials : (json : Json) × (j.pack (client_credentials env j net config) ≡ some json)
  pub packs_event : (json : Json) × (j.pack (bad_actor_members pkg b) ≡ some json)
  pub reply : (tr : List Call) → IsToken j (net.text_of_bytes (flatten (net.received tr)))

pub free-Gives : (b : ℕ) (w : World) → Gives (λ _. Unit {0}) (free b w)
unfolding free
free-Gives b w = removed (remove b w.live)
  where
    removed :
        (r : Option (List ℕ))
        → Gives
            (λ _. Unit {0})
            (elim r [ none ↦ stopped bad_free w | some live ↦ done tt (record w { live = live }) ])
    removed none = halted tt
    removed (some live) = ended tt

pub malloc-Gives :
    {A : Type 0} (a : A) (w : World) → Gives (λ (b : Block A). b.contents ≡ a) (malloc a w)
unfolding malloc
malloc-Gives a w = ended refl

pub emit-Gives : (c : Call) (w : World) → Gives (λ _. Unit {0}) (emit c w)
unfolding emit
emit-Gives c w = ended tt

pub append-Gives :
    (headers : List Str) (text : String) (w : World)
    → Gives (λ _. Unit {0}) (curl_slist_append headers text w)
unfolding curl_slist_append
append-Gives headers text w = bind (malloc-Gives text w) λ node w1 e. ended tt

-- The branch of a test that holds.
pub go :
    {A : Type 0} {P : A → Type 0} (b : Bool) {m k : Run A}
    → (b ≡ false → Gives P k)
    → (b ≡ true → Gives P m)
    → Gives P (if b then m else k)
go true not_this this = this refl
go false not_this this = not_this refl

pub off : {A : Type 0} {P : A → Type 0} {b : Bool} {k : Run A} → b ≡ true → b ≡ false → Gives P k
off e f = absurd (cc)

pub unwanted :
    (code : ℕ) → (code ≡ 401) ⊎ (code ≡ 403) → (not (code == 200) && not (code == 201)) ≡ true
unwanted code (inl e) = rw e refl
unwanted code (inr e) = rw e refl

pub unauthorized : (code : ℕ) → (code ≡ 401) ⊎ (code ≡ 403) → (code == 401 || code == 403) ≡ true
unauthorized code (inl e) = rw e refl
unauthorized code (inr e) = rw e refl

free_if_set-Gives : (t : Option Str) (w : World) → Gives (λ _. Unit {0}) (free_if_set t w)
unfolding free_if_set
free_if_set-Gives none w = ended tt
free_if_set-Gives (some s) w = free-Gives s.block w

pub released-Gives :
    (config : Config) (w : World)
    → Gives
        (λ c. c ≡ record config { oauth2_access_token = none })
        (free_oauth2_access_token config w)
unfolding free_oauth2_access_token
released-Gives config w = bind (free_if_set-Gives config.oauth2_access_token w) λ _ w1 _. ended refl
