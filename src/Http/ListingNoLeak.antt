-- ===== src/Http/ListingNoLeak.antt =====
-- The heap over the routes that list, `ip_addresses_route` and `called_numbers_route`.
use sentry_peer.Base.{ℕ, refl, Option, none, some, List, ◌∷◌, ◌++◌, arith, count-append, length}
use sentry_peer.World.{World, Env}
use sentry_peer.World.Ends.{Ends, Holding, bind, malloc-Ends, free-Ends}
use sentry_peer.Actor.{BadActor}
use sentry_peer.Actor.Memory.{owned_all, bad_actors_destroy-Holding}
use sentry_peer.Json.{Jansson, Package}
use sentry_peer.Http.Response.{persistent, must_free}
use sentry_peer.Http.Lookup.{content_type_json}
use sentry_peer.Http.Listing.{Kind, answer_rows}
use sentry_peer.Http.NoLeak.{NoBadFree, CreatesAll, finalise_response-Holding}

-- The blocks of before, and those that a failed select has lost.
abbrev pub KeepsAll : List ℕ → World → Type 0
KeepsAll bs w = (leaked : List ℕ) × Holding (leaked ++ bs) w

module _ {Json : Type 0} (j : Jansson Json) (env : Env) (pkg : Package)
    (creates : CreatesAll env) where
  -- If libmicrohttpd creates every response: from a heap that holds the array, what the rows own, and
  -- other blocks, the answer to a list frees no block that is not allocated, whether the JSON array was
  -- filled or not, and when it returns the other blocks are left.
  pub answer_rows-Holding :
      (kind : Kind) (array : ℕ) (rows : List BadActor) (objects : Option (List Json)) {bs : List ℕ}
      (w : World)
      → Holding (array ∷ (owned_all rows ++ bs)) w
      → Ends NoBadFree (λ _ w'. Holding bs w') (answer_rows j env pkg kind array rows objects w)
  unfolding answer_rows
  answer_rows-Holding kind array rows none {bs} w h =
      bind
        (bad_actors_destroy-Holding rows (array ∷ bs) (λ _. tt) h
          λ a. omega (arith, count-append a (owned_all rows) bs))
        λ _ w1 h1. bind (free-Ends array bs h1 (λ a. refl)) λ _ w2 h2.
          finalise_response-Holding env pkg creates (persistent kind.not_found) content_type_json
            404 h2
  answer_rows-Holding kind array rows (some objects) {bs} w h =
      bind
        (malloc-Ends (j.dumps_indented (j.pack_list kind.total (length rows) kind.list objects)) h)
        λ reply w1 (h1, _).
          bind
            (bad_actors_destroy-Holding rows (array ∷ reply.block ∷ bs) (λ _. tt) h1
              λ a. omega (arith, count-append a (owned_all rows) bs))
            λ _ w2 h2. bind (free-Ends array (reply.block ∷ bs) h2 (λ a. refl)) λ _ w3 h3.
              finalise_response-Holding env pkg creates (must_free (some reply)) content_type_json
                200 h3
