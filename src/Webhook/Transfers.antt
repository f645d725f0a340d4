-- ===== src/Webhook/Transfers.antt =====
-- What the transfers do to the heap, and what a server's reply becomes.
use sentry_peer.Base.{ℕ, ◌≡◌, refl, Bool, List, [], ◌∷◌, ◌++◌, arith, String, count, length}
use sentry_peer.World.{World, Env, Stop, Str}
use sentry_peer.World.Calls.{
  Call, CurlOption, curl_easy_setopt, curl_easy_perform, curl_easy_cleanup, curl_global_cleanup,
}
use sentry_peer.World.Ends.{Ends, ended, bind}
use sentry_peer.World.Held.{
  Held, reordered, malloc-Held, free-Held, emit-Held, call-Held, check-Held,
}
use sentry_peer.Webhook.Curl.{
  MemoryStruct, save_json_results, curl_slist_append, curl_slist_free_all, http_cleanup_curl,
  set_options, deliver, perform_into,
}

abbrev pub header_blocks : List Str → List ℕ
header_blocks [] = []
header_blocks (node ∷ headers) = node.block ∷ header_blocks headers

count_appended :
    (a : ℕ) (headers : List Str) (node : Str) (bs : List ℕ)
    → count a (node.block ∷ header_blocks headers ++ bs)
      ≡ count a (header_blocks (headers ++ node ∷ []) ++ bs)
count_appended a [] node bs = refl
count_appended a (first ∷ headers) node bs = omega (arith, count_appended a headers node bs)

module _ {leak : Bool} {S : Stop → Type 0} where
  pub curl_slist_append-Held :
      (headers : List Str) (text : String) {bs : List ℕ} {w : World}
      → Held leak (header_blocks headers ++ bs) w
      → Ends S
          (λ headers' w'. Held leak (header_blocks headers' ++ bs) w')
          (curl_slist_append headers text w)
  unfolding curl_slist_append
  curl_slist_append-Held headers text {bs} h =
      bind (malloc-Held text h)
        λ node w1 h1. ended (reordered h1.0 (λ a. count_appended a headers node bs))

  free_all-Held :
      (headers : List Str) {bs : List ℕ} {w : World}
      → Held leak (header_blocks headers ++ bs) w
      → Ends S (λ _ w'. Held leak bs w') (curl_slist_free_all headers w)
  unfolding curl_slist_free_all
  free_all-Held [] h = ended h
  free_all-Held (node ∷ headers) {bs} h =
      bind (free-Held node.block (header_blocks headers ++ bs) h (λ a. refl))
        λ _ w1 h1. free_all-Held headers h1

  pub http_cleanup_curl-Held :
      (curl : ℕ) (headers : List Str) {bs : List ℕ} {w : World}
      → Held leak (curl ∷ header_blocks headers ++ bs) w
      → Ends S (λ _ w'. Held leak bs w') (http_cleanup_curl curl headers w)
  unfolding http_cleanup_curl
  http_cleanup_curl-Held curl headers {bs} h = bind (emit-Held curl_easy_cleanup h) λ _ w1 h1.
      bind (free-Held curl (header_blocks headers ++ bs) h1 (λ a. refl))
        λ _ w2 h2. bind (free_all-Held headers h2) λ _ w3 h3. emit-Held curl_global_cleanup h3

  pub save_json_results-Held :
      (json : List ℕ) (size nmemb : ℕ) (mem : MemoryStruct) {bs : List ℕ} {w : World}
      → Held leak (mem.memory.block ∷ bs) w
      → Ends S
          (λ r w'. Held leak (r.1.memory.block ∷ bs) w')
          (save_json_results json size nmemb mem w)
  unfolding save_json_results
  save_json_results-Held json size nmemb mem {bs} h = bind (malloc-Held _ h) λ ptr w1 h1.
      bind (free-Held mem.memory.block (ptr.block ∷ bs) h1.0 (λ a. omega arith)) λ _ w2 h2. ended h2

  module _ (env : Env) where
    pub set_options-Held :
        (os : List CurlOption) {bs : List ℕ} {w : World}
        → Held leak bs w
        → Ends S (λ _ w'. Held leak bs w') (set_options env os w)
    unfolding set_options
    set_options-Held [] h = ended h
    set_options-Held (o ∷ os) h =
        check-Held (call-Held (curl_easy_setopt o) h env) (λ w' h'. ended h')
          λ w1 h1. set_options-Held os h1

    deliver-Held :
        (pieces : List (List ℕ)) (mem : MemoryStruct) {bs : List ℕ} {w : World}
        → Held leak (mem.memory.block ∷ bs) w
        → Ends S (λ mem' w'. Held leak (mem'.memory.block ∷ bs) w') (deliver env pieces mem w)
    unfolding deliver
    deliver-Held [] mem h = ended h
    deliver-Held (piece ∷ pieces) mem h =
        bind (save_json_results-Held piece 1 (length piece) mem h)
          λ r w1 h1. deliver-Held pieces r.1 h1

    pub perform_into-Held :
        (received : List Call → List (List ℕ)) (mem : MemoryStruct) {bs : List ℕ} {w : World}
        → Held leak (mem.memory.block ∷ bs) w
        → Ends S (λ r w'. Held leak (r.1.memory.block ∷ bs) w') (perform_into env received mem w)
    unfolding perform_into
    perform_into-Held received mem {w = w} h =
        bind (deliver-Held (received w.trace) mem h)
          λ mem' w1 h1. bind (call-Held curl_easy_perform h1 env) λ ok w2 h2. ended h2
