-- ===== src/Webhook/Curl.antt =====
-- The program's side of libcurl, src/json_logger.c: the options, the list of headers, the end of a
-- transfer, and the functions that are given what the server sends. A handle and each node of a list
-- of headers are blocks, as libcurl documents who frees them.
use sentry_peer.Base.{ℕ, ◌+◌, ◌*◌, String, Bool, true, false, List, [], ◌∷◌, ◌++◌, take, length}
use sentry_peer.World.{
  Env, Block, Str, M, and_then, malloc, free, call, emit, pure, check, ◌>>=◌, ◌>>◌,
}
use sentry_peer.World.Calls.{
  Call, CurlOption, curl_easy_setopt, curl_easy_perform, curl_easy_cleanup, curl_global_cleanup,
}

-- `struct memory_struct`: the block, and the bytes in it before its NUL.
pub record MemoryStruct : Type 0 where
  pub memory : Block (List ℕ)
  pub size : ℕ

-- `realloc` moves the block. The result is the number of bytes that were taken.
unfoldable pub save_json_results : List ℕ → ℕ → ℕ → MemoryStruct → M (ℕ × MemoryStruct)
save_json_results json size nmemb mem = do
  ptr ← malloc (take mem.size mem.memory.contents ++ take (size * nmemb) json ++ 0 ∷ [])
  free mem.memory.block
  pure (size * nmemb, record { memory = ptr; size = mem.size + size * nmemb })

unfoldable pub ignore_data : List ℕ → ℕ → ℕ → ℕ
ignore_data buffer size nmemb = size * nmemb

-- `curl_slist_append` makes a node with a copy of the text.
unfoldable pub curl_slist_append : List Str → String → M (List Str)
curl_slist_append headers text = do node ← malloc text; pure (headers ++ node ∷ [])

unfoldable pub curl_slist_free_all : List Str → M (Unit {0})
curl_slist_free_all [] = pure tt
curl_slist_free_all (node ∷ headers) = do free node.block; curl_slist_free_all headers

unfoldable pub http_cleanup_curl : ℕ → List Str → M (Unit {0})
unfolding curl_slist_free_all
http_cleanup_curl curl headers = do
  emit curl_easy_cleanup
  free curl
  curl_slist_free_all headers
  emit curl_global_cleanup

module _ (env : Env) where
  -- Options set one after another. Every caller handles each failure in the same way.
  unfoldable pub set_options : List CurlOption → M Bool
  set_options [] = pure true
  set_options (o ∷ os) = check (call env (curl_easy_setopt o)) (pure false) (set_options os)

  -- As libcurl documents: what the server sends comes in pieces, each given to the program's function,
  -- here `save_json_results`, as bytes of size 1.
  unfoldable pub deliver : List (List ℕ) → MemoryStruct → M MemoryStruct
  deliver [] mem = pure mem
  deliver (piece ∷ pieces) mem = do
    (taken, mem') ← save_json_results piece 1 (length piece) mem
    deliver pieces mem'

  -- A transfer whose reply is saved.
  module _ (received : List Call → List (List ℕ)) where
    unfoldable pub perform_into : MemoryStruct → M (Bool × MemoryStruct)
    unfolding deliver
    perform_into mem w =
        and_then (deliver (received w.trace) mem w)
          λ mem'. call env curl_easy_perform >>= λ ok. pure (ok, mem')
