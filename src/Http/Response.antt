-- ===== src/Http/Response.antt =====
-- `finalise_response` of src/http_common.c. MHD_YES is `true`.
use sentry_peer.Base.{ℕ, String, Bool, false, Option, none, some, List, [], ◌∷◌}
use sentry_peer.World.{Env, bad_read, Str, M, free, call, emit, stop, pure, check, ◌>>=◌, ◌>>◌}
use sentry_peer.World.Calls.{
  mhd_create_response, mhd_queue_response, mhd_add_response_header, mhd_destroy_response,
}
use sentry_peer.Json.{Package}

-- The text of a response: a constant, or a pointer that the response frees (MHD_RESPMEM_MUST_FREE).
pub data Reply : Type 0 where
  persistent : String → Reply
  must_free : Option Str → Reply

-- What goes with the response. A response that is queued is taken to be sent, and so freed, at once.
unfoldable pub free_reply : Reply → M (Unit {0})
free_reply (must_free (some s)) = free s.block
free_reply _ = pure tt

module _ (env : Env) (pkg : Package) where
  -- `if (MHD_add_response_header(…) == MHD_NO) { …; return MHD_NO; }` for each header in turn.
  unfoldable pub add_headers : List (String × String) → Reply → Bool → M Bool
  add_headers [] reply queued = do emit mhd_destroy_response; free_reply reply; pure queued
  add_headers ((name, value) ∷ rest) reply queued =
      check (call env (mhd_add_response_header name value))
        (do emit mhd_destroy_response; free_reply reply; pure false) (add_headers rest reply queued)

  abbrev pub headers : String → List (String × String)
  headers content_type =
      ("Content-Type", content_type)
      ∷ ("Access-Control-Allow-Origin", "*")
      ∷ ("X-Powered-By", "SentryPeer")
      ∷ ("X-SentryPeer-Version", pkg.version)
      ∷ []

  -- From the response's creation on.
  unfoldable pub respond : String → Reply → String → ℕ → M Bool
  unfolding add_headers
  respond text reply content_type status_code =
      check (call env (mhd_create_response text)) (pure false) do
        queued ← call env (mhd_queue_response status_code)
        add_headers (headers content_type) reply queued

  -- `strlen` reads a null pointer where the text could not be made.
  unfoldable pub finalise_response : Reply → String → ℕ → M Bool
  unfolding respond
  finalise_response (persistent text) content_type status_code =
      respond text (persistent text) content_type status_code
  finalise_response (must_free none) content_type status_code = stop bad_read
  finalise_response (must_free (some s)) content_type status_code =
      respond s.contents (must_free (some s)) content_type status_code
