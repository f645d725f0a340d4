-- ===== src/Webhook/Chunk.antt =====
-- What a server sends in pieces, and what is read of it.
use sentry_peer.Base.{
  ℕ, ◌+◌, ◌*◌, ◌≡◌, refl, ap, sym, ◌∙◌, subst, List, [], ◌∷◌, ◌++◌, arith, length, take,
  length-append,
}
use mathlib.Core.List.{append-nil, append_assoc, flatten}
use sentry_peer.World.{World, Env}
use sentry_peer.World.Ends.{
  Ends, ended, Holding, Never, bind, mono, malloc-Ends, free-Ends, call-Ends,
}
use sentry_peer.World.Calls.{Call, curl_easy_perform}
use sentry_peer.Webhook.Curl.{MemoryStruct, save_json_results, deliver, perform_into}

-- The block holds these bytes.
pub record IsChunk (bytes : List ℕ) (mem : MemoryStruct) : Type 0 where
  pub size_is : mem.size ≡ length bytes
  pub holds : take mem.size mem.memory.contents ≡ bytes

take-length : {A : Type 0} (xs ys : List A) → take (length xs) (xs ++ ys) ≡ xs
take-length [] ys = refl
take-length (x ∷ xs) ys = ap (λ zs. x ∷ zs) (take-length xs ys)

take_all : {A : Type 0} (xs : List A) → take (length xs) xs ≡ xs
take_all [] = refl
take_all (x ∷ xs) = ap (λ zs. x ∷ zs) (take_all xs)

module _ (json : List ℕ) (mem : MemoryStruct) {bytes : List ℕ} (c : IsChunk bytes mem) where
  pub read_back :
      take
        (mem.size + 1 * length json)
        (take mem.size mem.memory.contents ++ take (1 * length json) json ++ 0 ∷ [])
      ≡ bytes ++ json
  read_back =
      let whole : take (1 * length json) json ≡ json =
        ap (λ n. take n json) (omega arith) ∙ take_all json in
      ap (λ n. take n (take mem.size mem.memory.contents ++ take (1 * length json) json ++ 0 ∷ []))
        (omega (arith, c.size_is, length-append bytes json))
      ∙ ap (λ l. take (length (bytes ++ json)) (l ++ take (1 * length json) json ++ 0 ∷ [])) c.holds
      ∙ ap (λ l. take (length (bytes ++ json)) (bytes ++ l ++ 0 ∷ [])) whole
      ∙ take-length (bytes ++ json) (0 ∷ [])

  save-IsChunk :
      {bs : List ℕ} {w : World}
      → Holding (mem.memory.block ∷ bs) w
      → Ends Never
          (λ r w'. Holding (r.1.memory.block ∷ bs) w' × IsChunk (bytes ++ json) r.1)
          (save_json_results json 1 (length json) mem w)
  unfolding save_json_results
  save-IsChunk {bs} h = bind (malloc-Ends _ h) λ ptr w1 h1.
      bind (free-Ends mem.memory.block (ptr.block ∷ bs) h1.0 (λ a. omega arith)) λ _ w2 h2. ended (
        h2,
        record {
          size_is = omega (arith, c.size_is, length-append bytes json);
          holds = ap (λ l. take (mem.size + 1 * length json) l) h1.1 ∙ read_back;
        },
      )

module _ (env : Env) where
  deliver-IsChunk :
      (pieces : List (List ℕ)) (mem : MemoryStruct) {bytes bs : List ℕ} {w : World}
      → IsChunk bytes mem
      → Holding (mem.memory.block ∷ bs) w
      → Ends Never
          (λ mem' w'. Holding (mem'.memory.block ∷ bs) w' × IsChunk (bytes ++ flatten pieces) mem')
          (deliver env pieces mem w)
  unfolding deliver flatten
  deliver-IsChunk [] mem {bytes} c h =
      ended (h, subst (λ l. IsChunk l mem) (sym (append-nil bytes)) c)
  deliver-IsChunk (piece ∷ pieces) mem {bytes} c h = bind (save-IsChunk piece mem c h) λ r w1 saved.
      mono (deliver-IsChunk pieces r.1 saved.1 saved.0) λ mem' w2 k.
        (k.0, subst (λ l. IsChunk l mem') (append_assoc bytes piece (flatten pieces)) k.1)

  -- However a server cuts its reply into pieces: from a chunk whose block is allocated, a transfer
  -- frees no block that is not allocated and always returns; the chunk then has one block, and what
  -- is read of it is what was in it, and after that the pieces in their order.
  pub perform_into-IsChunk :
      (received : List Call → List (List ℕ)) (mem : MemoryStruct) {bytes bs : List ℕ} (w : World)
      → IsChunk bytes mem
      → Holding (mem.memory.block ∷ bs) w
      → Ends Never
          (λ r w'.
            Holding (r.1.memory.block ∷ bs) w' × IsChunk (bytes ++ flatten (received w.trace)) r.1)
          (perform_into env received mem w)
  unfolding perform_into
  perform_into-IsChunk received mem w c h =
      bind (deliver-IsChunk (received w.trace) mem c h)
        λ mem' w1 k. bind (call-Ends env curl_easy_perform k.0) λ ok w2 h2. ended (h2, k.1)
