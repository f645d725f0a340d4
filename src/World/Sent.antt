-- ===== src/World/Sent.antt =====
-- The responses of the HTTP API in a trace, and runs that queue none.
use sentry_peer.Base.{ℕ, ◌≡◌, ◌∙◌, Bool, Option, none, some, List, [], ◌∷◌, remove}
use sentry_peer.World.{
  World, Env, Stop, Run, done, stopped, assert_failed, bad_free, bad_read, M, and_then, when,
  malloc, free, call, ask_text, ask_number, emit,
}
use sentry_peer.World.Calls.{Call, mhd_queue_response}
use sentry_peer.World.Ends.{Ends, ended, halted, bind, branch}

-- The statuses of the responses that were queued, newest first.
abbrev pub responses : List Call → List ℕ
responses [] = []
responses (mhd_queue_response status ∷ cs) = status ∷ responses cs
responses (_ ∷ cs) = responses cs

-- The stops by a null pointer, or by a block that is not allocated.
abbrev pub Faults : Stop → Type 0
Faults assert_failed = Unit {0}
Faults bad_free = Unit {0}
Faults bad_read = Unit {0}
Faults _ = ⊥

pub record Sent (rs : List ℕ) (w : World) : Type 0 where
  pub same : responses w.trace ≡ rs

-- A call that queues no response.
abbrev pub IsQuiet : Call → Type 0
IsQuiet c = (cs : List Call) → responses (c ∷ cs) ≡ responses cs

-- A run that queues no response.
abbrev pub Quiet : List ℕ → {A : Type 0} → Run A → Type 0
Quiet rs run = Ends Faults (λ _ w'. Sent rs w') run

module _ {rs : List ℕ} {w : World} (h : Sent rs w) where
  pub malloc-Quiet : {A : Type 0} (a : A) → Quiet rs (malloc a w)
  unfolding malloc
  malloc-Quiet a = ended (record { same = h.same })

  pub free-Quiet : (b : ℕ) → Quiet rs (free b w)
  unfolding free
  free-Quiet b = freed (remove b w.live)
    where
      freed :
          (r : Option (List ℕ))
          → Quiet rs (elim r [
            | none ↦ stopped bad_free w
            | some live ↦ done tt (record w { live = live })
          ])
      freed none = halted tt
      freed (some live) = ended (record { same = h.same })

  module _ (c : Call) (quiet : IsQuiet c) where
    later : Sent rs (record w { trace = c ∷ w.trace })
    later = record { same = quiet w.trace ∙ h.same }

    pub emit-Quiet : Quiet rs (emit c w)
    unfolding emit
    emit-Quiet = ended later

    module _ (env : Env) where
      pub call-Quiet : Quiet rs (call env c w)
      unfolding call
      call-Quiet = ended later

      pub ask_text-Quiet : Quiet rs (ask_text env c w)
      unfolding ask_text
      ask_text-Quiet = ended later

      pub ask_number-Quiet : Quiet rs (ask_number env c w)
      unfolding ask_number
      ask_number-Quiet = ended later

-- What goes on from a run that queues no response.
module _ {A : Type 0} {P : A → World → Type 0} {rs : List ℕ} where
  pub check-Quiet :
      {r : Run Bool} {fail k : M A}
      → Quiet rs r
      → ((w' : World) → Sent rs w' → Ends Faults P (fail w'))
      → ((w' : World) → Sent rs w' → Ends Faults P (k w'))
      → Ends Faults P (and_then r (λ ok. when ok k fail))
  check-Quiet p no_way on = bind p λ ok w' h. branch ok (on w' h) (no_way w' h)
