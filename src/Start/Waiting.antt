-- ===== src/Start/Waiting.antt =====
-- Which signals end the loop of `main`.
use sentry_peer.Base.{
  ℕ, ◌≡◌, refl, ◌∙◌, sym, Bool, true, false, not, ◌&&◌, ◌||◌, ◌==◌, List, [], ◌∷◌, arith,
}
use sentry_peer.World.{World, Env, Stop}
use sentry_peer.World.Calls.{
  Signal, sigint, sigterm, sigprof, sighup, sleep, signal, handled, default_action, ignored, atexit,
}
use sentry_peer.World.Ends.{Ends, ended, bind, mono}
use sentry_peer.World.Held.{branch_on}
use sentry_peer.World.Script.{both}
use sentry_peer.Start.Signals.{
  dispositions, signal_handler, signo_of, receive_by, receive, wait_for_signal, signal_handler_init,
}
use sentry_peer.Start.Services.{Services, Up, emit-Up, check-Up, after_call, Succeeds}

-- SIGPROF has its default action, which ends the process.
abbrev pub harmless : List Signal → Bool
harmless [] = true
harmless (sigprof ∷ ss) = false
harmless (s ∷ ss) = harmless ss

abbrev pub asks_to_stop : List Signal → Bool
asks_to_stop [] = false
asks_to_stop (sigint ∷ ss) = true
asks_to_stop (sigterm ∷ ss) = true
asks_to_stop (s ∷ ss) = asks_to_stop ss

-- A SIGINT or SIGTERM arrives before any SIGPROF.
abbrev pub interrupted : List (List Signal) → Bool
interrupted [] = false
interrupted (arrived ∷ later) = harmless arrived && (asks_to_stop arrived || interrupted later)

module _ {S : Stop → Type 0} {s : Services} {bs : List ℕ} where
  receive-Up :
      (arrived : List Signal) (flag : ℕ) {w : World}
      → harmless arrived ≡ true
      → Up s bs w
      → Ends S
          (λ f w'. ((f == 0) ≡ (flag == 0 && not (asks_to_stop arrived))) × Up s bs w')
          (receive dispositions arrived flag w)
  unfolding receive receive_by dispositions signal_handler signo_of
  receive-Up [] flag h u = ended (ground arith, u)
  receive-Up (sigint ∷ ss) flag h u = mono (receive-Up ss 2 h u) λ f w' k. (ground arith, k.1)
  receive-Up (sigterm ∷ ss) flag h u = mono (receive-Up ss 15 h u) λ f w' k. (ground arith, k.1)
  receive-Up (sigprof ∷ ss) flag h u = absurd (cc)
  receive-Up (sighup ∷ ss) flag h u = receive-Up ss flag h u

  wait-Up :
      (arrivals : List (List Signal)) (flag : ℕ) {w : World}
      → (flag == 0) ≡ true
      → interrupted arrivals ≡ true
      → Up s bs w
      → Ends S (λ _ w'. Up s bs w') (wait_for_signal dispositions arrivals flag w)
  unfolding wait_for_signal after_call
  wait-Up [] flag unset h u = absurd (cc)
  wait-Up (arrived ∷ later) flag unset h u =
      let (quiet, more) = both (harmless arrived) h in
      bind (receive-Up arrived flag quiet u) λ f w1 k.
        branch_on (f == 0)
          (λ zero. bind (emit-Up k.1 (sleep 1)) λ _ w2 u2.
            wait-Up later f zero (not_yet (flag == 0) (asks_to_stop arrived) (sym k.0 ∙ zero) more)
              u2)
          (λ set. ended k.1)
    where
      not_yet : (a b : Bool) {x : Bool} → (a && not b) ≡ true → (b || x) ≡ true → x ≡ true
      not_yet a false e g = g
      not_yet true true e g = absurd (cc)
      not_yet false true e g = absurd (cc)

  pub wait_for_signal-Up :
      (arrivals : List (List Signal)) {w : World}
      → interrupted arrivals ≡ true
      → Up s bs w
      → Ends S (λ _ w'. Up s bs w') (wait_for_signal dispositions arrivals 0 w)
  wait_for_signal-Up arrivals h u = wait-Up arrivals 0 refl h u

  pub signal_handler_init-Up :
      (env : Env) {w : World}
      → Succeeds env
      → Up s bs w
      → Ends S (λ on w'. (on ≡ dispositions) × Up s bs w') (signal_handler_init env w)
  unfolding signal_handler_init after_call
  signal_handler_init-Up env ok u = check-Up u env ok (signal sigint handled) _ λ w1 u1.
      check-Up u1 env ok (signal sigterm handled) _ λ w2 u2.
        check-Up u2 env ok (signal sigprof default_action) _ λ w3 u3.
          check-Up u3 env ok (signal sighup ignored) _
            λ w4 u4. check-Up u4 env ok atexit _ λ w5 u5. ended (refl, u5)
