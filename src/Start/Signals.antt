-- ===== src/Start/Signals.antt =====
-- src/signal_handler.c, and the loop of src/sentrypeer.c that waits for a signal.
use sentry_peer.Base.{ℕ, ◌==◌, List, [], ◌∷◌}
use sentry_peer.World.{
  Env, M, exit_with, killed, out_of_fuel, call, emit, pure, stop, check, when, ◌>>=◌, ◌>>◌,
}
use sentry_peer.World.Calls.{
  Signal, sigint, sigterm, sigprof, sighup, Disposition, handled, default_action, ignored, signal,
  atexit, closelog, sleep,
}

-- What happens on each signal.
abbrev pub Dispositions : Type 0
Dispositions = Signal → Disposition

-- The numbers that the handler is given, on Linux.
unfoldable pub signo_of : Signal → ℕ
signo_of sigint = 2
signo_of sigterm = 15
signo_of sigprof = 27
signo_of sighup = 1

-- `cleanup_flag = signo;`
unfoldable pub signal_handler : ℕ → ℕ
signal_handler signo = signo

-- `termination_handler`; the flag that it sets is not read again.
unfoldable pub termination_handler : M (Unit {0})
termination_handler = emit closelog

-- `exit(code)` once the termination handler is registered, and the end of `main`.
unfoldable pub leave {ℓ} : {A : Type ℓ} → ℕ → M A
unfolding termination_handler
leave code = do termination_handler; stop (exit_with code)

-- The dispositions once all four calls have succeeded.
unfoldable pub dispositions : Dispositions
dispositions sigint = handled
dispositions sigterm = handled
dispositions sigprof = default_action
dispositions sighup = ignored

module _ (env : Env) where
  unfoldable pub signal_handler_init : M Dispositions
  signal_handler_init = check (call env (signal sigint handled)) (stop (exit_with 1)) (
      check (call env (signal sigterm handled)) (stop (exit_with 1)) (
        check (call env (signal sigprof default_action)) (stop (exit_with 1)) (
          check (call env (signal sighup ignored)) (stop (exit_with 1))
            (check (call env atexit) (stop (exit_with 1)) (pure dispositions)))))

-- A signal that arrives: `cleanup_flag` afterwards.
unfoldable pub receive_by : Disposition → Signal → ℕ → M ℕ
unfolding signal_handler signo_of
receive_by handled s flag = pure (signal_handler (signo_of s))
receive_by default_action s flag = stop killed
receive_by ignored s flag = pure flag

unfoldable pub receive : Dispositions → List Signal → ℕ → M ℕ
unfolding receive_by
receive on [] flag = pure flag
receive on (s ∷ ss) flag = receive_by (on s) s flag >>= receive on ss

-- `while (cleanup_flag == 0) { sleep(1); }`. The signals that arrive before each test are given; the
-- loop is followed as far as they are.
unfoldable pub wait_for_signal : Dispositions → List (List Signal) → ℕ → M (Unit {0})
unfolding receive
wait_for_signal on [] flag = stop out_of_fuel
wait_for_signal on (arrived ∷ later) flag = receive on arrived flag >>= λ flag'.
    when (flag' == 0) (do emit (sleep 1); wait_for_signal on later flag') (pure tt)
