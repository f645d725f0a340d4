-- ===== src/Start/Services.antt =====
-- What runs: the daemons as the calls of `main` leave them, when every call succeeds.
use sentry_peer.Base.{
  ℕ, ◌≡◌, refl, ap, ◌∙◌, Bool, true, false, Option, none, some, List, [], ◌∷◌, count, hit, ◌+◌,
  remove, ◌==◌, if◌then◌else◌,
}
use sentry_peer.World.{
  World, Env, Stop, M, Run, done, stopped, bad_free, free, call, emit, ask_number, when, and_then,
}
use sentry_peer.World.Calls.{
  Call, mhd_start_daemon, mhd_stop_daemon, thread_number, pthread_cancel, pthread_join,
  run_sip_server_rs, shutdown_sip_rs, dht_runner_listen, dht_runner_delete,
}
use sentry_peer.World.Ends.{Ends, ended, halted, Holding, mono, free-Ends}

-- What runs of the SIP daemon: nothing, the Rust listeners, or the thread of a number, which may have been
-- cancelled, but runs until it is joined.
pub data Sip : Type 0 where
  off rust : Sip
  thread cancelled : ℕ → Sip

pub record Services : Type 0 where
  pub http : Bool
  pub sip : Sip
  pub dht : Bool

abbrev pub nothing_runs : Services
nothing_runs = record { http = false; sip = off; dht = false }

-- Only the thread of the number is cancelled or joined, and only a cancelled thread comes to its end.
abbrev pub cancel : ℕ → Sip → Sip
cancel t (thread n) = if n == t then cancelled n else thread n
cancel t s = s

abbrev pub join : ℕ → Sip → Sip
join t (cancelled n) = if n == t then off else cancelled n
join t s = s

abbrev pub shut_down : Sip → Sip
shut_down rust = off
shut_down s = s

unfoldable pub after_call : Call → Services → Services
after_call (mhd_start_daemon _) s = record s { http = true }
after_call mhd_stop_daemon s = record s { http = false }
after_call (thread_number t) s = record s { sip = thread t }
after_call (pthread_cancel t) s = record s { sip = cancel t s.sip }
after_call (pthread_join t) s = record s { sip = join t s.sip }
after_call run_sip_server_rs s = record s { sip = rust }
after_call shutdown_sip_rs s = record s { sip = shut_down s.sip }
after_call dht_runner_listen s = record s { dht = true }
after_call dht_runner_delete s = record s { dht = false }
after_call _ s = s

unfoldable pub running : List Call → Services
unfolding after_call
running [] = nothing_runs
running (c ∷ tr) = after_call c (running tr)

abbrev pub Succeeds : Env → Type 0
Succeeds env = (tr : List Call) (c : Call) → env.succeeds tr c ≡ true

-- These services run, and these blocks are allocated.
pub record Up (s : Services) (bs : List ℕ) (w : World) : Type 0 where
  pub services : running w.trace ≡ s
  pub heap : Holding bs w

-- Freeing leaves the calls as they were.
pub free-services :
    (b : ℕ) (w : World) → Ends (λ _. Unit {0}) (λ _ w'. w'.trace ≡ w.trace) (free b w)
unfolding free
free-services b w = freed (remove b w.live)
  where
    freed :
        (r : Option (List ℕ))
        → Ends
            (λ _. Unit {0})
            (λ _ w'. w'.trace ≡ w.trace)
            (elim r [ none ↦ stopped bad_free w | some live ↦ done tt (record w { live = live }) ])
    freed none = halted tt
    freed (some live) = ended refl

-- Two facts on one run.
pub both_facts :
    {A : Type 0} {S : Stop → Type 0} {P Q : A → World → Type 0} {run : Run A}
    → Ends S P run
    → Ends (λ _. Unit {0}) Q run
    → Ends S (λ a w. P a w × Q a w) run
both_facts (ended p) (ended q) = ended (p, q)
both_facts (halted s) (halted _) = halted s

pub free-Up :
    {S : Stop → Type 0} {s : Services} (b : ℕ) {xs : List ℕ} (ys : List ℕ) {w : World}
    → ((a : ℕ) → count a xs ≡ hit b a + count a ys)
    → Up s xs w
    → Ends S (λ _ w'. Up s ys w') (free b w)
free-Up b ys {w = w} out u =
    mono (both_facts (free-Ends b ys u.heap out) (free-services b w))
      λ _ w' k. record { services = ap running k.1 ∙ u.services; heap = k.0 }

module _ {S : Stop → Type 0} {s : Services} {bs : List ℕ} {w : World} (u : Up s bs w) where
  pub emit-Up : (c : Call) → Ends S (λ _ w'. Up (after_call c s) bs w') (emit c w)
  unfolding emit running
  emit-Up c =
      ended
        (record { services = ap (after_call c) u.services; heap = record { same = u.heap.same } })

  pub ask_number-Up :
      (env : Env) (c : Call) → Ends S (λ _ w'. Up (after_call c s) bs w') (ask_number env c w)
  unfolding ask_number running
  ask_number-Up env c =
      ended
        (record { services = ap (after_call c) u.services; heap = record { same = u.heap.same } })

  pub call-Up :
      (env : Env) (ok : Succeeds env) (c : Call)
      → Ends S (λ b w'. (b ≡ true) × Up (after_call c s) bs w') (call env c w)
  unfolding call running
  call-Up env ok c = ended (
    ok w.trace c,
    record { services = ap (after_call c) u.services; heap = record { same = u.heap.same } },
  )

  -- A call that succeeds, and what follows it.
  pub check-Up :
      {A : Type 0} {Q : A → World → Type 0} (env : Env) (ok : Succeeds env) (c : Call) (fail : M A)
      {k : M A}
      → ((w' : World) → Up (after_call c s) bs w' → Ends S Q (k w'))
      → Ends S Q (and_then (call env c w) (λ b. when b k fail))
  unfolding call running
  check-Up env ok c fail on = rw (ok w.trace c) (
      on _
        (record { services = ap (after_call c) u.services; heap = record { same = u.heap.same } }))
