-- ===== src/Dht/Known.antt =====
-- Events that the store already has.
use sentry_peer.Base.{
  ℕ, ◌+◌, subst, ◌≡◌, refl, String, Bool, true, false, ◌||◌, ◌==◌, Option, none, some, List, ◌∷◌,
  remove,
}
use sentry_peer.World.{World, Env, Run, M, done, stopped, bad_free, free, malloc}
use sentry_peer.World.Ends.{Ends, ended, halted, Holding, Asserts, Never, bind, free-Ends}
use sentry_peer.Conf.Settings.{Build, Config}
use sentry_peer.Actor.{BadActor}
use sentry_peer.Json.{Jansson, Package}
use sentry_peer.Database.Exists.{db_bad_actor_exists}
use sentry_peer.Dht.{received_event, handle_event, dht_value_callback}
use sentry_peer.Dht.Listen.{db_bad_actor_exists-Keeps}

given :
    {A : Type 0} {P : A → World → Type 0} {run : Run A} {a : A} {w : World}
    → run ≡ done a w
    → Ends Asserts P run
    → P a w
given {A} {P} {a = a} {w = w} e r = from (subst (λ x. Ends Asserts P x) e r)
  where
    from : Ends Asserts P (done a w) → P a w
    from (ended p) = p

same_trace :
    (r : Option (List ℕ)) (ys : List ℕ) (w : World)
    → Ends Never
        (λ _ w'. Holding ys w')
        (elim r [ none ↦ stopped bad_free w | some live ↦ done tt (record w { live = live }) ])
    → Ends Never
        (λ _ w'. w'.trace ≡ w.trace)
        (elim r [ none ↦ stopped bad_free w | some live ↦ done tt (record w { live = live }) ])
same_trace none ys w (halted s) = halted s
same_trace (some live) ys w e = ended refl

-- A free that succeeds makes no call.
free_trace :
    (b : ℕ) (ys : List ℕ) (w : World)
    → Holding (b ∷ ys) w
    → Ends Never (λ _ w'. w'.trace ≡ w.trace) (free b w)
unfolding free
free_trace b ys w h = same_trace (remove b w.live) ys w (free-Ends b ys h (λ a. refl))

module _ {Json : Type 0} (j : Jansson Json) (is_valid_uuid : String → Bool) (env : Env)
    (pkg : Package) (build : Build) (post : Config → BadActor → M Bool) where
  -- Where a value that is neither expired nor empty passes the tests with an event UUID that the event
  -- store reports to have, the callback makes no call after those of the existence check, so it neither
  -- logs nor stores the event again; it returns, and asks to go on listening.
  pub dht_value_callback-known :
      (config : Config) (size : ℕ) (value : String) (expired : Bool) (event_uuid : String)
      (w checked : World)
      → (expired || size == 0) ≡ false
      → received_event j is_valid_uuid config (j.loads value) ≡ some event_uuid
      → db_bad_actor_exists env is_valid_uuid
          (some event_uuid)
          config
          (record w { live = w.next ∷ w.live; next = w.next + 1 })
        ≡ done true checked
      → Ends Never
          (λ rc w'. (rc ≡ true) × (w'.trace ≡ checked.trace))
          (dht_value_callback j is_valid_uuid env pkg build post config size value expired w)
  unfolding dht_value_callback handle_event malloc
  dht_value_callback-known config size value expired event_uuid w checked fresh event exists =
      rw (fresh, event, handle_event, exists)
        (bind (free_trace w.next w.live checked held) λ _ w1 e. ended (refl, e))
    where
      held : Holding (w.next ∷ w.live) checked
      held = given exists (
          db_bad_actor_exists-Keeps env is_valid_uuid event_uuid config (w.next ∷ w.live)
            (record w { live = w.next ∷ w.live; next = w.next + 1 }) (record { same = λ a. refl }))
