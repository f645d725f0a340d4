-- ===== src/World/Script.antt =====
-- Straight runs of calls: whether each succeeds, and the trace that they leave.
use sentry_peer.Base.{◌≡◌, refl, Bool, true, false, ◌&&◌, List, [], ◌∷◌}
use sentry_peer.World.{World, Env}
use sentry_peer.World.Calls.{Call}

-- The trace once all calls of a list are made.
unfoldable pub visited : List Call → List Call → List Call
visited [] tr = tr
visited (c ∷ cs) tr = visited cs (c ∷ tr)

abbrev pub after_calls : List Call → World → World
after_calls cs w = record w { trace = visited cs w.trace }

-- Whether each call of a list succeeds when all before it have.
unfoldable pub all_succeed : Env → List Call → List Call → Bool
all_succeed env [] tr = true
all_succeed env (c ∷ cs) tr = env.succeeds tr c && all_succeed env cs (c ∷ tr)

pub both : (a : Bool) {b : Bool} → (a && b) ≡ true → (a ≡ true) × (b ≡ true)
both true h = (refl, h)
both false h = absurd (cc)

pub second : {a b : Bool} → a ≡ true → (a && b) ≡ false → b ≡ false
second {a = true} p q = q
second {a = false} p q = absurd (cc)

pub not_both : {a : Bool} → (a && true) ≡ false → a ≡ false
not_both {a = true} q = absurd (cc)
not_both {a = false} q = refl
