-- ===== src/World.antt =====
-- The machine under the program: the heap blocks that are allocated, the calls of the operating
-- system and of other libraries in the order they were made, and what such calls answer.
pub mod Calls
pub mod Ends
pub mod Held
pub mod Script
pub mod Sent
use sentry_peer.Base.{
  ℕ, ◌+◌, String, Bool, true, false, Option, none, some, List, [], ◌∷◌, remove, if◌then◌else◌,
}
use Calls.{Call}

pub record World : Type 0 where
  pub trace : List Call  -- newest first
  pub live : List ℕ
  pub next : ℕ

-- What the environment answers to a call, given all calls made before it.
pub record Env : Type 0 where
  pub succeeds : List Call → Call → Bool
  pub text : List Call → Call → Option String
  pub number : List Call → Call → ℕ

pub data Stop : Type 0 where
  assert_failed : Stop
  bad_free : Stop
  bad_read : Stop
  bad_write : Stop
  stack_overflow : Stop
  out_of_fuel : Stop  -- of the model, not of the program
  exit_with : ℕ → Stop
  killed : Stop  -- by a signal

pub data Run {ℓ} (A : Type ℓ) : Type ℓ where
  done : A → World → Run A
  stopped : Stop → World → Run A

abbrev pub M {ℓ} : Type ℓ → Type ℓ
M A = World → Run A

abbrev pub and_then {ℓ κ} : {A : Type ℓ} {B : Type κ} → Run A → (A → M B) → Run B
and_then (done a w) k = k a w
and_then (stopped s w) k = stopped s w

infixl 5 ◌>>=◌ ◌>>◌
abbrev pub ◌>>=◌ {ℓ κ} : {A : Type ℓ} {B : Type κ} → M A → (A → M B) → M B
◌>>=◌ m k w = and_then (m w) k

abbrev pub ◌>>◌ {ℓ} : {B : Type ℓ} → M (Unit {0}) → M B → M B
m >> k = m >>= λ _. k

abbrev pub pure {ℓ} : {A : Type ℓ} → A → M A
pure a w = done a w

abbrev pub stop {ℓ} : {A : Type ℓ} → Stop → M A
stop s w = stopped s w

-- A test that selects the rest of a function's body.
abbrev pub when {ℓ} : {A : Type ℓ} → Bool → M A → M A → M A
when b m k w = if b then m w else k w

-- `if (call() != OK) { …; return …; }` and the rest of the body.
abbrev pub check {ℓ} : {A : Type ℓ} → M Bool → M A → M A → M A
check m fail k = m >>= λ ok. when ok k fail

-- A block of memory with what it holds. `char *` is `Option Str`: `none` is the null pointer.
pub record Block {ℓ} (A : Type ℓ) : Type ℓ where
  pub block : ℕ
  pub contents : A

abbrev pub Str : Type 0
Str = Block String

unfoldable pub malloc {ℓ} : {A : Type ℓ} → A → M (Block A)
malloc a w =
    done (record { block = w.next; contents = a })
      (record w { live = w.next ∷ w.live; next = w.next + 1 })

unfoldable pub free : ℕ → M (Unit {0})
free b w = elim (remove b w.live) [
  | none ↦ stopped bad_free w
  | some live ↦ done tt (record w { live = live })
]

module _ (env : Env) where
  unfoldable pub call : Call → M Bool
  call c w = done (env.succeeds w.trace c) (record w { trace = c ∷ w.trace })

  unfoldable pub ask_text : Call → M (Option String)
  ask_text c w = done (env.text w.trace c) (record w { trace = c ∷ w.trace })

  unfoldable pub ask_number : Call → M ℕ
  ask_number c w = done (env.number w.trace c) (record w { trace = c ∷ w.trace })

-- A call whose answer the program does not look at.
unfoldable pub emit : Call → M (Unit {0})
emit c w = done tt (record w { trace = c ∷ w.trace })
