-- ===== src/World/Ends.antt =====
-- How a run ends: what holds of its result and its last state, and which stops are possible.
use sentry_peer.Base.{
  ℕ, ◌+◌, ◌≡◌, Bool, true, false, none, some, List, ◌∷◌, arith, SameBlocks, count, hit, hit_self,
  remove, remove-Removes, remove_head, Removes, if◌then◌else◌, Option, refl,
}
use sentry_peer.World.{
  when, World, Stop, assert_failed, bad_free, exit_with, Run, done, stopped, M, and_then, malloc,
  free, Env, call, ask_text, ask_number, emit,
}
use sentry_peer.World.Calls.{Call}

pub data Ends {A : Type 0} (S : Stop → Type 0) (P : A → World → Type 0) : Run A → Type 0 where
  ended : {a : A} {w : World} → P a w → Ends S P (done a w)
  halted : {s : Stop} {w : World} → S s → Ends S P (stopped s w)

-- Only a failed assertion or an exit: no block is freed twice, nothing is read out of bounds.
abbrev pub Asserts : Stop → Type 0
Asserts assert_failed = Unit {0}
Asserts (exit_with _) = Unit {0}
Asserts _ = ⊥

-- No stop at all.
abbrev pub Never : Stop → Type 0
Never _ = ⊥

-- The allocated blocks are those of the list.
pub record Holding (bs : List ℕ) (w : World) : Type 0 where
  pub same : SameBlocks w.live bs

-- A computation that leaves the heap as it is, on every path that returns.
abbrev pub Keeps : (Stop → Type 0) → {A : Type 0} → M A → Type 0
Keeps S m = (bs : List ℕ) (w : World) → Holding bs w → Ends S (λ _ w'. Holding bs w') (m w)

module _ {A : Type 0} {S : Stop → Type 0} {P : A → World → Type 0} where
  pub bind :
      {B : Type 0} {Q : B → World → Type 0} {r : Run A} {k : A → M B}
      → Ends S P r
      → ((a : A) (w : World) → P a w → Ends S Q (k a w))
      → Ends S Q (and_then r k)
  bind (ended p) next = next _ _ p
  bind (halted s) next = halted s

  pub mono :
      {Q : A → World → Type 0} {r : Run A}
      → Ends S P r
      → ((a : A) (w : World) → P a w → Q a w)
      → Ends S Q r
  mono (ended p) weaken = ended (weaken _ _ p)
  mono (halted s) weaken = halted s

  pub branch : (b : Bool) {m k : Run A} → Ends S P m → Ends S P k → Ends S P (if b then m else k)
  branch true p q = p
  branch false p q = q

module _ {S : Stop → Type 0} where
  pub malloc-Ends :
      {A : Type 0} (a : A) {bs : List ℕ} {w : World}
      → Holding bs w
      → Ends S (λ b w'. Holding (b.block ∷ bs) w' × (b.contents ≡ a)) (malloc a w)
  unfolding malloc
  malloc-Ends a h = ended (record { same = λ x. omega (arith, h.same x) }, refl)

  freed-Ends :
      (b : ℕ) {xs : List ℕ} (ys : List ℕ) {w : World} (r : Option (List ℕ))
      → Holding xs w
      → ((a : ℕ) → count a xs ≡ hit b a + count a ys)
      → Removes b w.live r
      → Ends S
          (λ _ w'. Holding ys w')
          (elim r [ none ↦ stopped bad_free w | some live ↦ done tt (record w { live = live }) ])
  freed-Ends b ys none h out gone = absurd (omega (arith, h.same b, out b, gone, hit_self b))
  freed-Ends b ys (some live) h out left =
      ended (record { same = λ a. omega (arith, h.same a, out a, left a) })

  -- A block may be freed if it is one of those held; the others stay.
  pub free-Ends :
      (b : ℕ) {xs : List ℕ} (ys : List ℕ) {w : World}
      → Holding xs w
      → ((a : ℕ) → count a xs ≡ hit b a + count a ys)
      → Ends S (λ _ w'. Holding ys w') (free b w)
  unfolding free
  free-Ends b ys {w} h out = freed-Ends b ys (remove b w.live) h out (remove-Removes b w.live)

  module _ (env : Env) (c : Call) {bs : List ℕ} {w : World} (h : Holding bs w) where
    pub call-Ends : Ends S (λ _ w'. Holding bs w') (call env c w)
    unfolding call
    call-Ends = ended (record { same = h.same })

    pub ask_text-Ends : Ends S (λ _ w'. Holding bs w') (ask_text env c w)
    unfolding ask_text
    ask_text-Ends = ended (record { same = h.same })

    pub ask_number-Ends : Ends S (λ _ w'. Holding bs w') (ask_number env c w)
    unfolding ask_number
    ask_number-Ends = ended (record { same = h.same })

  pub emit-Ends :
      (c : Call) {bs : List ℕ} {w : World}
      → Holding bs w
      → Ends S (λ _ w'. Holding bs w') (emit c w)
  unfolding emit
  emit-Ends c h = ended (record { same = h.same })

  -- A step that keeps the heap, and what goes on from it.
  module _ {A : Type 0} {Q : A → World → Type 0} {bs : List ℕ} where
    pub check-Ends :
        {r : Run Bool} {fail k : M A}
        → Ends S (λ _ w'. Holding bs w') r
        → ((w' : World) → Holding bs w' → Ends S Q (fail w'))
        → ((w' : World) → Holding bs w' → Ends S Q (k w'))
        → Ends S Q (and_then r (λ ok. when ok k fail))
    check-Ends p no_way on = bind p λ ok w' h. branch ok (on w' h) (no_way w' h)

pub free_head :
    (b : ℕ) (bs : List ℕ) (w : World)
    → free b (record w { live = b ∷ bs }) ≡ done tt (record w { live = bs })
unfolding free
free_head b bs w = rw (remove_head b bs, free)

-- A block that was just allocated can be freed, and the heap is then as before.
pub free_fresh :
    (w : World)
    → free w.next (record w { live = w.next ∷ w.live; next = w.next + 1 })
      ≡ done tt (record w { next = w.next + 1 })
unfolding free
free_fresh w = rw (remove_head w.next w.live, free)
