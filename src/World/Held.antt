-- ===== src/World/Held.antt =====
-- A heap that holds some blocks, and others only if blocks may be lost.
use sentry_peer.Base.{
  ℕ, ◌+◌, ◌≤◌, ◌≡◌, refl, Bool, true, false, Option, none, some, List, [], ◌∷◌, ◌++◌, arith, count,
  count-append, hit, hit_self, if◌then◌else◌, remove, remove-Removes, Removes,
}
use sentry_peer.World.{
  World, Env, Stop, bad_free, Run, done, stopped, M, and_then, when, malloc, free, call, ask_number,
  emit,
}
use sentry_peer.World.Calls.{Call}
use sentry_peer.World.Ends.{Ends, ended, Holding, bind, branch}

-- Where `leak` is false, the blocks of the list are all that is allocated.
pub record Held (leak : Bool) (bs : List ℕ) (w : World) : Type 0 where
  pub least : (a : ℕ) → count a bs ≤ count a w.live
  pub exact : leak ≡ false → (a : ℕ) → count a w.live ≡ count a bs

module _ {leak : Bool} where
  -- Whatever is added to the heap as it is, is added to the list.
  pub added :
      {bs : List ℕ} {w v : World} (xs : List ℕ)
      → Held leak bs w
      → Holding (xs ++ w.live) v
      → Held leak (xs ++ bs) v
  added {bs} {w} xs h grown = record {
    least =
        λ a. omega (arith, h.least a, grown.same a, count-append a xs w.live, count-append a xs bs);
    exact = λ strict a.
        omega
          (arith, h.exact strict a, grown.same a, count-append a xs w.live, count-append a xs bs);
  }

  pub reordered :
      {bs cs : List ℕ} {w : World}
      → Held leak bs w
      → ((a : ℕ) → count a bs ≡ count a cs)
      → Held leak cs w
  reordered h e = record {
    least = λ a. omega (arith, h.least a, e a);
    exact = λ strict a. omega (arith, h.exact strict a, e a);
  }

  pub swapped :
      (xs ys zs : List ℕ) {w : World}
      → Held leak (xs ++ (ys ++ zs)) w
      → Held leak (ys ++ (xs ++ zs)) w
  swapped xs ys zs h = reordered h (λ a. omega (
    arith,
    count-append a xs (ys ++ zs),
    count-append a ys zs,
    count-append a ys (xs ++ zs),
    count-append a xs zs,
  ))

  -- Blocks whose pointers are gone.
  pub lost :
      {xs bs : List ℕ} {w : World}
      → leak ≡ true
      → Held leak xs w
      → ((a : ℕ) → count a bs ≤ count a xs)
      → Held leak bs w
  lost may h e = record {
    least = λ a. omega (arith, h.least a, e a);
    exact = λ strict. absurd (cc);
  }

  pub Held-Holding : {bs : List ℕ} {w : World} → leak ≡ false → Held leak bs w → Holding bs w
  Held-Holding strict h = record { same = h.exact strict }

  pub Holding-Held : {bs : List ℕ} {w : World} → Holding bs w → Held leak bs w
  Holding-Held h = record { least = λ a. omega (arith, h.same a); exact = λ strict. h.same }

  module _ {S : Stop → Type 0} where
    pub malloc-Held :
        {A : Type 0} (a : A) {bs : List ℕ} {w : World}
        → Held leak bs w
        → Ends S (λ b w'. Held leak (b.block ∷ bs) w' × (b.contents ≡ a)) (malloc a w)
    unfolding malloc
    malloc-Held a {w = w} h = ended (added (w.next ∷ []) h (record { same = λ x. refl }), refl)

    freed-Held :
        (b : ℕ) {xs : List ℕ} (ys : List ℕ) {w : World} (r : Option (List ℕ))
        → Held leak xs w
        → ((a : ℕ) → count a xs ≡ hit b a + count a ys)
        → Removes b w.live r
        → Ends S
            (λ _ w'. Held leak ys w')
            (elim r [ none ↦ stopped bad_free w | some live ↦ done tt (record w { live = live }) ])
    freed-Held b ys none h out gone = absurd (omega (arith, h.least b, out b, gone, hit_self b))
    freed-Held b ys (some live) h out left = ended (record {
      least = λ a. omega (arith, h.least a, out a, left a);
      exact = λ strict a. omega (arith, h.exact strict a, out a, left a);
    })

    pub free-Held :
        (b : ℕ) {xs : List ℕ} (ys : List ℕ) {w : World}
        → Held leak xs w
        → ((a : ℕ) → count a xs ≡ hit b a + count a ys)
        → Ends S (λ _ w'. Held leak ys w') (free b w)
    unfolding free
    free-Held b ys {w} h out = freed-Held b ys (remove b w.live) h out (remove-Removes b w.live)

    module _ (c : Call) {bs : List ℕ} {w : World} (h : Held leak bs w) where
      pub emit-Held : Ends S (λ _ w'. Held leak bs w') (emit c w)
      unfolding emit
      emit-Held = ended (record { least = h.least; exact = h.exact })

      module _ (env : Env) where
        pub call-Held : Ends S (λ _ w'. Held leak bs w') (call env c w)
        unfolding call
        call-Held = ended (record { least = h.least; exact = h.exact })

        pub ask_number-Held : Ends S (λ _ w'. Held leak bs w') (ask_number env c w)
        unfolding ask_number
        ask_number-Held = ended (record { least = h.least; exact = h.exact })

    pub check-Held :
        {A : Type 0} {Q : A → World → Type 0} {bs : List ℕ} {r : Run Bool} {fail k : M A}
        → Ends S (λ _ w'. Held leak bs w') r
        → ((w' : World) → Held leak bs w' → Ends S Q (fail w'))
        → ((w' : World) → Held leak bs w' → Ends S Q (k w'))
        → Ends S Q (and_then r (λ ok. when ok k fail))
    check-Held p no_way on = bind p λ ok w' h. branch ok (on w' h) (no_way w' h)

-- A branch that knows its test.
pub branch_on :
    {A : Type 0} {S : Stop → Type 0} {P : A → World → Type 0} (b : Bool) {m k : Run A}
    → (b ≡ true → Ends S P m)
    → (b ≡ false → Ends S P k)
    → Ends S P (if b then m else k)
branch_on true p q = p refl
branch_on false p q = q refl
