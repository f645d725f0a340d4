-- ===== src/Base/Lists.antt =====
-- Lists over the native numbers, and lists of numbers seen as multisets by counting.
use Prim.Native.Nat.{ℕ, zero, suc, ◌+◌, ◌-◌}
use mathlib.Core.Path.{◌≡◌, refl}
use mathlib.Core.Bool.{false}
use mathlib.Core.Option.{Option, none, some}
use mathlib.Core.List.{List, [], ◌∷◌, ◌++◌}
use native.Mathlib.Omega.{arith}
use mathlib.Core.Logic.{inl, inr}
use sentry_peer.Base.Tests.{◌==◌, if◌then◌else◌, Bool-cases, ==→eq, ==_refl}

module _ {ℓ} {A : Type ℓ} where
  abbrev pub length : List A → ℕ
  length [] = 0
  length (x ∷ xs) = suc (length xs)

  abbrev pub take : ℕ → List A → List A
  take zero xs = []
  take (suc n) [] = []
  take (suc n) (x ∷ xs) = x ∷ take n xs

  abbrev pub drop : ℕ → List A → List A
  drop zero xs = xs
  drop (suc n) [] = []
  drop (suc n) (x ∷ xs) = drop n xs

  abbrev pub replicate : ℕ → A → List A
  replicate zero a = []
  replicate (suc n) a = a ∷ replicate n a

  pub length-append : (xs ys : List A) → length (xs ++ ys) ≡ length xs + length ys
  length-append [] ys = omega arith
  length-append (x ∷ xs) ys = omega (arith, length-append xs ys)

  pub length-drop : (n : ℕ) (xs : List A) → length (drop n xs) ≡ length xs - n
  length-drop zero xs = omega arith
  length-drop (suc n) [] = omega arith
  length-drop (suc n) (x ∷ xs) = omega (arith, length-drop n xs)

  pub length-replicate : (n : ℕ) (a : A) → length (replicate n a) ≡ n
  length-replicate zero a = refl
  length-replicate (suc n) a = omega (arith, length-replicate n a)

-- 1 where the two numbers agree, else 0.
pub hit : ℕ → ℕ → ℕ
hit a b = if a == b then 1 else 0

-- How often a number stands in a list.
abbrev pub count : ℕ → List ℕ → ℕ
count b [] = 0
count b (first ∷ rest) = hit first b + count b rest

-- The list without the first occurrence of a number; `none` if there is none.
unfoldable pub remove : ℕ → List ℕ → Option (List ℕ)
remove b [] = none
remove b (x ∷ xs) =
    if x == b then some xs else elim (remove b xs) [ none ↦ none | some ys ↦ some (x ∷ ys) ]

pub count-append :
    (b : ℕ) (front back : List ℕ) → count b (front ++ back) ≡ count b front + count b back
count-append b [] back = omega arith
count-append b (first ∷ front) back = omega (arith, count-append b front back)

pub remove_head : (b : ℕ) (xs : List ℕ) → remove b (b ∷ xs) ≡ some xs
unfolding remove
remove_head b xs = rw (==_refl b)

pub remove_second :
    (a b : ℕ) (xs : List ℕ) → (a == b) ≡ false → remove b (a ∷ b ∷ xs) ≡ some (a ∷ xs)
unfolding remove
remove_second a b xs e = rw (e, ==_refl b) refl

-- `remove` takes one occurrence out, and finds it whenever there is one.
abbrev pub Removes : ℕ → List ℕ → Option (List ℕ) → Type 0
Removes b xs none = count b xs ≡ 0
Removes b xs (some ys) = (a : ℕ) → count a xs ≡ hit b a + count a ys

pub hit_self : (a : ℕ) → hit a a ≡ 1
unfolding hit
hit_self a = rw (==_refl a)

hit_ne : (a b : ℕ) → (a == b) ≡ false → hit a b ≡ 0
unfolding hit
hit_ne a b e = rw e

removed_later :
    (b x : ℕ) (xs : List ℕ) (r : Option (List ℕ))
    → (x == b) ≡ false
    → Removes b xs r
    → Removes b (x ∷ xs) (elim r [ none ↦ none | some ys ↦ some (x ∷ ys) ])
removed_later b x xs none e h = omega (arith, hit_ne x b e)
removed_later b x xs (some ys) e h = λ a. omega (arith, h a)

pub remove-Removes : (b : ℕ) (xs : List ℕ) → Removes b xs (remove b xs)
unfolding remove
remove-Removes b [] = refl
remove-Removes b (x ∷ xs) = elim (Bool-cases (x == b)) [
  | inl e ↦ rw e (λ a. rw (==→eq x b e) refl)
  | inr e ↦ rw e (removed_later b x xs (remove b xs) e (remove-Removes b xs))
]

-- Two lists hold the same numbers, as often.
abbrev pub SameBlocks : List ℕ → List ℕ → Type 0
SameBlocks xs ys = (a : ℕ) → count a xs ≡ count a ys
