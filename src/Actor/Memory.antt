-- ===== src/Actor/Memory.antt =====
-- What a bad actor owns, and what the destructor frees.
use sentry_peer.Base.{
  ℕ, ◌+◌, ◌≡◌, refl, String, Option, none, some, List, [], ◌∷◌, ◌++◌, arith, count, hit,
  count-append,
}
use sentry_peer.World.{World, Env, Stop, Str, M, bad_read, free, and_then, ◌>>◌}
use sentry_peer.World.Calls.{clock_gettime, uuid_generate}
use sentry_peer.World.Ends.{
  Ends, ended, halted, Holding, bind, malloc-Ends, free-Ends, ask_text-Ends,
}
use sentry_peer.Actor.{
  BadActor, built, util_duplicate_string, bad_actor_new, free_if_set, bad_actor_destroy,
  bad_actors_destroy, destroy_each,
}

-- The blocks that a list of pointers owns.
abbrev pub blocks_of : List (Option Str) → List ℕ
blocks_of [] = []
blocks_of (none ∷ ps) = blocks_of ps
blocks_of (some s ∷ ps) = s.block ∷ blocks_of ps

abbrev pub pointers : BadActor → List (Option Str)
pointers b =
    b.event_timestamp ∷ b.event_uuid ∷ b.source_ip ∷ b.destination_ip ∷ b.transport_type
    ∷ b.collected_method ∷ b.called_number ∷ b.method ∷ b.user_agent ∷ b.sip_message ∷ b.seen_last
    ∷ b.seen_count ∷ b.created_by_node_id ∷ []

-- The struct and every string that it points to.
abbrev pub owned : BadActor → List ℕ
owned b = b.self ∷ blocks_of (pointers b)

abbrev pub owned_all : List BadActor → List ℕ
owned_all [] = []
owned_all (b ∷ bs) = owned b ++ owned_all bs

free_all : List (Option Str) → M (Unit {0}) → M (Unit {0})
free_all [] k = k
free_all (p ∷ ps) k = do free_if_set p; free_all ps k

free_if_set-Ends :
    {S : Stop → Type 0} (p : Option Str) {xs : List ℕ} (ys : List ℕ) {w : World}
    → Holding xs w
    → ((a : ℕ) → count a xs ≡ count a (blocks_of (p ∷ [])) + count a ys)
    → Ends S (λ _ w'. Holding ys w') (free_if_set p w)
unfolding free_if_set
free_if_set-Ends none ys h e = ended (record { same = λ a. omega (arith, h.same a, e a) })
free_if_set-Ends (some s) ys h e = free-Ends s.block ys h (λ a. omega (arith, e a))

count_cons :
    (a : ℕ) (p : Option Str) (ps : List (Option Str))
    → count a (blocks_of (p ∷ ps)) ≡ count a (blocks_of (p ∷ [])) + count a (blocks_of ps)
count_cons a none ps = omega arith
count_cons a (some s) ps = omega arith

free_all-Ends :
    {S : Stop → Type 0} {Q : Unit {0} → World → Type 0} (ps : List (Option Str)) (k : M (Unit {0}))
    {xs : List ℕ} (ys : List ℕ) {w : World}
    → Holding xs w
    → ((a : ℕ) → count a xs ≡ count a (blocks_of ps) + count a ys)
    → ((w' : World) → Holding ys w' → Ends S Q (k w'))
    → Ends S Q (free_all ps k w)
unfolding free_all
free_all-Ends [] k ys {w} h e next = next w (record { same = λ a. omega (arith, h.same a, e a) })
free_all-Ends (p ∷ ps) k ys h e next =
    bind
      (free_if_set-Ends p (blocks_of ps ++ ys) h
        (λ a. omega (arith, e a, count_cons a p ps, count-append a (blocks_of ps) ys)))
      λ u w' h'. free_all-Ends ps k ys h' (λ a. count-append a (blocks_of ps) ys) next

destroy_eq : (b : BadActor) → bad_actor_destroy (some b) ≡ free_all (pointers b) (free b.self)
unfolding bad_actor_destroy free_all
destroy_eq b = refl

-- The destructor frees the struct and each string that it points to, exactly once, and no other
-- block: from a heap that holds those blocks and others it always returns, with the others left.
pub bad_actor_destroy-Holding :
    {S : Stop → Type 0} (b : BadActor) {xs : List ℕ} (ys : List ℕ) {w : World}
    → Holding xs w
    → ((a : ℕ) → count a xs ≡ count a (owned b) + count a ys)
    → Ends S (λ _ w'. Holding ys w') (bad_actor_destroy (some b) w)
bad_actor_destroy-Holding b ys h e = rw destroy_eq (
    free_all-Ends (pointers b) (free b.self) (b.self ∷ ys) h (λ a. omega (arith, e a))
      λ w' h'. free-Ends b.self ys h' (λ a. refl))

module _ (env : Env) (p1 p2 p3 p4 p5 p6 p7 p8 : Option Str) (id : String) where
  abbrev Built : List ℕ → BadActor → World → Type 0
  Built bs b w =
      (self : ℕ) × (timestamp : Str) × (uuid : Str) × (node_id : Str) × (b
        ≡ built self timestamp uuid node_id p1 p2 p3 p4 p5 p6 p7 p8)
      × Holding (node_id.block ∷ uuid.block ∷ timestamp.block ∷ self ∷ bs) w

  bad_actor_new-Built :
      {S : Stop → Type 0} {bs : List ℕ} {w : World}
      → Holding bs w
      → Ends S (Built bs) (bad_actor_new env p1 p2 p3 p4 p5 p6 p7 p8 (some id) w)
  unfolding bad_actor_new util_duplicate_string
  bad_actor_new-Built h = bind (malloc-Ends "" h) λ self w1 h1.
      bind (malloc-Ends "" h1.0) λ time w2 h2. bind (malloc-Ends "" h2.0) λ uuid w3 h3.
        bind (ask_text-Ends env clock_gettime h3.0) λ t1 w4 h4.
          bind (ask_text-Ends env uuid_generate h4)
            λ t2 w5 h5. bind (malloc-Ends id h5) λ node w6 h6. ended (_, _, _, _, refl, h6.0)

  -- The constructor allocates the struct and three strings, and nothing else.
  pub bad_actor_new-built :
      {S : Stop → Type 0} {B : Type 0} {Q : B → World → Type 0} (k : BadActor → M B) {bs : List ℕ}
      {w : World}
      → Holding bs w
      → ((self : ℕ) (timestamp uuid node_id : Str) (w' : World)
          → Holding (node_id.block ∷ uuid.block ∷ timestamp.block ∷ self ∷ bs) w'
          → Ends S Q (k (built self timestamp uuid node_id p1 p2 p3 p4 p5 p6 p7 p8) w'))
      → Ends S Q (and_then (bad_actor_new env p1 p2 p3 p4 p5 p6 p7 p8 (some id) w) k)
  bad_actor_new-built k h next =
      bind (bad_actor_new-Built h) λ b w' (self, timestamp, uuid, node_id, e, h').
        rw e (next self timestamp uuid node_id w' h')

-- How often a block is the target of one pointer.
pub pointer_count : ℕ → Option Str → ℕ
pointer_count a none = 0
pointer_count a (some s) = hit s.block a

count_pointer :
    (a : ℕ) (p : Option Str) (ps : List (Option Str))
    → count a (blocks_of (p ∷ ps)) ≡ pointer_count a p + count a (blocks_of ps)
unfolding pointer_count
count_pointer a none ps = omega arith
count_pointer a (some s) ps = omega arith

pub pointer_count-none : (a : ℕ) → pointer_count a none ≡ 0
unfolding pointer_count
pointer_count-none a = refl

pub pointer_count-some : (a : ℕ) (s : Str) → pointer_count a (some s) ≡ hit s.block a
unfolding pointer_count
pointer_count-some a s = refl

sum_pointers : ℕ → List (Option Str) → ℕ
sum_pointers a [] = 0
sum_pointers a (p ∷ ps) = pointer_count a p + sum_pointers a ps

count-blocks_of : (a : ℕ) (ps : List (Option Str)) → count a (blocks_of ps) ≡ sum_pointers a ps
unfolding sum_pointers
count-blocks_of a [] = refl
count-blocks_of a (p ∷ ps) = omega (arith, count_pointer a p ps, count-blocks_of a ps)

-- The blocks of a bad actor, field by field.
pub count-owned :
    (a : ℕ) (b : BadActor)
    → count a (owned b)
      ≡ hit b.self a
        + pointer_count a b.event_timestamp
        + pointer_count a b.event_uuid
        + pointer_count a b.source_ip
        + pointer_count a b.destination_ip
        + pointer_count a b.transport_type
        + pointer_count a b.collected_method
        + pointer_count a b.called_number
        + pointer_count a b.method
        + pointer_count a b.user_agent
        + pointer_count a b.sip_message
        + pointer_count a b.seen_last
        + pointer_count a b.seen_count
        + pointer_count a b.created_by_node_id
unfolding sum_pointers
count-owned a b = omega (arith, count-blocks_of a (pointers b))

pub null_count : (a : ℕ) {p : Option Str} → p ≡ none → pointer_count a p ≡ 0
null_count a e = rw e (pointer_count-none a)

pub some_count : (a : ℕ) {p : Option Str} {s : Str} → p ≡ some s → pointer_count a p ≡ hit s.block a
some_count a {s = s} e = rw e (pointer_count-some a s)

-- The heap holds what the bad actor owns, and the rest.
pub record Owns (b : BadActor) (bs : List ℕ) (w : World) : Type 0 where
  pub blocks : (a : ℕ) → count a w.live ≡ count a (owned b) + count a bs

destroy_each-Holding :
    {S : Stop → Type 0} (rows : List BadActor) {xs : List ℕ} (ys : List ℕ) {w : World}
    → Holding xs w
    → ((a : ℕ) → count a xs ≡ count a (owned_all rows) + count a ys)
    → Ends S (λ _ w'. Holding ys w') (destroy_each rows w)
unfolding destroy_each
destroy_each-Holding [] ys h e = ended (record { same = λ a. omega (arith, h.same a, e a) })
destroy_each-Holding (b ∷ rows) ys h e =
    bind
      (bad_actor_destroy-Holding b (owned_all rows ++ ys) h λ a.
        omega (
          arith,
          e a,
          count-append a (owned b) (owned_all rows),
          count-append a (owned_all rows) ys,
        ))
      λ _ w1 h1. destroy_each-Holding rows ys h1 (λ a. count-append a (owned_all rows) ys)

-- The loop over an array frees what each entry owns, and no other block. Without entries, what it reads
-- first is past the array's end.
pub bad_actors_destroy-Holding :
    {S : Stop → Type 0} (rows : List BadActor) {xs : List ℕ} (ys : List ℕ) {w : World}
    → (rows ≡ [] → S bad_read)
    → Holding xs w
    → ((a : ℕ) → count a xs ≡ count a (owned_all rows) + count a ys)
    → Ends S (λ _ w'. Holding ys w') (bad_actors_destroy rows w)
unfolding bad_actors_destroy
bad_actors_destroy-Holding [] ys empty h e = halted (empty refl)
bad_actors_destroy-Holding (b ∷ rows) ys empty h e = destroy_each-Holding (b ∷ rows) ys h e
