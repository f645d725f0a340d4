-- ===== src/Json/Memory.antt =====
-- The heap over `json_to_bad_actor`.
use sentry_peer.Base.{ℕ, ◌≡◌, refl, String, Option, none, some, List, ◌∷◌, arith}
use sentry_peer.World.{World, Env, Str, pure, and_then}
use sentry_peer.World.Ends.{
  Ends, ended, halted, Holding, Asserts, bind, branch, malloc-Ends, free-Ends,
}
use sentry_peer.Conf.Settings.{Config}
use sentry_peer.Actor.{BadActor, built, util_duplicate_string, free_if_set}
use sentry_peer.Actor.Memory.{Owns, bad_actor_new-built, count-owned, null_count, some_count}
use sentry_peer.Json.{
  Jansson, Package, bad_actor_keys, copy_member, with_members, read_members, actor_of_object,
  convert, json_to_bad_actor,
}

-- What a returned pointer adds to the heap.
abbrev pub Returned : List ℕ → Option BadActor → World → Type 0
Returned bs none w = Holding bs w
Returned bs (some b) w = Owns b bs w

module _ {Json : Type 0} (env : Env) (j : Jansson Json) (pkg : Package) where
  copied-Ends :
      (t : Option String) {bs : List ℕ} {w : World}
      → Holding bs w
      → Ends Asserts
          (λ p w'. (s : Str) × (p ≡ some s) × Holding (s.block ∷ bs) w')
          (and_then (util_duplicate_string t w) (λ s. pure (some s)))
  unfolding util_duplicate_string
  copied-Ends none h = halted tt
  copied-Ends (some t) h = bind (malloc-Ends t h) λ s w1 h1. ended (s, refl, h1.0)

  member-Ends :
      (json : Json) (key : String) {bs : List ℕ} {w : World}
      → Holding bs w
      → Ends Asserts
          (λ p w'. (s : Str) × (p ≡ some s) × Holding (s.block ∷ bs) w')
          (copy_member env j pkg json key w)
  unfolding copy_member
  member-Ends json key h = copied-Ends (j.string_member key json) h

  read_members-Owns :
      (json : Json) (b : BadActor) {bs : List ℕ} {w : World}
      → b.seen_last ≡ none
      → b.seen_count ≡ none
      → Holding (b.self ∷ bs) w
      → Ends Asserts (λ b' w'. Owns b' bs w') (read_members env j pkg json b w)
  unfolding read_members
  read_members-Owns json b last seen h =
      bind (member-Ends json "event_timestamp" h) λ p1 w1 (s1, e1, h1).
        bind (member-Ends json "event_uuid" h1) λ p2 w2 (s2, e2, h2).
          bind (member-Ends json "created_by_node_id" h2) λ p3 w3 (s3, e3, h3).
            bind (member-Ends json "collected_method" h3) λ p4 w4 (s4, e4, h4).
              bind (member-Ends json "transport_type" h4) λ p5 w5 (s5, e5, h5).
                bind (member-Ends json "source_ip" h5) λ p6 w6 (s6, e6, h6).
                  bind (member-Ends json "destination_ip" h6) λ p7 w7 (s7, e7, h7).
                    bind (member-Ends json "called_number" h7) λ p8 w8 (s8, e8, h8).
                      bind (member-Ends json "sip_method" h8) λ p9 w9 (s9, e9, h9).
                        bind (member-Ends json "sip_user_agent" h9) λ p10 w10 (s10, e10, h10).
                          bind (member-Ends json "sip_message" h10) λ p11 w11 (s11, e11, h11).
                            ended (record {
                              blocks = λ a. omega (
                                arith,
                                h11.same a,
                                count-owned a (with_members b p1 p2 p3 p4 p5 p6 p7 p8 p9 p10 p11),
                                some_count a e1,
                                some_count a e2,
                                some_count a e3,
                                some_count a e4,
                                some_count a e5,
                                some_count a e6,
                                some_count a e7,
                                some_count a e8,
                                some_count a e9,
                                some_count a e10,
                                some_count a e11,
                                null_count a last,
                                null_count a seen,
                              );
                            })

  actor_of_object-Owns :
      (config : Config) (json : Json) {bs : List ℕ} {w : World}
      → Holding bs w
      → Ends Asserts (λ b' w'. Owns b' bs w') (actor_of_object env j pkg config json w)
  unfolding actor_of_object free_if_set
  actor_of_object-Owns config json {bs} h =
      bad_actor_new-built env none none none none none none none none config.node_id _ h
        λ self timestamp uuid node w1 h1.
          bind
            (free-Ends timestamp.block (node.block ∷ uuid.block ∷ self ∷ bs) h1 (λ a. omega arith))
            λ _ w2 h2.
              bind (free-Ends uuid.block (node.block ∷ self ∷ bs) h2 (λ a. omega arith)) λ _ w3 h3.
                bind (free-Ends node.block (self ∷ bs) h3 (λ a. refl)) λ _ w4 h4.
                  read_members-Owns json
                    (built self timestamp uuid node none none none none none none none none) refl
                    refl h4

  loaded_Returned :
      (config : Config) (o : Option Json) {bs : List ℕ} {w : World}
      → Holding bs w
      → Ends Asserts (λ r w'. Returned bs r w') (convert env j pkg config o w)
  unfolding convert
  loaded_Returned config none h = ended h
  loaded_Returned config (some json) h =
      branch (j.validate bad_actor_keys json)
        (bind (actor_of_object-Owns config json h) λ b w1 h1. ended h1) (ended h)

  -- From a heap that holds some blocks, `json_to_bad_actor` frees none of them and stops at most by a
  -- failed assertion or an exit; where it returns a bad actor, the heap holds what that owns beside
  -- those blocks, and where it returns NULL just those blocks.
  pub json_to_bad_actor-Returned :
      (config : Config) (text : String) {bs : List ℕ} {w : World}
      → Holding bs w
      → Ends Asserts (λ r w'. Returned bs r w') (json_to_bad_actor env j pkg config text w)
  unfolding json_to_bad_actor
  json_to_bad_actor-Returned config text h = loaded_Returned config (j.loads text) h
