-- ===== src/Json/RoundTrip.antt =====
-- A bad actor that is written as JSON by one node and read by another.
use sentry_peer.Base.{
  ℕ, arith, ◌≡◌, refl, String, true, Option, none, some, List, [], ◌∷◌, str_eq, if◌then◌else◌,
}
use sentry_peer.World.{World, Env, malloc, and_then}
use sentry_peer.World.Ends.{Ends, ended, Holding, Never, bind, free-Ends}
use sentry_peer.Conf.Settings.{Config}
use sentry_peer.Actor.{BadActor, built, text_of, util_duplicate_string, free_if_set}
use sentry_peer.Actor.Memory.{bad_actor_new-built}
use sentry_peer.Json.{
  Jansson, Package, or_empty, bad_actor_members, bad_actor_keys, copy_member, read_members,
  actor_of_object, convert, dump_json, json_to_bad_actor, bad_actor_to_json,
}

-- The eleven texts that travel, with the empty text for a null pointer.
pub record SameTexts (b b' : BadActor) : Type 0 where
  pub event_timestamp : text_of b'.event_timestamp ≡ some (or_empty b.event_timestamp)
  pub event_uuid : text_of b'.event_uuid ≡ some (or_empty b.event_uuid)
  pub created_by_node_id : text_of b'.created_by_node_id ≡ some (or_empty b.created_by_node_id)
  pub collected_method : text_of b'.collected_method ≡ some (or_empty b.collected_method)
  pub transport_type : text_of b'.transport_type ≡ some (or_empty b.transport_type)
  pub source_ip : text_of b'.source_ip ≡ some (or_empty b.source_ip)
  pub destination_ip : text_of b'.destination_ip ≡ some (or_empty b.destination_ip)
  pub called_number : text_of b'.called_number ≡ some (or_empty b.called_number)
  pub method : text_of b'.method ≡ some (or_empty b.method)
  pub user_agent : text_of b'.user_agent ≡ some (or_empty b.user_agent)
  pub sip_message : text_of b'.sip_message ≡ some (or_empty b.sip_message)

-- The members that a reader finds in an object of strings.
unfoldable pub lookup : String → List (String × String) → Option String
lookup key [] = none
lookup key ((k, v) ∷ rest) = let found = lookup key rest in if str_eq k key then some v else found

-- An object with the members of this bad actor.
abbrev pub Describes : {Json : Type 0} → Jansson Json → Package → BadActor → Json → Type 0
Describes j pkg b json =
    (key : String) → j.string_member key json ≡ lookup key (bad_actor_members pkg b)

-- The pointer of a bad actor with the same texts.
abbrev pub Recovered : BadActor → Option BadActor → Type 0
Recovered b none = ⊥
Recovered b (some b') = SameTexts b b'

module _ {Json : Type 0} (env : Env) (j : Jansson Json) (pkg : Package) where
  member_read :
      (json : Json) (key t : String) (w : World)
      → j.string_member key json ≡ some t
      → Ends Never (λ p w'. text_of p ≡ some t) (copy_member env j pkg json key w)
  unfolding copy_member util_duplicate_string malloc
  member_read json key t w e = rw e (ended refl)

  read_members-SameTexts :
      (json : Json) (b fresh : BadActor) (w : World)
      → Describes j pkg b json
      → Ends Never (λ b' w'. SameTexts b b') (read_members env j pkg json fresh w)
  unfolding read_members lookup bad_actor_members
  read_members-SameTexts json b fresh w member =
      bind
        (member_read json "event_timestamp" (or_empty b.event_timestamp) _
          (member "event_timestamp"))
        λ p1 w1 e1.
          bind (member_read json "event_uuid" (or_empty b.event_uuid) _ (member "event_uuid"))
            λ p2 w2 e2.
              bind
                (member_read json "created_by_node_id" (or_empty b.created_by_node_id) _
                  (member "created_by_node_id"))
                λ p3 w3 e3.
                  bind
                    (member_read json "collected_method" (or_empty b.collected_method) _
                      (member "collected_method"))
                    λ p4 w4 e4.
                      bind
                        (member_read json "transport_type" (or_empty b.transport_type) _
                          (member "transport_type"))
                        λ p5 w5 e5.
                          bind
                            (member_read json "source_ip" (or_empty b.source_ip) _
                              (member "source_ip"))
                            λ p6 w6 e6.
                              bind
                                (member_read json "destination_ip" (or_empty b.destination_ip) _
                                  (member "destination_ip"))
                                λ p7 w7 e7.
                                  bind
                                    (member_read json "called_number" (or_empty b.called_number) _
                                      (member "called_number"))
                                    λ p8 w8 e8.
                                      bind
                                        (member_read json "sip_method" (or_empty b.method) _
                                          (member "sip_method"))
                                        λ p9 w9 e9.
                                          bind
                                            (member_read json "sip_user_agent"
                                              (or_empty b.user_agent) _ (member "sip_user_agent"))
                                            λ p10 w10 e10.
                                              bind
                                                (member_read json "sip_message"
                                                  (or_empty b.sip_message) _ (member "sip_message"))
                                                λ p11 w11 e11. ended (record {
                                                  event_timestamp = e1;
                                                  event_uuid = e2;
                                                  created_by_node_id = e3;
                                                  collected_method = e4;
                                                  transport_type = e5;
                                                  source_ip = e6;
                                                  destination_ip = e7;
                                                  called_number = e8;
                                                  method = e9;
                                                  user_agent = e10;
                                                  sip_message = e11;
                                                })

  actor_of_object-SameTexts :
      (config : Config) (json : Json) (b : BadActor) {bs : List ℕ} {w : World}
      → Describes j pkg b json
      → Holding bs w
      → Ends Never (λ b' w'. SameTexts b b') (actor_of_object env j pkg config json w)
  unfolding actor_of_object free_if_set
  actor_of_object-SameTexts config json b {bs} member h =
      bad_actor_new-built env none none none none none none none none config.node_id _ h
        λ self timestamp uuid node w1 h1.
          bind
            (free-Ends timestamp.block (node.block ∷ uuid.block ∷ self ∷ bs) h1 (λ a. omega arith))
            λ _ w2 h2.
              bind (free-Ends uuid.block (node.block ∷ self ∷ bs) h2 (λ a. omega arith)) λ _ w3 h3.
                bind (free-Ends node.block (self ∷ bs) h3 (λ a. refl)) λ _ w4 h4.
                  read_members-SameTexts json b
                    (built self timestamp uuid node none none none none none none none none) w4
                    member

  converted-Recovered :
      (config : Config) (json : Json) (b : BadActor) {o : Option Json} (w : World)
      → Describes j pkg b json
      → j.validate bad_actor_keys json ≡ true
      → o ≡ some json
      → Ends Never (λ r w'. Recovered b r) (convert env j pkg config o w)
  unfolding convert
  converted-Recovered config json b w member valid e =
      rw (e, convert, valid)
        (bind (actor_of_object-SameTexts config json b member (record { same = λ a. refl }))
          λ b' w1 h1. ended h1)

  -- If `json_pack` makes an object with the members it is given, which passes the validation, and the
  -- library reads an object back from its own text, then a bad actor that is written as JSON and read
  -- by any node comes back, without a failed assertion, with the same eleven texts, where a null
  -- pointer has become the empty text.
  pub json_to_bad_actor-bad_actor_to_json :
      (config : Config) (json : Json) (b : BadActor) (w : World)
      → j.pack (bad_actor_members pkg b) ≡ some json
      → Describes j pkg b json
      → j.validate bad_actor_keys json ≡ true
      → j.loads (j.dumps json) ≡ some json
      → Ends Never
          (λ r w'. Recovered b r)
          (and_then
            (bad_actor_to_json env j pkg b w)
            (λ text. json_to_bad_actor env j pkg config (or_empty text)))
  unfolding bad_actor_to_json dump_json json_to_bad_actor malloc
  json_to_bad_actor-bad_actor_to_json config json b w packed member valid loaded =
      rw (packed, dump_json) (converted-Recovered config json b _ member valid loaded)
