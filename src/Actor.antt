-- ===== src/Actor.antt =====
-- The struct `bad_actor` with its constructor and destructor, src/bad_actor.h and src/bad_actor.c, and
-- the string copy that they use, `util_duplicate_string` of src/utils.c.
pub mod Memory
use Prim.Native.String.{String}
use mathlib.Core.Option.{get_or}
use sentry_peer.Base.{ℕ, Option, none, some, List, [], ◌∷◌}
use sentry_peer.World.{
  World, Env, Stop, assert_failed, bad_read, Block, Str, M, done, stopped, malloc, free, ask_text,
  pure, stop, ◌>>=◌, ◌>>◌,
}
use sentry_peer.World.Calls.{clock_gettime, uuid_generate}

-- `self` is the block of the struct.
pub record BadActor : Type 0 where
  pub self : ℕ
  pub event_timestamp : Option Str
  pub event_uuid : Option Str
  pub collected_method : Option Str
  pub created_by_node_id : Option Str
  pub sip_message : Option Str
  pub source_ip : Option Str
  pub destination_ip : Option Str
  pub called_number : Option Str
  pub method : Option Str
  pub transport_type : Option Str
  pub user_agent : Option Str
  pub seen_last : Option Str
  pub seen_count : Option Str

-- The assertion fails on the null pointer.
unfoldable pub util_duplicate_string : Option String → M Str
util_duplicate_string none = stop assert_failed
util_duplicate_string (some t) = malloc t

-- The text of a pointer's target.
abbrev pub text_of : Option Str → Option String
text_of none = none
text_of (some s) = some s.contents

-- The struct as the constructor fills it: three strings of its own, and the caller's pointers.
abbrev pub built :
    ℕ
    → Str
    → Str
    → Str
    → Option Str
    → Option Str
    → Option Str
    → Option Str
    → Option Str
    → Option Str
    → Option Str
    → Option Str
    → BadActor
built self timestamp uuid node_id sip_message source_ip destination_ip called_number method
      transport_type user_agent collected_method =
    record {
      self = self;
      event_timestamp = some timestamp;
      event_uuid = some uuid;
      collected_method = collected_method;
      created_by_node_id = some node_id;
      sip_message = sip_message;
      source_ip = source_ip;
      destination_ip = destination_ip;
      called_number = called_number;
      method = method;
      transport_type = transport_type;
      user_agent = user_agent;
      seen_last = none;
      seen_count = none;
    }

-- A buffer that a call has filled.
abbrev pub filled : ℕ → Option String → Str
filled b t = record { block = b; contents = get_or t "" }

module _ (env : Env) where
  -- The arguments are the pointers that the caller hands over.
  unfoldable pub bad_actor_new :
      Option Str
      → Option Str
      → Option Str
      → Option Str
      → Option Str
      → Option Str
      → Option Str
      → Option Str
      → Option String
      → M BadActor
  bad_actor_new sip_message source_ip destination_ip called_number method transport_type user_agent
        collected_method created_by_node_id =
      do
        self ← malloc {A = String} ""
        time_str ← malloc {A = String} ""
        uuid_string ← malloc {A = String} ""
        timestamp ← ask_text env clock_gettime
        uuid ← ask_text env uuid_generate
        node_id ← util_duplicate_string created_by_node_id
        pure (
            built self.block (filled time_str.block timestamp) (filled uuid_string.block uuid)
              node_id sip_message source_ip destination_ip called_number method transport_type
              user_agent collected_method)

-- `if (p != 0) { free(p); p = 0; }`
unfoldable pub free_if_set : Option Str → M (Unit {0})
free_if_set none = pure tt
free_if_set (some s) = free s.block

unfoldable pub bad_actor_destroy : Option BadActor → M (Unit {0})
bad_actor_destroy none = pure tt
bad_actor_destroy (some b) = do
  free_if_set b.event_timestamp
  free_if_set b.event_uuid
  free_if_set b.source_ip
  free_if_set b.destination_ip
  free_if_set b.transport_type
  free_if_set b.collected_method
  free_if_set b.called_number
  free_if_set b.method
  free_if_set b.user_agent
  free_if_set b.sip_message
  free_if_set b.seen_last
  free_if_set b.seen_count
  free_if_set b.created_by_node_id
  free b.self

-- The loop over an array of row_count entries.
unfoldable pub destroy_each : List BadActor → M (Unit {0})
unfolding bad_actor_destroy
destroy_each [] = pure tt
destroy_each (b ∷ bs) = do bad_actor_destroy (some b); destroy_each bs

-- `if (*bad_actors)` reads the first entry, which an array of no entries does not have.
unfoldable pub bad_actors_destroy : List BadActor → M (Unit {0})
unfolding destroy_each
bad_actors_destroy [] = stop bad_read
bad_actors_destroy (b ∷ bs) = destroy_each (b ∷ bs)
