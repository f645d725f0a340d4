-- ===== src/Sip/Memory.antt =====
-- The heap over the parser, and over the insertion of a bad actor.
use sentry_peer.Base.{
  ℕ, ◌≡◌, refl, String, Bool, false, Option, none, some, List, [], ◌∷◌, ◌++◌, arith, count-append,
}
use sentry_peer.World.{World, Env, Stop, assert_failed, Str, M, and_then, ask_text, emit, pure}
use sentry_peer.World.Calls.{Call, sqlite_step, sqlite_finalize, sqlite_close}
use sentry_peer.World.Ends.{
  Ends, ended, halted, Holding, Keeps, bind, mono, check-Ends, call-Ends, ask_text-Ends, emit-Ends,
  malloc-Ends,
}
use sentry_peer.Actor.{BadActor, util_duplicate_string}
use sentry_peer.Actor.Memory.{
  Owns, null_count, owned, pointer_count-none, pointer_count-some, count-owned,
}
use sentry_peer.Conf.Settings.{Config}
use sentry_peer.Database.Insert.{insert_calls, each_or_close, insert_row, db_insert_bad_actor}
use sentry_peer.World.Calls.{
  osip_message_init, parser_init, osip_message_free, osip_message_parse, osip_message_to_str,
  osip_sip_method, osip_to, osip_to_url, osip_to_url_username, osip_user_agent_header,
}
use sentry_peer.Sip.Parser.{
  user_agent_or_not_found, called_number_text, take_fields, parse_result, sip_message_parser,
}

-- The bad actor before it is parsed: the four fields that the parser fills are null.
abbrev pub Unparsed : BadActor → Type 0
Unparsed b =
    (b.sip_message ≡ none) × (b.method ≡ none) × (b.called_number ≡ none) × (b.user_agent ≡ none)

-- The four strings of a parsed message belong to the bad actor that holds them.
Owns-filled :
    (b : BadActor) (sip_message method called_number user_agent : Str) {bs : List ℕ} {w : World}
    → Unparsed b
    → Holding
        (user_agent.block
          ∷ called_number.block
          ∷ method.block
          ∷ sip_message.block
          ∷ (owned b ++ bs))
        w
    → Owns
        (record b {
          sip_message = some sip_message;
          method = some method;
          called_number = some called_number;
          user_agent = some user_agent;
        })
        bs
        w
Owns-filled b s m c u {bs} (es, em, ec, eu) h = record {
  blocks = λ a. omega (
    arith,
    h.same a,
    count-append a (owned b) bs,
    count-owned a b,
    count-owned a (record b {
      sip_message = some s;
      method = some m;
      called_number = some c;
      user_agent = some u;
    }),
    pointer_count-some a s,
    pointer_count-some a m,
    pointer_count-some a c,
    pointer_count-some a u,
    null_count a es,
    null_count a em,
    null_count a ec,
    null_count a eu,
  );
}

pub Owns-kept : (b : BadActor) {bs : List ℕ} {w : World} → Holding (owned b ++ bs) w → Owns b bs w
Owns-kept b {bs} h = record { blocks = λ a. omega (arith, h.same a, count-append a (owned b) bs) }

Owns-nulled :
    (b : BadActor) {bs : List ℕ} {w : World}
    → Unparsed b
    → Holding (owned b ++ bs) w
    → Owns (record b { sip_message = none }) bs w
Owns-nulled b {bs} n h = record {
  blocks = λ a. omega (
    arith,
    h.same a,
    count-append a (owned b) bs,
    count-owned a b,
    count-owned a (record b { sip_message = none }),
    pointer_count-none a,
    null_count a n.0,
  );
}

module _ {S : Stop → Type 0} (env : Env) where
  each_or_close-Keeps : (cs : List Call) {k : M Bool} → Keeps S k → Keeps S (each_or_close env cs k)
  unfolding each_or_close
  each_or_close-Keeps [] kk bs w h = kk bs w h
  each_or_close-Keeps (c ∷ cs) kk bs w h =
      check-Ends (call-Ends env c h) (λ w' h'. bind (emit-Ends sqlite_close h') λ _ w2 h2. ended h2)
        λ w' h'. each_or_close-Keeps cs kk bs w' h'

  insert_row-Keeps : Keeps S (insert_row env)
  unfolding insert_row
  insert_row-Keeps bs w h =
      check-Ends (call-Ends env sqlite_step h)
        (λ w1 h1.
          bind (emit-Ends sqlite_finalize h1)
            λ _ w2 h2. bind (emit-Ends sqlite_close h2) λ _ w3 h3. ended h3)
        λ w1 h1.
          check-Ends (call-Ends env sqlite_finalize h1)
            (λ w2 h2. bind (emit-Ends sqlite_close h2) λ _ w3 h3. ended h3)
            λ w2 h2. call-Ends env sqlite_close h2

  pub db_insert-Keeps :
      (b : BadActor) (config : Config) → Keeps S (db_insert_bad_actor env b config)
  unfolding db_insert_bad_actor
  db_insert-Keeps b config = each_or_close-Keeps (insert_calls config b) insert_row-Keeps

  called_number_text-Keeps : Keeps S (called_number_text env)
  unfolding called_number_text
  called_number_text-Keeps bs w h =
      check-Ends (call-Ends env osip_to h) (λ w' h'. ended h')
        λ w1 h1.
          check-Ends (call-Ends env osip_to_url h1) (λ w' h'. ended h')
            λ w2 h2. bind (ask_text-Ends env osip_to_url_username h2) λ t w3 h3. ended h3

  pub duplicate-Ends :
      (t : String) {bs : List ℕ} {w : World}
      → Holding bs w
      → Ends S (λ s w'. Holding (s.block ∷ bs) w') (util_duplicate_string (some t) w)
  unfolding util_duplicate_string
  duplicate-Ends t h = mono (malloc-Ends t h) λ s w' h'. h'.0

  emit_any :
      (c : Call) {b : BadActor} {bs : List ℕ} {w : World}
      → Owns b bs w
      → Ends S (λ _ w'. Owns b bs w') (emit c w)
  unfolding emit
  emit_any c h = ended (record { blocks = h.blocks })

  -- libosip2 leaves the method of a message null in some messages; the copy's assertion then fails.
  module _
      (method_null : (tr : List Call) → env.text tr osip_sip_method ≡ none → S assert_failed) where
    method-Ends :
        {bs : List ℕ} {w : World} (tr : List Call) (t : Option String)
        → env.text tr osip_sip_method ≡ t
        → Holding bs w
        → Ends S (λ s w'. Holding (s.block ∷ bs) w') (util_duplicate_string t w)
    unfolding util_duplicate_string
    method-Ends tr none e h = halted (method_null tr e)
    method-Ends tr (some t) e h = mono (malloc-Ends t h) λ s w' h'. h'.0

    take_fields-Owns :
        (b : BadActor) (sip_message : Str) {bs : List ℕ} {w : World}
        → Unparsed b
        → Holding (sip_message.block ∷ (owned b ++ bs)) w
        → Ends S (λ b' w'. Owns b' bs w') (take_fields env b sip_message w)
    unfolding take_fields ask_text
    take_fields-Owns b s {w = w} n h =
        bind
          (method-Ends w.trace (env.text w.trace osip_sip_method) refl (record { same = h.same }))
          λ m w1 h1. bind (called_number_text-Keeps _ w1 h1) λ number w2 h2.
            bind (duplicate-Ends number h2) λ c w3 h3.
              bind (ask_text-Ends env osip_user_agent_header h3) λ agent w4 h4.
                bind (duplicate-Ends (user_agent_or_not_found agent) h4)
                  λ u w5 h5. ended (Owns-filled b s m c u n h5)

    parsed-Owns :
        (b : BadActor) (t : Option String) {bs : List ℕ} {w : World}
        → Unparsed b
        → Holding (owned b ++ bs) w
        → Ends S (λ r w'. Owns r.1 bs w') (parse_result env b t w)
    unfolding parse_result
    parsed-Owns b none n h =
        bind (emit-Ends osip_message_free h) λ _ w1 h1. ended (Owns-nulled b n h1)
    parsed-Owns b (some t) n h = bind (malloc-Ends t h) λ s w1 h1.
        bind (take_fields-Owns b s n h1.0)
          λ b' w2 h2. bind (emit_any osip_message_free h2) λ _ w3 h3. ended h3

    -- For a bad actor whose four parsed fields are null, on a heap that holds what it owns and other
    -- blocks: whatever libosip2 answers, the parser frees nothing, and where it returns, the heap holds
    -- what the bad actor then owns, and the other blocks. It stops at most by the assertion on a
    -- message without a method.
    pub sip_message_parser-Owns :
        (packet : List ℕ) (size : ℕ) (b : BadActor) {bs : List ℕ} {w : World}
        → Unparsed b
        → Holding (owned b ++ bs) w
        → Ends S (λ r w'. Owns r.1 bs w') (sip_message_parser env packet size b w)
    unfolding sip_message_parser
    sip_message_parser-Owns packet size b {bs} n h =
        check-Ends (call-Ends env osip_message_init h) fails λ w1 h1.
          check-Ends (call-Ends env parser_init h1) fails λ w2 h2.
            check-Ends (call-Ends env (osip_message_parse packet size) h2) fails λ w3 h3.
              bind (ask_text-Ends env osip_message_to_str h3) λ t w4 h4. parsed-Owns b t n h4
      where
        fails :
            (w' : World)
            → Holding (owned b ++ bs) w'
            → Ends S
                (λ (r : Bool × BadActor) w2. Owns r.1 bs w2)
                (and_then (emit osip_message_free w') (λ _. pure (false, b)))
        fails w' h' = bind (emit-Ends osip_message_free h') λ _ w2 h2. ended (Owns-kept b h2)
