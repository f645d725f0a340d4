-- ===== src/Sip/Aborts.antt =====
-- Messages on which the parser of src/sip_parser.c stops the program.
use sentry_peer.Base.{ℕ, ◌+◌, ◌≡◌, true, none, some, String, List, [], ◌∷◌}
use sentry_peer.World.{World, Env, stopped, malloc, call, ask_text, assert_failed}
use sentry_peer.World.Calls.{
  Call, osip_message_init, parser_init, osip_message_parse, osip_message_to_str, osip_sip_method,
}
use sentry_peer.World.Script.{visited, all_succeed, both}
use sentry_peer.Actor.{BadActor, util_duplicate_string}
use sentry_peer.Sip.Parser.{take_fields, parse_result, sip_message_parser}

-- The calls of libosip2 before the text of the message.
abbrev pub parsing_calls : List ℕ → ℕ → List Call
parsing_calls packet size = osip_message_init ∷ parser_init ∷ osip_message_parse packet size ∷ []

module _ (env : Env) where
  -- If libosip2 parses a packet and prints it, and the message has no method, as a SIP response has none,
  -- then the parser does not return: the assertion of `util_duplicate_string` fails.
  pub sip_message_parser-aborts :
      (packet : List ℕ) (size : ℕ) (b : BadActor) (text : String) (w : World)
      → all_succeed env (parsing_calls packet size) w.trace ≡ true
      → env.text (visited (parsing_calls packet size) w.trace) osip_message_to_str ≡ some text
      → env.text (osip_message_to_str ∷ visited (parsing_calls packet size) w.trace) osip_sip_method
        ≡ none
      → (w' : World) × (sip_message_parser env packet size b w ≡ stopped assert_failed w')
  unfolding sip_message_parser parse_result take_fields all_succeed visited call ask_text malloc
      util_duplicate_string
  sip_message_parser-aborts packet size b text w h printed no_method =
      let (e1, h1) = both (env.succeeds w.trace osip_message_init) h in
      let (e2, h2) = both (env.succeeds (osip_message_init ∷ w.trace) parser_init) h1 in
      let (e3, h3) =
        both
          (env.succeeds (parser_init ∷ osip_message_init ∷ w.trace)
            (osip_message_parse packet size))
          h2 in
      (
        record w {
          trace =
              osip_sip_method ∷ osip_message_to_str ∷ visited (parsing_calls packet size) w.trace;
          live = w.next ∷ w.live;
          next = w.next + 1;
        },
        rw (e1, e2, e3, printed, no_method),
      )
