-- ===== src/Sip/Log.antt =====
-- `bad_actor_log` of src/bad_actor.c and `sip_log_event` of src/sip_daemon.c.
use sentry_peer.Base.{
  ℕ, List, String, Bool, true, false, ◌&&◌, Option, none, some, ltb, if◌then◌else◌,
}
use sentry_peer.World.{
  Env, Block, Str, M, free, call, emit, pure, check, when, ◌>>=◌, ◌>>◌, malloc, assert_failed, stop,
}
use sentry_peer.World.Calls.{
  syslog, json_log_bad_actor_rs, json_http_post_bad_actor_rs, dht_value_new_from_string,
  dht_runner_put,
}
use sentry_peer.Actor.{BadActor, text_of, util_duplicate_string, bad_actor_new, bad_actor_destroy}
use sentry_peer.Conf.Settings.{Build, Config}
use sentry_peer.Json.{Jansson, Package, bad_actor_to_json, json_log_bad_actor}
use sentry_peer.Database.Insert.{db_insert_bad_actor}
use sentry_peer.Sip.Event.{SipEvent}
use sentry_peer.Sip.Parser.{sip_message_parser}

-- The operation context of a DHT call, `struct op_context`, as far as its block.
abbrev pub op_context : M (Block (Unit {0}))
op_context = malloc tt

module _ {Json : Type 0} (env : Env) (j : Jansson Json) (pkg : Package) (build : Build) where
  -- The text as a value on the DHT; `ctx` is the block of the operation context.
  unfoldable pub put_value : ℕ → Option Str → M Bool
  put_value ctx none = do free ctx; pure false
  put_value ctx (some s) =
      check (call env (dht_value_new_from_string s.contents))
        (do free s.block; free ctx; pure false)
        (do emit (dht_runner_put s.contents); free s.block; free ctx; pure true)

  -- `peer_to_peer_dht_save` of src/peer_to_peer_dht.c. The context is freed by `dht_done_callback`,
  -- which the DHT calls once the value is stored; that call is taken to happen at once.
  unfoldable pub peer_to_peer_dht_save : Config → BadActor → M Bool
  unfolding put_value
  peer_to_peer_dht_save config b = do
    ctx ← op_context
    when config.dht_node (pure tt) (stop assert_failed)
    bad_actor_json ← bad_actor_to_json env j pkg b
    put_value ctx.block bad_actor_json

  -- The two JSON outputs. Built with Rust, they are made by the Rust half, and in the new mode only.
  unfoldable pub log_json : Config → BadActor → M Bool
  log_json config b =
      when build.have_rust
        (when (config.new_mode && config.json_log_mode) (call env json_log_bad_actor_rs)
          (pure true))
        (when config.json_log_mode (json_log_bad_actor env j pkg config b) (pure true))

  -- `json_http_post_bad_actor` is an argument. Whether the POST succeeds is not looked at.
  module _ (json_http_post_bad_actor : Config → BadActor → M Bool) where
    unfoldable pub post_webhook : Config → BadActor → M Bool
    post_webhook config b =
        when build.have_rust
          (when (config.new_mode && config.webhook_mode)
            (call env json_http_post_bad_actor_rs >>= λ _. pure true) (pure true))
          (when config.webhook_mode (json_http_post_bad_actor config b >>= λ _. pure true)
            (pure true))

    -- EXIT_SUCCESS is `true`.
    unfoldable pub bad_actor_log : Config → BadActor → M Bool
    unfolding log_json post_webhook
    bad_actor_log config b = do
      when config.syslog_mode
          (emit (syslog (text_of b.source_ip) (text_of b.method) (text_of b.user_agent))) (pure tt)
      check (log_json config b) (pure false)
          (check (db_insert_bad_actor env b config) (pure false) (post_webhook config b))

    -- `collected_method`
    abbrev pub collected : Config → String
    collected config = if config.sip_responsive_mode then "responsive" else "passive"

    -- The parser is given the packet's pointer, which it reads.
    unfoldable pub parse_bytes : Option (Block (List ℕ)) → ℕ → BadActor → M (Bool × BadActor)
    parse_bytes none size b = stop assert_failed
    parse_bytes (some p) size b = sip_message_parser env p.contents size b

    -- The packet is parsed only if its length is positive.
    unfoldable pub parse_packet : SipEvent → BadActor → M (Bool × BadActor)
    unfolding parse_bytes
    parse_packet event b =
        when (ltb 0 event.packet_len) (parse_bytes event.packet event.packet_len b) (pure (true, b))

    -- What follows the parsing: the logs, then the DHT, and the bad actor is destroyed.
    unfoldable pub log_parsed : Config → BadActor → M Bool
    log_parsed config b =
        check (bad_actor_log config b) (do bad_actor_destroy (some b); pure false)
          (check
            (when (build.have_opendht && config.p2p_dht_mode) (peer_to_peer_dht_save config b)
              (pure true))
            (do bad_actor_destroy (some b); pure false) (do bad_actor_destroy (some b); pure true))

    unfoldable pub sip_log_event : Config → SipEvent → M Bool
    unfolding parse_packet log_parsed
    sip_log_event config event = do
      source_ip ← util_duplicate_string (text_of event.client_ip_addr_str)
      destination_ip ← util_duplicate_string (text_of event.dest_ip_addr_str)
      transport_type ← util_duplicate_string (text_of event.transport_type)
      collected_method ← util_duplicate_string (some (collected config))
      b ←
          bad_actor_new env none (some source_ip) (some destination_ip) none none
            (some transport_type) none (some collected_method) (some config.node_id)
      (parsed, b') ← parse_packet event b
      when parsed (log_parsed config b') (do bad_actor_destroy (some b'); pure false)
