-- ===== src/Sip/NoLeak.antt =====
-- The heap over the logging of an event.
use sentry_peer.Base.{
  ℕ, ◌≡◌, refl, Bool, true, false, ◌&&◌, Option, none, some, List, [], ◌∷◌, ◌++◌, arith,
  count-append, ltb,
}
use sentry_peer.World.{
  World, Env, Stop, assert_failed, Block, Str, M, and_then, when, ◌>>=◌, pure, stop,
}
use sentry_peer.World.Calls.{
  Call, osip_sip_method, json_log_bad_actor_rs, json_http_post_bad_actor_rs,
  dht_value_new_from_string, dht_runner_put, fopen, fprintf, fclose,
}
use sentry_peer.World.Ends.{
  Ends, ended, halted, Holding, Keeps, bind, branch, check-Ends, call-Ends, emit-Ends, malloc-Ends,
  free-Ends,
}
use sentry_peer.Conf.Buffer.{c_string}
use sentry_peer.Conf.Settings.{Build, Config}
use sentry_peer.Actor.{BadActor, text_of, util_duplicate_string, bad_actor_destroy}
use sentry_peer.Actor.Memory.{
  Owns, owned, blocks_of, bad_actor_new-built, bad_actor_destroy-Holding,
}
use sentry_peer.Json.{
  Jansson, Package, bad_actor_members, dump_json, bad_actor_to_json, write_line, json_log_bad_actor,
}
use sentry_peer.Sip.Event.{SipEvent}
use sentry_peer.Sip.Log.{
  put_value, peer_to_peer_dht_save, log_json, post_webhook, bad_actor_log, collected, parse_bytes,
  parse_packet, log_parsed, sip_log_event,
}
use sentry_peer.Sip.Memory.{
  Unparsed, Owns-kept, db_insert-Keeps, sip_message_parser-Owns, duplicate-Ends,
}

module _ {S : Stop → Type 0} {Json : Type 0} (env : Env) (j : Jansson Json) (pkg : Package)
    (build : Build) where
  dump_json-Ends :
      (p : Option Json) {bs : List ℕ} {w : World}
      → Holding bs w
      → Ends S (λ o w'. Holding (blocks_of (o ∷ []) ++ bs) w') (dump_json env j pkg p w)
  unfolding dump_json
  dump_json-Ends none h = ended h
  dump_json-Ends (some json) h = bind (malloc-Ends (j.dumps json) h) λ s w1 h1. ended h1.0

  pub bad_actor_to_json-Ends :
      (b : BadActor) {bs : List ℕ} {w : World}
      → Holding bs w
      → Ends S (λ o w'. Holding (blocks_of (o ∷ []) ++ bs) w') (bad_actor_to_json env j pkg b w)
  unfolding bad_actor_to_json
  bad_actor_to_json-Ends b h = dump_json-Ends (j.pack (bad_actor_members pkg b)) h

  write_line-Ends :
      (o : Option Str) {bs : List ℕ} {w : World}
      → Holding (blocks_of (o ∷ []) ++ bs) w
      → Ends S (λ _ w'. Holding bs w') (write_line env j pkg o w)
  unfolding write_line
  write_line-Ends none h = bind (emit-Ends fclose h) λ _ w1 h1. ended h1
  write_line-Ends (some s) {bs} h =
      bind (emit-Ends (fprintf s.contents) h)
        λ _ w1 h1. bind (free-Ends s.block bs h1 (λ a. refl)) λ _ w2 h2. call-Ends env fclose h2

  json_log-Keeps :
      (config : Config) (b : BadActor) → Keeps S (json_log_bad_actor env j pkg config b)
  unfolding json_log_bad_actor
  json_log-Keeps config b bs w h =
      check-Ends (call-Ends env (fopen (c_string config.json_log_file)) h) (λ w' h'. ended h')
        λ w1 h1. bind (bad_actor_to_json-Ends b h1) λ o w2 h2. write_line-Ends o h2

  put_value-Ends :
      (ctx : ℕ) (o : Option Str) {bs : List ℕ} {w : World}
      → Holding (blocks_of (o ∷ []) ++ ctx ∷ bs) w
      → Ends S (λ _ w'. Holding bs w') (put_value env j pkg build ctx o w)
  unfolding put_value
  put_value-Ends ctx none {bs} h = bind (free-Ends ctx bs h (λ a. refl)) λ _ w1 h1. ended h1
  put_value-Ends ctx (some s) {bs} h =
      check-Ends (call-Ends env (dht_value_new_from_string s.contents) h)
        (λ w1 h1.
          bind (free-Ends s.block (ctx ∷ bs) h1 (λ a. refl))
            λ _ w2 h2. bind (free-Ends ctx bs h2 (λ a. refl)) λ _ w3 h3. ended h3)
        λ w1 h1. bind (emit-Ends (dht_runner_put s.contents) h1) λ _ w2 h2.
          bind (free-Ends s.block (ctx ∷ bs) h2 (λ a. refl))
            λ _ w3 h3. bind (free-Ends ctx bs h3 (λ a. refl)) λ _ w4 h4. ended h4

  dht_save-Keeps :
      (config : Config) (b : BadActor)
      → (config.dht_node ≡ false → S assert_failed)
      → Keeps S (peer_to_peer_dht_save env j pkg build config b)
  unfolding peer_to_peer_dht_save
  dht_save-Keeps config b null bs w h = bind (malloc-Ends tt h) λ ctx w1 h1.
      bind (running config.dht_node null h1.0)
        λ _ w2 h2. bind (bad_actor_to_json-Ends b h2) λ o w3 h3. put_value-Ends ctx.block o h3
    where
      running :
          {xs : List ℕ} {v : World} (d : Bool)
          → (d ≡ false → S assert_failed)
          → Holding xs v
          → Ends S (λ _ v'. Holding xs v') (when d (pure tt) (stop assert_failed) v)
      running true null hv = ended hv
      running false null hv = halted (null refl)

  log_json-Keeps : (config : Config) (b : BadActor) → Keeps S (log_json env j pkg build config b)
  unfolding log_json
  log_json-Keeps config b bs w h =
      branch build.have_rust
        (branch (config.new_mode && config.json_log_mode) (call-Ends env json_log_bad_actor_rs h)
          (ended h))
        (branch config.json_log_mode (json_log-Keeps config b bs w h) (ended h))

  module _ (post : Config → BadActor → M Bool) (config : Config)
      (post-Keeps : (b : BadActor) → Keeps S (post config b)) where
    post_webhook-Keeps : (b : BadActor) → Keeps S (post_webhook env j pkg build post config b)
    unfolding post_webhook
    post_webhook-Keeps b bs w h =
        branch build.have_rust
          (branch (config.new_mode && config.webhook_mode)
            (bind (call-Ends env json_http_post_bad_actor_rs h) λ _ w1 h1. ended h1) (ended h))
          (branch config.webhook_mode (bind (post-Keeps b bs w h) λ _ w1 h1. ended h1) (ended h))

    pub bad_actor_log-Keeps : (b : BadActor) → Keeps S (bad_actor_log env j pkg build post config b)
    unfolding bad_actor_log
    bad_actor_log-Keeps b bs w h =
        bind (branch config.syslog_mode (emit-Ends _ h) (ended h)) λ _ w1 h1.
          check-Ends (log_json-Keeps config b bs w1 h1) (λ w' h'. ended h')
            λ w2 h2.
              check-Ends (db_insert-Keeps env b config bs w2 h2) (λ w' h'. ended h')
                λ w3 h3. post_webhook-Keeps b bs w3 h3

    -- A bad actor that is destroyed leaves what was there besides.
    pub destroyed :
        (b : BadActor) (rc : Bool) {bs : List ℕ} {w : World}
        → Holding (owned b ++ bs) w
        → Ends S (λ _ w'. Holding bs w') (and_then (bad_actor_destroy (some b) w) (λ _. pure rc))
    destroyed b rc {bs} h =
        bind (bad_actor_destroy-Holding b bs h (λ a. count-append a (owned b) bs))
          λ _ w1 h1. ended h1

    log_parsed-Ends :
        (b : BadActor) {bs : List ℕ} {w : World}
        → (config.dht_node ≡ false → S assert_failed)
        → Holding (owned b ++ bs) w
        → Ends S (λ _ w'. Holding bs w') (log_parsed env j pkg build post config b w)
    unfolding log_parsed
    log_parsed-Ends b null h =
        check-Ends (bad_actor_log-Keeps b _ _ h) (λ w' h'. destroyed b false h')
          λ w1 h1.
            check-Ends
              (branch (build.have_opendht && config.p2p_dht_mode)
                (dht_save-Keeps config b null _ _ h1) (ended h1))
              (λ w' h'. destroyed b false h') λ w2 h2. destroyed b true h2

    module _ (method_null : (tr : List Call) → env.text tr osip_sip_method ≡ none → S assert_failed)
        (event : SipEvent) (packet_null : event.packet ≡ none → S assert_failed) where
      parse_bytes-Owns :
          (p : Option (Block (List ℕ))) (b : BadActor) {bs : List ℕ} {w : World}
          → event.packet ≡ p
          → Unparsed b
          → Holding (owned b ++ bs) w
          → Ends S
              (λ r w'. Owns r.1 bs w')
              (parse_bytes env j pkg build post p event.packet_len b w)
      unfolding parse_bytes
      parse_bytes-Owns none b e n h = halted (packet_null e)
      parse_bytes-Owns (some p) b e n h =
          sip_message_parser-Owns env method_null p.contents event.packet_len b n h

      parse_packet-Owns :
          (b : BadActor) {bs : List ℕ} {w : World}
          → Unparsed b
          → Holding (owned b ++ bs) w
          → Ends S (λ r w'. Owns r.1 bs w') (parse_packet env j pkg build post event b w)
      unfolding parse_packet
      parse_packet-Owns b n h =
          branch (ltb 0 event.packet_len) (parse_bytes-Owns event.packet b refl n h)
            (ended (Owns-kept b h))

      pointer-Ends :
          (p : Option Str) {bs : List ℕ} {w : World}
          → (p ≡ none → S assert_failed)
          → Holding bs w
          → Ends S (λ s w'. Holding (s.block ∷ bs) w') (util_duplicate_string (text_of p) w)
      unfolding util_duplicate_string
      pointer-Ends none null h = halted (null refl)
      pointer-Ends (some s) null h = duplicate-Ends env s.contents h

      logged :
          (r : Bool × BadActor) {bs : List ℕ} {w : World}
          → (config.dht_node ≡ false → S assert_failed)
          → Owns r.1 bs w
          → Ends S
              (λ _ w'. Holding bs w')
              (when r.0
                (log_parsed env j pkg build post config r.1)
                (bad_actor_destroy (some r.1) >>= λ _. pure false)
                w)
      logged r {bs} null o =
          let h = holds r.1 o in branch r.0 (log_parsed-Ends r.1 null h) (destroyed r.1 false h)
        where
          holds : {ys : List ℕ} {v : World} (b : BadActor) → Owns b ys v → Holding (owned b ++ ys) v
          holds {ys} b k = record {
            same = λ a. omega (arith, k.blocks a, count-append a (owned b) ys);
          }

      pub sip_log_event-Ends :
          (event.client_ip_addr_str ≡ none → S assert_failed)
          → (event.dest_ip_addr_str ≡ none → S assert_failed)
          → (event.transport_type ≡ none → S assert_failed)
          → (config.dht_node ≡ false → S assert_failed)
          → {bs : List ℕ} {w : World} → Holding bs w
          → Ends S (λ _ w'. Holding bs w') (sip_log_event env j pkg build post config event w)
      unfolding sip_log_event
      sip_log_event-Ends client dest transport null {bs} h =
          bind (pointer-Ends event.client_ip_addr_str client h) λ s1 w1 h1.
            bind (pointer-Ends event.dest_ip_addr_str dest h1) λ s2 w2 h2.
              bind (pointer-Ends event.transport_type transport h2) λ s3 w3 h3.
                bind (duplicate-Ends env (collected env j pkg build post config) h3) λ s4 w4 h4.
                  bad_actor_new-built env none (some s1) (some s2) none none (some s3) none
                    (some s4) config.node_id _ h4
                    λ self timestamp uuid node w5 h5.
                      bind
                        (parse_packet-Owns _ {bs = bs} (refl, refl, refl, refl)
                          (record { same = λ a. omega (arith, h5.same a) }))
                        λ r w6 h6. logged r null h6
