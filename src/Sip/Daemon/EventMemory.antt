-- ===== src/Sip/Daemon/EventMemory.antt =====
-- Who frees the event of a packet in the loop of `sip_daemon_init`, src/sip_daemon.c.
use sentry_peer.Base.{ℕ, refl, ◌∙◌, Bool, Option, none, some, List, [], ◌∷◌, ◌++◌, ◌||◌}
use sentry_peer.World.{World, Env, Stop, Block, Str, M}
use sentry_peer.World.Calls.{sendto}
use sentry_peer.World.Ends.{
  Ends, ended, Holding, Keeps, Asserts, bind, branch, free-Ends, call-Ends,
}
use sentry_peer.Actor.{BadActor, free_if_set}
use sentry_peer.Actor.Memory.{blocks_of}
use sentry_peer.Conf.Settings.{Build, Config}
use sentry_peer.Json.{Jansson, Package}
use sentry_peer.Sip.Event.{SipEvent, free_packet, sip_message_event_destroy}
use sentry_peer.Sip.Logged.{sip_log_event-Asserts}
use sentry_peer.Sip.Daemon.Setup.{Network, Daemon}
use sentry_peer.Sip.Daemon.Packets.{
  Outcome, goes_on, continues, returns_failure, sip_send_reply, process_event,
}

abbrev packet_blocks : Option (Block (List ℕ)) → List ℕ
packet_blocks none = []
packet_blocks (some p) = p.block ∷ []

-- The struct and what it points to, and other blocks.
abbrev pub event_with : SipEvent → List ℕ → List ℕ
event_with e rest =
    packet_blocks e.packet
    ++ (blocks_of (e.transport_type ∷ [])
        ++ (blocks_of (e.client_ip_addr_str ∷ [])
            ++ (blocks_of (e.dest_ip_addr_str ∷ []) ++ (e.self ∷ rest))))

module _ {S : Stop → Type 0} where
  freed :
      (p : Option Str) {ys : List ℕ} {w : World}
      → Holding (blocks_of (p ∷ []) ++ ys) w
      → Ends S (λ _ w'. Holding ys w') (free_if_set p w)
  unfolding free_if_set
  freed none h = ended h
  freed (some s) {ys} h = free-Ends s.block ys h (λ a. refl)

  freed_packet :
      (p : Option (Block (List ℕ))) {ys : List ℕ} {w : World}
      → Holding (packet_blocks p ++ ys) w
      → Ends S (λ _ w'. Holding ys w') (free_packet p w)
  unfolding free_packet
  freed_packet none h = ended h
  freed_packet (some s) {ys} h = free-Ends s.block ys h (λ a. refl)

  sip_message_event_destroy-Holding :
      (e : SipEvent) (rest : List ℕ) {w : World}
      → Holding (event_with e rest) w
      → Ends S (λ _ w'. Holding rest w') (sip_message_event_destroy (some e) w)
  unfolding sip_message_event_destroy
  sip_message_event_destroy-Holding e rest h = bind (freed_packet e.packet h) λ _ w1 h1.
      bind (freed e.transport_type h1) λ _ w2 h2. bind (freed e.client_ip_addr_str h2) λ _ w3 h3.
        bind (freed e.dest_ip_addr_str h3) λ _ w4 h4. free-Ends e.self rest h4 (λ a. refl)

-- What is allocated afterwards: an event that was logged and answered is freed, any other is not.
abbrev pub EventFreed : SipEvent → List ℕ → Outcome → World → Type 0
EventFreed event rest (goes_on d) w = Holding rest w
EventFreed event rest (continues d) w = Holding (event_with event rest) w
EventFreed event rest returns_failure w = ⊥

module _ {Json : Type 0} (env : Env) (j : Jansson Json) (pkg : Package) (build : Build)
    (net : Network) (post : Config → BadActor → M Bool) (config : Config)
    (post-Keeps : (b : BadActor) → Keeps Asserts (post config b)) where
  reply-Holding :
      (event : SipEvent) {bs : List ℕ} {w : World}
      → Holding bs w
      → Ends Asserts
          (λ _ w'. Holding bs w')
          (sip_send_reply env j pkg build net post config event w)
  unfolding sip_send_reply
  reply-Holding event h = bind (call-Ends env (sendto event.socket) h) λ ok w1 h1.
      branch ok (ended h1) (branch (config.debug_mode || config.verbose_mode) (ended h1) (ended h1))

  -- If the POST leaves the heap as it is: from a heap that holds an event and other blocks, processing
  -- the event frees no block that is not allocated. Where the loop goes on with the same socket the
  -- event is freed and the other blocks are left; where logging or answering has failed and the loop
  -- continues with the next socket, all blocks of the event are still allocated, so they are lost.
  pub process_event-EventFreed :
      (event : SipEvent) (d : Daemon) (rest : List ℕ) (w : World)
      → Holding (event_with event rest) w
      → Ends Asserts
          (EventFreed event rest)
          (process_event env j pkg build net post config event d w)
  unfolding process_event
  process_event-EventFreed event d rest w h =
      bind (sip_log_event-Asserts env j pkg build post config post-Keeps event w) λ ok w1 kept.
        let h1 : Holding (event_with event rest) w1 = record {
          same = λ a. kept.same a ∙ h.same a;
        } in
        branch ok
          (bind (branch config.sip_responsive_mode (reply-Holding event h1) (ended h1))
            λ sent w2 h2.
              branch sent
                (bind (sip_message_event_destroy-Holding event rest h2) λ _ w3 h3. ended h3)
                (ended h2))
          (ended h1)
