-- ===== src/Sip/Logged.antt =====
-- What `sip_log_event` guarantees about the heap and about failing.
use sentry_peer.Base.{◌≡◌, refl, ◌≢◌, Bool, true, none, List}
use sentry_peer.World.{World, Env, M}
use sentry_peer.World.Calls.{Call, osip_sip_method}
use sentry_peer.World.Ends.{Ends, Holding, Keeps, Asserts, Never}
use sentry_peer.Conf.Settings.{Build, Config}
use sentry_peer.Actor.{BadActor}
use sentry_peer.Json.{Jansson, Package}
use sentry_peer.Sip.Event.{SipEvent}
use sentry_peer.Sip.Log.{sip_log_event}
use sentry_peer.Sip.NoLeak.{sip_log_event-Ends}

module _ {Json : Type 0} (env : Env) (j : Jansson Json) (pkg : Package) (build : Build) where
  pub sip_log_event-Asserts :
      (post : Config → BadActor → M Bool)
      → (config : Config) → ((b : BadActor) → Keeps Asserts (post config b))
      → (event : SipEvent) (w : World)
      → Ends Asserts (λ _ w'. Holding w.live w') (sip_log_event env j pkg build post config event w)
  sip_log_event-Asserts post config keeps event w =
      sip_log_event-Ends env j pkg build post config keeps (λ _ _. tt) event (λ _. tt) (λ _. tt)
        (λ _. tt) (λ _. tt) (λ _. tt) (record { same = λ a. refl })

  -- If the event's four pointers are set, libosip2 gives every message a method, the DHT node is
  -- running, and the POST always returns with the heap as it was, then `sip_log_event` always returns,
  -- and exactly the blocks of before are allocated.
  pub sip_log_event-Never :
      (post : Config → BadActor → M Bool)
      → (config : Config) → ((b : BadActor) → Keeps Never (post config b))
      → ((tr : List Call) → env.text tr osip_sip_method ≢ none)
      → (event : SipEvent) (w : World) → event.packet ≢ none
      → event.client_ip_addr_str ≢ none
      → event.dest_ip_addr_str ≢ none
      → event.transport_type ≢ none
      → config.dht_node ≡ true
      → Ends Never (λ _ w'. Holding w.live w') (sip_log_event env j pkg build post config event w)
  sip_log_event-Never post config keeps method event w packet client dest transport node =
      sip_log_event-Ends env j pkg build post config keeps (λ tr e. method tr e) event
        (λ e. packet e) (λ e. client e) (λ e. dest e) (λ e. transport e) (λ e. cc)
        (record { same = λ a. refl })
