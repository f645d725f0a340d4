-- ===== src/Sip/Event.antt =====
-- The struct `sip_message_event`, src/sip_message_event.h and src/sip_message_event.c. The client's
-- socket address is not followed; only its length is kept.
use sentry_peer.Base.{ℕ, Option, none, some, List}
use sentry_peer.World.{Block, Str, M, malloc, free, pure, ◌>>=◌, ◌>>◌}
use sentry_peer.Actor.{free_if_set}

-- `packet` holds the bytes before its NUL; the block has one byte more.
pub record SipEvent : Type 0 where
  pub self : ℕ
  pub packet : Option (Block (List ℕ))
  pub packet_len : ℕ
  pub socket : ℕ
  pub transport_type : Option Str
  pub client_ip_addr_str : Option Str
  pub client_addr_len : ℕ
  pub dest_ip_addr_str : Option Str

unfoldable pub sip_message_event_new :
    Option (Block (List ℕ)) → ℕ → ℕ → Option Str → Option Str → ℕ → Option Str → M SipEvent
sip_message_event_new packet packet_len socket transport_type client_ip_addr_str client_ip_addr_len
      dest_ip_addr_str =
    do
      self ← malloc {A = Unit {0}} tt
      pure (record {
        self = self.block;
        packet = packet;
        packet_len = packet_len;
        socket = socket;
        transport_type = transport_type;
        client_ip_addr_str = client_ip_addr_str;
        client_addr_len = client_ip_addr_len;
        dest_ip_addr_str = dest_ip_addr_str;
      })

unfoldable pub free_packet : Option (Block (List ℕ)) → M (Unit {0})
free_packet none = pure tt
free_packet (some p) = free p.block

unfoldable pub sip_message_event_destroy : Option SipEvent → M (Unit {0})
unfolding free_packet
sip_message_event_destroy none = pure tt
sip_message_event_destroy (some e) = do
  free_packet e.packet
  free_if_set e.transport_type
  free_if_set e.client_ip_addr_str
  free_if_set e.dest_ip_addr_str
  free e.self
