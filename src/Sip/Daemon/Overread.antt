-- ===== src/Sip/Daemon/Overread.antt =====
-- Datagrams that fill the packet buffer of `sip_daemon_init`, src/sip_daemon.c.
use sentry_peer.Base.{
  ℕ, zero, suc, ◌≤◌, ◌≡◌, refl, sym, subst, String, Option, none, some, List, [], ◌∷◌, arith, take,
  Bool,
}
use sentry_peer.World.{World, Env, Stop, Str, M, bad_read, malloc, ask_text}
use sentry_peer.World.Calls.{Call, getnameinfo, recvmsg}
use sentry_peer.World.Ends.{Ends, ended, halted, bind}
use sentry_peer.Actor.{BadActor, util_duplicate_string}
use sentry_peer.Conf.Settings.{Build, Config}
use sentry_peer.Conf.Buffer.{strlen}
use sentry_peer.Json.{Jansson, Package}
use sentry_peer.Sip.Daemon.Setup.{Network, Daemon}
use sentry_peer.Sip.Daemon.Packets.{
  packet_buffer_size, duplicate_packet, copy_destinations, truncated, ask_packet, read_destinations,
  make_event, udp_event, udp_packet,
}

-- A read out of bounds is the only stop.
abbrev pub Overreads : Stop → Type 0
Overreads s = s ≡ bad_read

strlen-take : (n : ℕ) (bytes : List ℕ) → n ≤ strlen bytes → strlen (take n bytes) ≡ n
unfolding strlen
strlen-take zero bytes h = refl
strlen-take (suc n) [] h = ground arith
strlen-take (suc n) (b ∷ bytes) h = ground (arith, strlen-take n bytes)

copied-Ends :
    (ts : List String) (dest : Option Str) (w : World)
    → Ends Overreads (λ _ _. Unit {0}) (copy_destinations ts dest w)
unfolding copy_destinations util_duplicate_string malloc
copied-Ends [] dest w = ended tt
copied-Ends (t ∷ ts) dest w = copied-Ends ts _ _

module _ {Json : Type 0} (env : Env) (j : Jansson Json) (pkg : Package) (build : Build)
    (net : Network) (post : Config → BadActor → M Bool) (config : Config) where
  duplicate-Overreads :
      (bytes : List ℕ) (w : World)
      → packet_buffer_size ≤ strlen bytes
      → Ends Overreads (λ _ _. ⊥) (duplicate_packet (take packet_buffer_size bytes) w)
  unfolding duplicate_packet
  duplicate-Overreads bytes w long = rw (strlen-take packet_buffer_size bytes long) (halted refl)

  event-Overreads :
      (d : Daemon) (dest : Option Str) (o : Option (List ℕ)) (sender : Option String) (w : World)
      {bytes : List ℕ} {client : String}
      → o ≡ some bytes
      → packet_buffer_size ≤ strlen bytes
      → sender ≡ some client
      → Ends Overreads
          (λ _ _. ⊥)
          (udp_event env j pkg build net post config d (truncated o) dest sender w)
  unfolding udp_event truncated make_event
  event-Overreads d dest none sender w came long named = absurd (cc)
  event-Overreads d dest (some packet) none w came long named = absurd (cc)
  event-Overreads d dest (some packet) (some name) w {bytes} came long named =
      bind
        (bind
          (duplicate-Overreads packet w
            (subst (λ o. packet_buffer_size ≤ length_of o) (sym came) long))
          λ _ _ f. absurd f)
        λ _ _ f. absurd f
    where
      length_of : Option (List ℕ) → ℕ
      length_of none = 0
      length_of (some p) = strlen p

  -- A datagram with at least 1024 bytes before its first NUL, whose sender has a name: whatever
  -- headers come with it, the daemon does not get past it, but reads beyond the end of its buffer.
  pub udp_packet-Overreads :
      (d : Daemon) (bytes : List ℕ) (client : String) (w : World)
      → net.packet w.trace (recvmsg d.socket_listen_udp) ≡ some bytes
      → packet_buffer_size ≤ strlen bytes
      → ((tr : List Call) → env.text tr getnameinfo ≡ some client)
      → Ends Overreads (λ _ _. ⊥) (udp_packet env j pkg build net post config d w)
  unfolding udp_packet ask_packet read_destinations ask_text
  udp_packet-Overreads d bytes client w came long named =
      bind (copied-Ends (net.destinations _) d.dest_ip_address_buffer _) λ dest w1 _.
        event-Overreads d dest (net.packet w.trace (recvmsg d.socket_listen_udp)) _ _ came long
          (named w1.trace)
