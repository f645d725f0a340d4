-- ===== src/Sip/Daemon/Watched/Runs.antt =====
-- Runs that do not end by their fuel: on the heap, of calls, and of what a packet goes through.
use sentry_peer.Base.{ℕ, remove, ltb, Option, none, some, List, [], ◌∷◌, String}
use sentry_peer.World.{
  World, Env, Stop, bad_free, bad_read, bad_write, assert_failed, exit_with, killed, stack_overflow,
  out_of_fuel, Run, done, stopped, Block, Str, malloc, free, call, emit, ask_text,
}
use sentry_peer.World.Calls.{Call}
use sentry_peer.World.Ends.{Ends, ended, halted, Asserts, bind, branch}
use sentry_peer.Actor.{util_duplicate_string, free_if_set}
use sentry_peer.Conf.Buffer.{strlen}
use sentry_peer.Sip.Event.{SipEvent, sip_message_event_new, free_packet, sip_message_event_destroy}
use sentry_peer.Sip.Daemon.Setup.{Network}
use sentry_peer.Sip.Daemon.Packets.{
  packet_buffer_size, duplicate_packet, copy_destinations, ask_packet, read_destinations,
}

-- Every stop but the end of the fuel.
abbrev pub Fueled : Stop → Type 0
Fueled out_of_fuel = ⊥
Fueled _ = Unit {0}

-- A run that does not end by its fuel, whatever it returns.
abbrev pub Runs : {A : Type 0} → Run A → Type 0
Runs run = Ends Fueled (λ _ _. Unit {0}) run

pub free-Runs : (b : ℕ) (w : World) → Runs (free b w)
unfolding free
free-Runs b w = removed (remove b w.live)
  where
    removed :
        (r : Option (List ℕ))
        → Runs
            (elim r [ none ↦ stopped bad_free w | some live ↦ done tt (record w { live = live }) ])
    removed none = halted tt
    removed (some live) = ended tt

free_if_set-Runs : (p : Option Str) (w : World) → Runs (free_if_set p w)
unfolding free_if_set
free_if_set-Runs none w = ended tt
free_if_set-Runs (some s) w = free-Runs s.block w

free_packet-Runs : (p : Option (Block (List ℕ))) (w : World) → Runs (free_packet p w)
unfolding free_packet
free_packet-Runs none w = ended tt
free_packet-Runs (some s) w = free-Runs s.block w

pub destroy-Runs : (e : SipEvent) (w : World) → Runs (sip_message_event_destroy (some e) w)
unfolding sip_message_event_destroy
destroy-Runs e w = bind (free_packet-Runs e.packet w) λ _ w1 _.
    bind (free_if_set-Runs e.transport_type w1) λ _ w2 _.
      bind (free_if_set-Runs e.client_ip_addr_str w2)
        λ _ w3 _. bind (free_if_set-Runs e.dest_ip_addr_str w3) λ _ w4 _. free-Runs e.self w4

pub call-Runs : (env : Env) (c : Call) (w : World) → Runs (call env c w)
unfolding call
call-Runs env c w = ended tt

pub emit-Runs : (c : Call) (w : World) → Runs (emit c w)
unfolding emit
emit-Runs c w = ended tt

pub ask_text-Runs : (env : Env) (c : Call) (w : World) → Runs (ask_text env c w)
unfolding ask_text
ask_text-Runs env c w = ended tt

pub duplicate-Runs : (t : Option String) (w : World) → Runs (util_duplicate_string t w)
unfolding util_duplicate_string malloc
duplicate-Runs none w = halted tt
duplicate-Runs (some t) w = ended tt

destinations-Runs :
    (ts : List String) (dest : Option Str) (w : World) → Runs (copy_destinations ts dest w)
unfolding copy_destinations
destinations-Runs [] dest w = ended tt
destinations-Runs (t ∷ ts) dest w =
    bind (duplicate-Runs (some t) w) λ s w1 _. destinations-Runs ts (some s) w1

pub new_event-Runs :
    (p : Block (List ℕ)) (n i : ℕ) (t c : Str) (m : ℕ) (dest : Option Str) (w : World)
    → Runs (sip_message_event_new (some p) n i (some t) (some c) m dest w)
unfolding sip_message_event_new malloc
new_event-Runs p n i t c m dest w = ended tt

pub packet-Runs : (bytes : List ℕ) (w : World) → Runs (duplicate_packet bytes w)
unfolding duplicate_packet malloc
packet-Runs bytes w = branch (ltb (strlen bytes) packet_buffer_size) (ended tt) (halted tt)

pub packet_asked-Runs : (net : Network) (c : Call) (w : World) → Runs (ask_packet net c w)
unfolding ask_packet
packet_asked-Runs net c w = ended tt

pub read_destinations-Runs :
    (net : Network) (dest : Option Str) (w : World) → Runs (read_destinations net dest w)
unfolding read_destinations
read_destinations-Runs net dest w = destinations-Runs (net.destinations w.trace) dest w

accept_any : (s : Stop) → Asserts s → Fueled s
accept_any assert_failed p = tt
accept_any (exit_with code) p = tt
accept_any killed p = tt
accept_any bad_free p = tt
accept_any bad_read p = tt
accept_any bad_write p = tt
accept_any stack_overflow p = tt
accept_any out_of_fuel p = p

pub Runs-too : {A : Type 0} {P : A → World → Type 0} {run : Run A} → Ends Asserts P run → Runs run
Runs-too (ended p) = ended tt
Runs-too (halted {s = s} p) = halted (accept_any s p)
