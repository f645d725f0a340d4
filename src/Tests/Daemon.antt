-- ===== src/Tests/Daemon.antt =====
-- The theorems on the SIP daemon at concrete inputs.
use sentry_peer.Base.{ℕ, refl, arith, true, false, Option, none, some, List, [], ◌∷◌, replicate}
use sentry_peer.World.{World}
use sentry_peer.World.Calls.{Call, udp, tcp, socket}
use sentry_peer.World.Ends.{Ends, ended, Keeps, Asserts}
use sentry_peer.Actor.{BadActor}
use sentry_peer.Conf.Buffer.{strlen}
use sentry_peer.Sip.Daemon.Setup.{Network, Daemon, open_sockets}
use sentry_peer.Sip.Daemon.Packets.{process_event, udp_packet}
use sentry_peer.Sip.Daemon.Loop.{sip_daemon_init}
use sentry_peer.Sip.Daemon.Descriptors.{Open, Overruns, sockets_of}
use sentry_peer.Sip.Daemon.Opened.{open_sockets-Open}
use sentry_peer.Sip.Daemon.EventMemory.{EventFreed, process_event-EventFreed}
use sentry_peer.Sip.Daemon.Overread.{Overreads, udp_packet-Overreads}
use sentry_peer.Sip.Daemon.Watched.Runs.{Fueled}
use sentry_peer.Sip.Daemon.Watched.Turns.{StillReady, sip_daemon_init-Watching}
use sentry_peer.Tests.Data.{
  kind_env, busy_world, c_build, loud_config, options_packet, caller_object, test_package,
  library_for, post_ok,
}

-- The UDP socket is 3, the TCP socket 4, and a client 5; all that is watched is ready.
abbrev descriptors : List Call → Call → Option ℕ
descriptors _ (socket udp) = some 3
descriptors _ (socket tcp) = some 4
descriptors _ _ = some 5

abbrev busy_network : Network
busy_network = record {
  descriptor = descriptors;
  is_ready = λ _ _. true;
  packet = λ _ _. some (b'O' ∷ b'K' ∷ []);
  destinations = λ _. "192.0.2.2" ∷ [];
  uninitialised = λ _. "";
}

-- Every packet has 1024 bytes and no NUL.
abbrev full_network : Network
full_network = record busy_network { packet = λ _ _. some (replicate 1024 b'x') }

abbrev listening : Daemon
listening = record {
  socket_listen_udp = 3;
  socket_listen_tcp = 4;
  master = λ _. false;
  max_socket = 4;
  dest_ip_address_buffer = none;
}

post-Keeps : (b : BadActor) → Keeps Asserts (post_ok loud_config b)
post-Keeps b bs w h = ended h

sip_daemon_init-Watching_example :
    Ends Fueled
      (StillReady kind_env
        (library_for caller_object)
        test_package
        c_build
        busy_network
        post_ok
        loud_config
        post-Keeps)
      (sip_daemon_init kind_env
        (library_for caller_object)
        test_package
        c_build
        busy_network
        post_ok
        loud_config
        3
        busy_world)
sip_daemon_init-Watching_example =
    sip_daemon_init-Watching kind_env (library_for caller_object) test_package c_build busy_network
      post_ok loud_config post-Keeps 3 busy_world

open_sockets-Open_example :
    Ends Overruns
      (λ o w'. Open busy_world (sockets_of o) busy_world.live w')
      (open_sockets kind_env busy_network busy_world)
open_sockets-Open_example = open_sockets-Open kind_env busy_network busy_world

event_world : World
event_world = record { trace = []; live = 3 ∷ 8 ∷ 9 ∷ 10 ∷ 7 ∷ 12 ∷ []; next = 20 }

process_event-EventFreed_example : Ends Asserts (EventFreed options_packet (12 ∷ [])) (
    process_event kind_env
      (library_for caller_object)
      test_package
      c_build
      busy_network
      post_ok
      loud_config
      options_packet
      listening
      event_world)
unfolding event_world
process_event-EventFreed_example =
    process_event-EventFreed kind_env (library_for caller_object) test_package c_build busy_network
      post_ok loud_config post-Keeps options_packet listening (12 ∷ []) event_world
      (record { same = λ a. refl })

udp_packet-Overreads_example :
    Ends Overreads
      (λ _ _. ⊥)
      (udp_packet kind_env
        (library_for caller_object)
        test_package
        c_build
        full_network
        post_ok
        loud_config
        listening
        busy_world)
unfolding strlen
udp_packet-Overreads_example =
    udp_packet-Overreads kind_env (library_for caller_object) test_package c_build full_network
      post_ok loud_config listening (replicate 1024 b'x') "INVITE" busy_world refl (omega arith)
      (λ _. refl)
