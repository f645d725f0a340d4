-- ===== src/Lib.antt =====
-- SentryPeer: a honeypot that listens for SIP packets and shares the sources of fraudulent calls with
-- its peers. This library models the C program, src/*.c of the repository.
--
-- The program's parts. `main` makes a configuration from the environment and the command line, starts
-- the daemons that it asks for (HTTP, SIP, DHT), waits for a signal, and stops them. The SIP daemon
-- makes a `sip_message_event` of a received packet; `sip_log_event` makes a `bad_actor` of that, fills
-- it by the SIP parser, hands it to `bad_actor_log` (syslog, a JSON file, the event store, a webhook)
-- and puts it on the DHT. The callback of the DHT takes the values that other nodes put there, and logs
-- by the same `bad_actor_log` those that it does not know. The HTTP API answers from the event store.
--
--   Base       what all modules share: numbers, tests on them, lists, and multisets of blocks
--   World      the machine under the C code. A computation (`M`) takes a `World` to a result and a
--              world, or to a `Stop`: a failed assertion, a free of a block that is not allocated, a
--              read through a null pointer or past the end, a write past the end, a full stack, an
--              exit, or the end by a signal. A `World` has the allocated blocks (`live`), the name of
--              the next block, and the trace of the calls of other code, newest first (World/Calls).
--              `Env` holds what such calls answer, each given the whole trace before it. World/Ends is
--              a logic for runs: `Ends S P run` says that the run stops only as S allows, and ends in
--              a result and world with P. World/Held is about heaps that may have lost blocks,
--              World/Script about straight runs of calls, World/Sent about the responses in a trace
--   Conf       src/conf.c, src/conf.h, and `util_copy_string` of src/utils.c. Conf/Buffer: bytes and the
--              string functions on them; Conf/Settings: the struct, its constructor, the environment
--              and the file locations; Conf/Cli: the loop of `getopt`; Conf/Lifetime: the memory of the
--              struct, its constructor and destructor; Conf/Bounds, Conf/Safety: the bounds;
--              Conf/Locations: the two files
--   Actor      src/bad_actor.h, src/bad_actor.c without `bad_actor_log`, `util_duplicate_string` of
--              src/utils.c; Actor/Memory: what a bad actor owns
--   Utils      the rest of src/utils.c: the text of a time stamp and the validity tests
--   Json       `bad_actor_to_json`, `json_to_bad_actor` and `json_log_bad_actor` of src/json_logger.c
--   Webhook    the rest of src/json_logger.c: Post is `json_http_post_bad_actor`, Token the OAuth2
--              bearer token, Curl the program's side of libcurl; the other children hold proofs
--   Database   src/database.h, src/database.c: Insert, Exists and Select are the operations; Rows is the
--              abstract view, the rows and tables that a trace leaves, which reads the columns off the
--              text of the INSERT statement; Stored, Lookup, Lists and Quiet hold proofs
--   Sip        src/sip_message_event.h, src/sip_message_event.c (Event), src/sip_parser.c (Parser),
--              `bad_actor_log` of src/bad_actor.c, `peer_to_peer_dht_save` of src/peer_to_peer_dht.c and
--              `sip_log_event` of src/sip_daemon.c (Log); Memory, NoLeak, Logged and Aborts hold proofs.
--              Sip/Daemon is the rest of src/sip_daemon.c: Setup opens the sockets, Packets is the body
--              of the loop for one ready socket, Loop is `sip_daemon_init`, Threads starts and stops
--              its thread; Descriptors, Opened, Watched, EventMemory and Overread
--              hold proofs
--   Dht        `dht_value_callback` of src/peer_to_peer_dht.c; Node starts and stops the node; Listen,
--              Filter and Known hold proofs
--   Http       src/http_routes.h, src/http_routes.c (Routes), src/http_common.c (Response), the routes of
--              src/http_*_route.c (Lookup, Listing), src/regex_match.c (Regex) and src/http_daemon.c
--              (Daemon); NoLeak, Matched, ListingNoLeak, Requests, Refused, Answered and OneResponse
--              hold proofs
--   Start      `main` of src/sentrypeer.c (Main), src/signal_handler.c and the loop of `main` that waits
--              for a signal (Signals); Services is the abstract view, what runs after a trace,
--              where a thread ends only by being cancelled and joined by its number; Wanted, Launched,
--              Starting, Stopping, Waiting, Lifecycle and Unstarted hold proofs
--   Tests      the theorems at concrete inputs
--
-- How the model stands to the code. EXIT_SUCCESS is `true` and EXIT_FAILURE `false`, unless a comment
-- says otherwise. A pointer to a string is `Option Str`, where `Str` is a block with its text, and `none`
-- is null; a struct that is passed by reference and written to comes back as a result. An allocation
-- succeeds, so the assertions on its result are left out; an assertion on another pointer that may be
-- null is a stop. Messages on stderr and the modes that only choose them leave no trace. C leaves the
-- order of a call's arguments open; they are evaluated from left to right. The JSON library is the
-- parameter `Jansson` and its reference counts are not followed; PCRE2, `uuid_parse`, `inet_pton` and
-- the bytes that the network delivers (the two records `Network`) are parameters too. SQLite, libosip2,
-- libcurl, libmicrohttpd, OpenDHT, the threads, the sockets, the files, syslog and the Rust half are
-- calls that the environment answers. `bad_actor_log` takes the POST to the webhook as an argument; the
-- one of Webhook can be put there. A response that is queued is taken to be sent, and freed with its
-- text, at once. `dht_done_callback`, which frees the context of a save, is taken to run at once, and
-- `op_context_free` when the node is deleted. The daemons' threads are modelled each for itself and not
-- interleaved with `main`. The three TLS texts of the configuration are null. The buffers of the
-- configuration are lists of bytes of their allocated length, and a write past the end would make a list
-- longer. An array of no entries, which `calloc(0, …)` makes, has nothing to read. The pointers to the
-- daemons in the configuration are null from the constructor on, though it sets only some of them.
--
-- Bounds. Most loops are over the options, the rows that a count announced, lists of calls, headers or
-- pieces. The scan over the descriptors has a fuel of FD_SETSIZE; `decimal` has one of 19, the digits of
-- a `long`. `json_http_post_bad_actor` calls itself and is given the number of frames that the stack has
-- room for. Two loops of the program have no bound of their own: `sip_daemon_init` is followed for a
-- given number of turns, and `wait_for_signal` for as long as arrivals of signals are given.
--
-- Not modelled: the Rust half (another language), the usage and version texts of src/conf.c and all
-- messages on stderr, `util_addr_string` of src/utils.c, which nothing calls, the address of the client
-- that the HTTP API prints, and the DHT's info hash beyond its block.
pub mod Base
pub mod World
pub mod Conf
pub mod Actor
pub mod Sip
pub mod Json
pub mod Database
pub mod Dht
pub mod Http
pub mod Webhook
pub mod Start
pub mod Utils
pub mod Tests
