-- ===== src/Tests/Data.antt =====
-- Concrete data for the tests: an environment in which every call succeeds, a JSON library on
-- association lists, a received packet, and a bad actor.
use sentry_peer.Base.{ℕ, String, Bool, true, false, Option, none, some, List, [], ◌∷◌}
use sentry_peer.World.{World, Env, Str, M, pure}
use sentry_peer.World.Calls.{Call, sqlite_step, osip_sip_method}
use sentry_peer.Conf.Settings.{Build, Config, Defaults, sentrypeer_config_new}
use sentry_peer.Actor.{BadActor, built}
use sentry_peer.Json.{Jansson, Package, bad_actor_members}
use sentry_peer.Json.RoundTrip.{lookup}
use sentry_peer.Sip.Event.{SipEvent}

abbrev pub kind_env : Env
kind_env = record { succeeds = λ _ _. true; text = λ _ _. some "INVITE"; number = λ _ _. 0 }

-- Tables with two rows.
abbrev pub two_rows_env : Env
two_rows_env = record { succeeds = λ _ _. true; text = λ _ _. some "192.0.2.1"; number = λ _ _. 2 }

-- A full disk: the statement's step fails.
abbrev pub succeeds_but_step : Call → Bool
succeeds_but_step sqlite_step = false
succeeds_but_step _ = true

abbrev pub full_disk_env : Env
full_disk_env = record {
  succeeds = λ _ c. succeeds_but_step c;
  text = λ _ _. some "OPTIONS";
  number = λ _ _. 0;
}

-- libosip2 on a SIP response.
abbrev pub response_text : Call → Option String
response_text osip_sip_method = none
response_text _ = some "SIP/2.0 200 OK"

abbrev pub response_env : Env
response_env = record { succeeds = λ _ _. true; text = λ _ c. response_text c; number = λ _ _. 0 }

abbrev pub busy_world : World
busy_world = record { trace = []; live = 7 ∷ 3 ∷ []; next = 20 }

abbrev pub c_build : Build
c_build = record { have_rust = false; have_opendht = true }

abbrev pub short_defaults : Defaults
short_defaults = record {
  default_db_file_name = b'd' ∷ [];
  default_json_log_file_name = b'l' ∷ [];
  bootstrap_node = b'b' ∷ [];
  default_webhook_url = b'u' ∷ [];
  default_client_id = b'i' ∷ [];
  default_client_secret = b's' ∷ [];
}

-- A node that writes to every output and is on the DHT.
abbrev pub loud_config : Config
loud_config = record (sentrypeer_config_new c_build short_defaults "node-1") {
  json_log_mode = true;
  p2p_dht_mode = true;
  syslog_mode = true;
  webhook_mode = true;
  dht_node = true;
}

abbrev pub str : ℕ → String → Str
str b t = record { block = b; contents = t }

abbrev pub options_packet : SipEvent
options_packet = record {
  self = 7;
  packet = some (record { block = 3; contents = b'O' ∷ b'P' ∷ [] });
  packet_len = 2;
  socket = 5;
  transport_type = some (str 8 "UDP");
  client_ip_addr_str = some (str 9 "192.0.2.1");
  client_addr_len = 16;
  dest_ip_addr_str = some (str 10 "192.0.2.2");
}

abbrev pub caller : BadActor
caller =
    built 1 (str 2 "2022-01-01") (str 3 "uuid-1") (str 4 "node-2") (some (str 5 "OPTIONS sip:"))
      (some (str 6 "192.0.2.1")) none (some (str 7 "+44")) (some (str 8 "OPTIONS"))
      (some (str 9 "UDP")) none (some (str 10 "passive"))

abbrev pub unparsed_caller : BadActor
unparsed_caller =
    built 1 (str 2 "2022-01-01") (str 3 "uuid-1") (str 4 "node-2") none (some (str 6 "192.0.2.1"))
      none none none (some (str 9 "UDP")) none (some (str 10 "passive"))

abbrev pub test_package : Package
test_package = record { name = "sentrypeer"; version = "4" }

-- A JSON object of strings.
abbrev pub Object : Type 0
Object = List (String × String)

abbrev pub is_set : Option String → Bool
is_set none = false
is_set (some _) = true

-- The library when the text that it is given is one object's.
abbrev pub library_for : Object → Jansson Object
library_for o = record {
  pack = λ ms. some ms;
  dumps = λ _. "{...}";
  dumps_indented = λ _. "{ ... }";
  pack_list = λ _ _ _ _. [];
  loads = λ _. some o;
  validate = λ _ _. true;
  is_object = λ _. true;
  has_member = λ key x. is_set (lookup key x);
  string_member = lookup;
}

abbrev pub caller_object : Object
caller_object = bad_actor_members test_package caller

abbrev pub post_ok : Config → BadActor → M Bool
post_ok _ _ = pure true
