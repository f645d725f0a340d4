-- ===== src/Start/Wanted.antt =====
-- What a configuration asks for, and what starting the daemons leaves of it.
use sentry_peer.Base.{
  ℕ, ◌≡◌, ◌≢◌, refl, ◌∙◌, Bool, true, false, ◌&&◌, Option, none, some, List, [], ◌∷◌, String,
}
use sentry_peer.World.{World, Stop}
use sentry_peer.World.Calls.{syslog_message}
use sentry_peer.World.Ends.{Ends, ended, branch}
use sentry_peer.Conf.Settings.{Build, Config}
use sentry_peer.Start.Main.{log_if_syslog, log_progress}
use sentry_peer.Start.Services.{Services, Sip, off, rust, thread, after_call, Up, emit-Up}

-- The SIP daemon for the SIP mode, the new mode, and a build with Rust; without Rust there is no SIP
-- daemon of the new mode.
abbrev pub sip_wanted : Bool → Bool → Bool → ℕ → Sip
sip_wanted false new have_rust t = off
sip_wanted true false have_rust t = thread t
sip_wanted true true true t = rust
sip_wanted true true false t = off

-- What the configuration asks for, with the number of the SIP daemon's thread.
abbrev pub wanted : Build → Config → ℕ → Services
wanted build config t = record {
  http = config.api_mode;
  sip = sip_wanted config.sip_mode config.new_mode build.have_rust t;
  dht = build.have_opendht && config.p2p_dht_mode;
}

-- What starting the daemons leaves of the configuration.
pub record SameModes (config c : Config) : Type 0 where
  pub api_mode : c.api_mode ≡ config.api_mode
  pub new_mode : c.new_mode ≡ config.new_mode
  pub p2p_dht_mode : c.p2p_dht_mode ≡ config.p2p_dht_mode
  pub thread_is : c.sip_daemon_thread ≡ config.sip_daemon_thread
  pub sip_mode : c.sip_mode ≡ config.sip_mode
  pub token : c.oauth2_access_token ≡ config.oauth2_access_token
  pub listening : c.dht_op_token ≡ config.dht_op_token

pub unchanged : {config : Config} → SameModes config config
unchanged = record {
  api_mode = refl;
  new_mode = refl;
  p2p_dht_mode = refl;
  sip_mode = refl;
  thread_is = refl;
  token = refl;
  listening = refl;
}

-- There is a listener exactly if the DHT is wanted.
pub record Listens (on : Bool) (ctx : Option ℕ) : Type 0 where
  pub if_on : on ≡ true → ctx ≢ none
  pub if_off : on ≡ false → ctx ≡ none

-- The context of the DHT's listener.
abbrev pub listener : Option ℕ → List ℕ
listener none = []
listener (some ctx) = ctx ∷ []

pub running_as : {s t : Services} {bs : List ℕ} {w : World} → s ≡ t → Up s bs w → Up t bs w
running_as e u = record { services = u.services ∙ e; heap = u.heap }

module _ {S : Stop → Type 0} where
  log_if_syslog-Up :
      {s : Services} {bs : List ℕ} {w : World} (config : Config) (format : String)
      → Up s bs w
      → Ends S (λ _ w'. Up s bs w') (log_if_syslog config format w)
  unfolding log_if_syslog after_call
  log_if_syslog-Up config format u =
      branch config.syslog_mode (emit-Up u (syslog_message format)) (ended u)

  pub log_progress-Up :
      {s : Services} {bs : List ℕ} {w : World} (config : Config) (format : String)
      → Up s bs w
      → Ends S (λ _ w'. Up s bs w') (log_progress config format w)
  unfolding log_progress
  log_progress-Up config format u = branch _ (log_if_syslog-Up config format u) (ended u)
