-- ===== src/Conf/Bounds.antt =====
-- The bounds of the configuration's buffers: the constructor, the environment and the file locations.
use sentry_peer.Base.{
  ℕ, zero, suc, ◌-◌, ◌≡◌, refl, String, Option, none, some, List, [], ◌∷◌, arith, drop, length,
  replicate, length-replicate, ltb, Bool-cases, inl, inr, Option-cases,
}
use sentry_peer.Conf.Buffer.{IsBuffer, util_copy_string, getcwd, strncat, strlen}
use sentry_peer.Conf.Buffer.Copy.{strncpy-IsBuffer}
use sentry_peer.Conf.Buffer.Append.{overlay-IsBuffer, strncat-IsBuffer}
use sentry_peer.Conf.Settings.{
  Build, Config, Defaults, path_max, dns_max_length, calloc, copy_into, sentrypeer_config_new,
  process_env_vars, if_set, file_location, in_working_dir, is_absolute,
}

pub record IsValid (c : Config) : Type 0 where
  pub db_file : IsBuffer path_max c.db_file
  pub json_log_file : IsBuffer path_max c.json_log_file
  pub bootstrap_node : IsBuffer dns_max_length c.p2p_bootstrap_node
  pub webhook_url : IsBuffer dns_max_length c.webhook_url
  pub client_id : IsBuffer dns_max_length c.oauth2_client_id
  pub client_secret : IsBuffer dns_max_length c.oauth2_client_secret

pub copy_into-IsBuffer :
    (cap : ℕ) (dest src : List ℕ) → IsBuffer cap dest → IsBuffer cap (copy_into dest src cap)
unfolding copy_into util_copy_string
copy_into-IsBuffer cap dest src b = ground (arith, b, strncpy-IsBuffer cap dest src b)

drop-zeros : (n : ℕ) → drop {A = ℕ} n (replicate (suc n) 0) ≡ 0 ∷ []
drop-zeros zero = refl
drop-zeros (suc n) = drop-zeros n

pub calloc-IsBuffer : (cap : ℕ) → IsBuffer cap (calloc (suc cap))
unfolding calloc
calloc-IsBuffer cap = record {
  size = omega (arith, length-replicate {A = ℕ} (suc cap) 0);
  terminated = drop-zeros cap;
}

-- The constructor makes valid buffers, whatever the defaults are.
pub sentrypeer_config_new-IsValid :
    (build : Build) (d : Defaults) (uuid : String) → IsValid (sentrypeer_config_new build d uuid)
unfolding sentrypeer_config_new
sentrypeer_config_new-IsValid build d uuid = record {
  db_file = fresh path_max d.default_db_file_name;
  json_log_file = fresh path_max d.default_json_log_file_name;
  bootstrap_node = fresh dns_max_length d.bootstrap_node;
  webhook_url = fresh dns_max_length d.default_webhook_url;
  client_id = fresh dns_max_length d.default_client_id;
  client_secret = fresh dns_max_length d.default_client_secret;
}
  where
    fresh : (cap : ℕ) (src : List ℕ) → IsBuffer cap (copy_into (calloc (suc cap)) src cap)
    fresh cap src = copy_into-IsBuffer cap (calloc (suc cap)) src (calloc-IsBuffer cap)

-- One `if (getenv(NAME))`.
kept :
    (o : Option (List ℕ)) (f : List ℕ → Config → Config) {c : Config}
    → ((v : List ℕ) → IsValid c → IsValid (f v c))
    → IsValid c
    → IsValid (if_set o f c)
unfolding if_set
kept none f step v = v
kept (some x) f step v = step x v

-- Every environment keeps the buffers valid.
pub process_env_vars-IsValid :
    (getenv : String → Option (List ℕ)) (c : Config)
    → IsValid c
    → IsValid (process_env_vars getenv c)
unfolding process_env_vars
process_env_vars-IsValid getenv c v =
    kept _ _ (λ x u. assumption)
      (kept _ _ (λ x u. assumption)
        (kept _ _ (λ x u. assumption)
          (kept _ _ (λ x u. assumption)
            (kept _ _ (λ x u. assumption)
              (kept _ _ (λ x u. assumption)
                (kept _ _ (λ x u. assumption)
                  (kept _ _ (λ x u. search copy_into-IsBuffer)
                    (kept _ _ (λ x u. search copy_into-IsBuffer)
                      (kept _ _ (λ x u. search copy_into-IsBuffer)
                        (kept _ _ (λ x u. assumption)
                          (kept _ _ (λ x u. search copy_into-IsBuffer)
                            (kept _ _ (λ x u. search copy_into-IsBuffer)
                              (kept _ _ (λ x u. search copy_into-IsBuffer) v)))))))))))))

abbrev pub ValidBuffer : ℕ → Option (List ℕ) → Type 0
ValidBuffer cap none = Unit
ValidBuffer cap (some buf) = IsBuffer cap buf

getcwd-ValidBuffer :
    (cap : ℕ) (cwd : Option (List ℕ)) (buf : List ℕ)
    → IsBuffer cap buf
    → ValidBuffer cap (getcwd cwd buf cap)
unfolding getcwd
getcwd-ValidBuffer cap none buf b = tt
getcwd-ValidBuffer cap (some dir) buf b = elim (Bool-cases (ltb (length dir) cap)) [
  | inl e ↦ rw e (overlay-IsBuffer cap dir buf b (ground arith))
  | inr e ↦ rw e tt
]

in_working_dir-ValidBuffer :
    (cwd : Option (List ℕ)) (name buf : List ℕ)
    → IsBuffer path_max buf
    → ValidBuffer path_max (in_working_dir cwd name buf)
unfolding in_working_dir
in_working_dir-ValidBuffer cwd name buf b =
    from (getcwd cwd buf path_max) (getcwd-ValidBuffer path_max cwd buf b)
  where
    from :
        (r : Option (List ℕ))
        → ValidBuffer path_max r
        → ValidBuffer path_max (elim r [
          | none ↦ none
          | some dir ↦
              (let slashed = strncat dir (b'/' ∷ []) (path_max - strlen dir) in
                some (strncat slashed name (path_max - strlen slashed)))
        ])
    from none _ = tt
    from (some dir) d =
        strncat-IsBuffer path_max _ name (strncat-IsBuffer path_max dir (b'/' ∷ []) d)

-- Whatever the location is, the buffer that `set_db_file_location` or `set_json_log_file_location`
-- leaves on success is within its bounds and terminated.
pub file_location-ValidBuffer :
    (getenv : String → Option (List ℕ)) (cwd : Option (List ℕ)) (var : String) (name : List ℕ)
    (location : Option (List ℕ)) (buf : List ℕ)
    → IsBuffer path_max buf
    → ValidBuffer path_max (file_location getenv cwd var name location buf)
unfolding file_location
file_location-ValidBuffer getenv cwd var name none buf b = elim (Option-cases (getenv var)) [
  | inl e ↦ rw (e, file_location) (in_working_dir-ValidBuffer cwd name buf b)
  | inr (x, e) ↦ rw (e, file_location) (copy_into-IsBuffer path_max buf x b)
]
file_location-ValidBuffer getenv cwd var name (some location) buf b =
    elim (Bool-cases (is_absolute location)) [
      | inl e ↦ rw e (copy_into-IsBuffer path_max buf location b)
      | inr e ↦ rw e tt
    ]
