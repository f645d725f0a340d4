-- ===== src/Conf/Lifetime/Owned.antt =====
-- The blocks that the configuration owns.
use sentry_peer.Base.{
  ℕ, ◌+◌, ◌≡◌, Bool, true, false, Option, none, some, List, [], ◌∷◌, ◌++◌, arith, count,
  count-append,
}
use sentry_peer.Actor.Memory.{blocks_of}
use sentry_peer.Conf.Settings.{Build, Config}
use sentry_peer.Conf.Lifetime.{ConfigPointers}

abbrev pub pointed : Option ℕ → List ℕ
pointed none = []
pointed (some b) = b ∷ []

abbrev pub pointed_if : Bool → Option ℕ → List ℕ
pointed_if true p = pointed p
pointed_if false p = []

abbrev pub with_tls : Bool → ConfigPointers → List ℕ → List ℕ
with_tls true p rest =
    pointed p.tls_cert_file
    ++ (pointed p.tls_key_file ++ (pointed p.tls_listen_address ++ (pointed p.config_file ++ rest)))
with_tls false p rest = rest

abbrev pub token_of : Config → List ℕ
token_of config = blocks_of (config.oauth2_access_token ∷ [])

-- The struct and what it points to, in the order of the destructor, and other blocks.
abbrev pub owned_with : Build → List ℕ → ConfigPointers → List ℕ → List ℕ
owned_with build token p rest =
    pointed p.node_id
    ++ (pointed_if build.have_opendht p.dht_info_hash
        ++ (pointed p.p2p_bootstrap_node
            ++ (pointed p.webhook_url
                ++ (pointed p.oauth2_client_id
                    ++ (pointed p.oauth2_client_secret
                        ++ (token
                            ++ (pointed p.db_file
                                ++ (pointed p.json_log_file
                                    ++ with_tls build.have_rust p (p.self ∷ rest)))))))))

-- The token can be counted apart.
pub token_apart :
    (a : ℕ) (build : Build) (t : List ℕ) (p : ConfigPointers) (rest : List ℕ)
    → count a (owned_with build t p rest) ≡ count a t + count a (owned_with build [] p rest)
token_apart a build t p rest =
    let end =
      pointed p.db_file
      ++ (pointed p.json_log_file ++ with_tls build.have_rust p (p.self ∷ rest)) in
    let hash = pointed_if build.have_opendht p.dht_info_hash in
    let node = pointed p.p2p_bootstrap_node in
    let url = pointed p.webhook_url in
    let id = pointed p.oauth2_client_id in
    let secret = pointed p.oauth2_client_secret in
    omega (
      arith,
      moved (pointed p.node_id) (hash ++ (node ++ (url ++ (id ++ (secret ++ (t ++ end))))))
          (hash ++ (node ++ (url ++ (id ++ (secret ++ end))))),
      moved hash (node ++ (url ++ (id ++ (secret ++ (t ++ end)))))
          (node ++ (url ++ (id ++ (secret ++ end)))),
      moved node (url ++ (id ++ (secret ++ (t ++ end)))) (url ++ (id ++ (secret ++ end))),
      moved url (id ++ (secret ++ (t ++ end))) (id ++ (secret ++ end)),
      moved id (secret ++ (t ++ end)) (secret ++ end),
      moved secret (t ++ end) end,
      count-append a t end,
    )
  where
    moved : (xs ys zs : List ℕ) → count a (xs ++ ys) + count a zs ≡ count a (xs ++ zs) + count a ys
    moved xs ys zs = omega (arith, count-append a xs ys, count-append a xs zs)

-- The pointers that the constructor sets.
abbrev fresh : ℕ → ℕ → Option ℕ → ℕ → ℕ → ℕ → ℕ → ℕ → ℕ → ConfigPointers
fresh self uuid hash node url id secret db json = record {
  self = self;
  node_id = some uuid;
  dht_info_hash = hash;
  p2p_bootstrap_node = some node;
  webhook_url = some url;
  oauth2_client_id = some id;
  oauth2_client_secret = some secret;
  db_file = some db;
  json_log_file = some json;
  tls_cert_file = none;
  tls_key_file = none;
  tls_listen_address = none;
  config_file = none;
}

-- They own what it has allocated.
pub fresh_order :
    (a : ℕ) (rust dht : Bool) (hash : Option ℕ) (self uuid db json node url id secret : ℕ)
    (bs : List ℕ)
    → count a (pointed_if dht hash ++ (secret ∷ id ∷ url ∷ node ∷ json ∷ db ∷ uuid ∷ self ∷ bs))
      ≡ count a (
          owned_with
            (record { have_rust = rust; have_opendht = dht })
            []
            (fresh self uuid hash node url id secret db json)
            bs)
fresh_order a true dht hash self uuid db json node url id secret bs = omega (
  arith,
  count-append a (pointed_if dht hash) (secret ∷ id ∷ url ∷ node ∷ json ∷ db ∷ uuid ∷ self ∷ bs),
  count-append a (pointed_if dht hash) (node ∷ url ∷ id ∷ secret ∷ db ∷ json ∷ self ∷ bs),
)
fresh_order a false dht hash self uuid db json node url id secret bs = omega (
  arith,
  count-append a (pointed_if dht hash) (secret ∷ id ∷ url ∷ node ∷ json ∷ db ∷ uuid ∷ self ∷ bs),
  count-append a (pointed_if dht hash) (node ∷ url ∷ id ∷ secret ∷ db ∷ json ∷ self ∷ bs),
)
