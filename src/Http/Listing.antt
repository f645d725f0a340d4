-- ===== src/Http/Listing.antt =====
-- The routes that list: `ip_addresses_route` and `called_numbers_route`.
use sentry_peer.Base.{ℕ, String, Bool, Option, none, some, List, [], ◌∷◌, length}
use sentry_peer.World.{Env, M, malloc, free, ◌>>=◌, ◌>>◌}
use sentry_peer.Conf.Settings.{Config}
use sentry_peer.Actor.{BadActor, text_of, bad_actors_destroy}
use sentry_peer.Json.{Jansson, Package}
use sentry_peer.Database.Select.{db_select_bad_actors, db_select_called_numbers}
use sentry_peer.Http.Response.{persistent, must_free, finalise_response}
use sentry_peer.Http.Lookup.{content_type_json}

abbrev pub not_found_bad_actors_json : String
not_found_bad_actors_json = "{\"message\": \"No bad actors found\"}"

abbrev pub not_found_phone_numbers_json : String
not_found_phone_numbers_json = "{\"message\": \"No phone numbers found\"}"

-- What differs between the two routes: the names of the members, the field, and the failure's text.
pub record Kind : Type 0 where
  pub member : String
  pub field : BadActor → Option String
  pub total : String
  pub list : String
  pub not_found : String

abbrev pub ip_addresses_kind : Kind
ip_addresses_kind = record {
  member = "ip_address";
  field = λ b. text_of b.source_ip;
  total = "ip_addresses_total";
  list = "ip_addresses";
  not_found = not_found_bad_actors_json;
}

abbrev pub called_numbers_kind : Kind
called_numbers_kind = record {
  member = "called_number";
  field = λ b. text_of b.called_number;
  total = "called_numbers_total";
  list = "called_numbers";
  not_found = not_found_phone_numbers_json;
}

module _ {Json : Type 0} (j : Jansson Json) where
  -- `json_pack("{s:s,s:s,s:s}", …)`: a null text fails.
  unfoldable pub pack_three : String → Option String → Option String → Option String → Option Json
  pack_three name (some text) (some seen_last) (some seen_count) =
      j.pack ((name, text) ∷ ("seen_last", seen_last) ∷ ("seen_count", seen_count) ∷ [])
  pack_three name _ _ _ = none

  unfoldable pub row_object : Kind → BadActor → Option Json
  unfolding pack_three
  row_object kind b =
      pack_three kind.member (kind.field b) (text_of b.seen_last) (text_of b.seen_count)

  -- The loop that fills the array; `none` is an append that has failed.
  unfoldable pub row_objects : Kind → List BadActor → Option (List Json)
  row_objects kind [] = some []
  row_objects kind (b ∷ bs) = elim (row_object kind b) [
    | none ↦ none
    | some json ↦ elim (row_objects kind bs) [ none ↦ none | some rest ↦ some (json ∷ rest) ]
  ]

  module _ (env : Env) (pkg : Package) where
    -- After the loop. The array and the bad actors in it are freed on both ways.
    unfoldable pub answer_rows : Kind → ℕ → List BadActor → Option (List Json) → M Bool
    answer_rows kind array rows none = do
      bad_actors_destroy rows
      free array
      finalise_response env pkg (persistent kind.not_found) content_type_json 404
    answer_rows kind array rows (some objects) = do
      reply ← malloc (j.dumps_indented (j.pack_list kind.total (length rows) kind.list objects))
      bad_actors_destroy rows
      free array
      finalise_response env pkg (must_free (some reply)) content_type_json 200

    -- After the select.
    unfoldable pub answer_listing : Kind → Option (ℕ × List BadActor) → M Bool
    unfolding answer_rows row_objects
    answer_listing kind none =
        finalise_response env pkg (persistent kind.not_found) content_type_json 404
    answer_listing kind (some (array, [])) = do
      bad_actors_destroy []
      free array
      finalise_response env pkg (persistent kind.not_found) content_type_json 404
    answer_listing kind (some (array, b ∷ bs)) =
        answer_rows kind array (b ∷ bs) (row_objects kind (b ∷ bs))

    unfoldable pub ip_addresses_route : Config → M Bool
    unfolding answer_listing
    ip_addresses_route config = do
      selected ← db_select_bad_actors env config
      answer_listing ip_addresses_kind selected

    unfoldable pub called_numbers_route : Config → M Bool
    unfolding answer_listing
    called_numbers_route config = do
      selected ← db_select_called_numbers env config
      answer_listing called_numbers_kind selected
