-- ===== src/Tests/Start.antt =====
-- The configuration's theorems at concrete inputs.
use sentry_peer.Base.{ℕ, ◌≡◌, refl, arith, Bool, some, List, [], ◌∷◌}
use sentry_peer.Conf.Settings.{sentrypeer_config_new}
use sentry_peer.Conf.Buffer.{IsBuffer, util_copy_string}
use sentry_peer.Conf.Buffer.Copy.{CopyContract, util_copy_string-CopyContract}
use sentry_peer.Conf.Cli.{process_cli}
use sentry_peer.Conf.Safety.{ValidResult, startup-IsValid}
use sentry_peer.Conf.Settings.{path_max, calloc, file_location}
use sentry_peer.Conf.Buffer.{c_string}
use sentry_peer.Conf.Locations.{
  file_location-default, file_location-absolute, file_location-too_long,
}
use sentry_peer.Conf.Bounds.{calloc-IsBuffer}
use sentry_peer.Base.{suc, none, replicate, length-replicate}
use sentry_peer.Tests.Data.{c_build, short_defaults}

abbrev small_buffer : List ℕ
small_buffer = b'a' ∷ 0 ∷ 0 ∷ 0 ∷ []

small_buffer-IsBuffer : IsBuffer 3 small_buffer
small_buffer-IsBuffer = record { size = refl; terminated = refl }

util_copy_string-CopyContract_example :
    (dest' : List ℕ) × (copied : Bool) × (util_copy_string small_buffer (b'x' ∷ b'y' ∷ []) 3
      ≡ some (dest', copied))
    × CopyContract 3 small_buffer (b'x' ∷ b'y' ∷ []) dest' copied
util_copy_string-CopyContract_example =
    util_copy_string-CopyContract 3 small_buffer (b'x' ∷ b'y' ∷ []) (omega arith)
      small_buffer-IsBuffer (omega arith, (omega arith, tt))

-- `-f /d -p`, with every variable set to a relative path.
startup-IsValid_example : ValidResult (
    process_cli c_build
      (λ _. some (b'x' ∷ []))
      (some (b'/' ∷ []))
      short_defaults
      (λ c. c)
      ((b'f', b'/' ∷ b'd' ∷ []) ∷ (b'p', []) ∷ [])
      (sentrypeer_config_new c_build short_defaults "node-1"))
startup-IsValid_example =
    startup-IsValid c_build (λ _. some (b'x' ∷ [])) (some (b'/' ∷ [])) short_defaults (λ c. c)
      (λ c v. v) ((b'f', b'/' ∷ b'd' ∷ []) ∷ (b'p', []) ∷ []) "node-1"

empty_path : IsBuffer path_max (calloc (suc path_max))
empty_path = calloc-IsBuffer path_max

file_location-default_example :
    (buf' : List ℕ) × (file_location
        (λ _. none)
        (some (b'/' ∷ b't' ∷ []))
        "SENTRYPEER_DB_FILE"
        (b'd' ∷ [])
        none
        (calloc (suc path_max))
      ≡ some buf')
    × (c_string buf' ≡ b'/' ∷ b't' ∷ b'/' ∷ b'd' ∷ [])
file_location-default_example =
    file_location-default (λ _. none) "SENTRYPEER_DB_FILE" (b'd' ∷ []) (calloc (suc path_max))
      (b'/' ∷ b't' ∷ []) refl (omega arith, (omega arith, tt)) (omega arith, tt) (omega arith)

file_location-absolute_example :
    (buf' : List ℕ) × (file_location
        (λ _. none)
        none
        "SENTRYPEER_DB_FILE"
        []
        (some (b'/' ∷ b'd' ∷ []))
        (calloc (suc path_max))
      ≡ some buf')
    × (c_string buf' ≡ b'/' ∷ b'd' ∷ [])
file_location-absolute_example =
    file_location-absolute (λ _. none) "SENTRYPEER_DB_FILE" [] (calloc (suc path_max)) none
      (b'/' ∷ b'd' ∷ []) refl (omega arith, (omega arith, tt)) (omega arith) empty_path

abbrev long_path : List ℕ
long_path = b'/' ∷ replicate 4096 b'a'

file_location-too_long_example :
    file_location (λ _. none) none "SENTRYPEER_DB_FILE" [] (some long_path) small_buffer
    ≡ some small_buffer
file_location-too_long_example =
    file_location-too_long (λ _. none) "SENTRYPEER_DB_FILE" [] small_buffer none long_path refl
      (omega (arith, length-replicate {A = ℕ} 4096 b'a'))
