-- ===== src/Utils.antt =====
-- src/utils.c, but for `util_duplicate_string` (Actor) and `util_copy_string` (Conf/Buffer): the text of a
-- time stamp, and the tests on addresses, UUIDs and JSON members. What `clock_gettime`, `strftime`,
-- `inet_pton` and `uuid_parse` answer is given.
pub mod Timestamp
use sentry_peer.Base.{
  ℕ, zero, suc, ◌+◌, ◌/◌, ◌%◌, ◌-◌, String, Bool, true, false, ◌||◌, Option, none, some, List, [],
  ◌∷◌, ◌++◌, ltb, if◌then◌else◌, length, take, replicate,
}
use sentry_peer.Json.{Jansson}

abbrev pub timestamp_len : ℕ
timestamp_len = 40

-- `%ld` of a number that is not negative; the fuel is a bound on its digits.
unfoldable pub decimal : ℕ → ℕ → List ℕ
decimal zero n = []
decimal (suc fuel) n =
    let rest = decimal fuel (n / 10) in
    if ltb n 10 then (b'0' + n) ∷ [] else rest ++ ((b'0' + n % 10) ∷ [])

-- `%06ld`
unfoldable pub padded_six : List ℕ → List ℕ
padded_six digits = replicate (6 - length digits) b'0' ++ digits

-- The text that `snprintf` leaves, at most one byte less than the buffer has. A `long` has at most 19
-- digits. `none` is the failed assertion on the nanoseconds.
unfoldable pub event_timestamp : List ℕ → ℕ → Option (List ℕ)
unfolding decimal padded_six
event_timestamp timestamp_buf tv_nsec =
    if ltb tv_nsec 1000000000
    then some (take (timestamp_len - 1) (timestamp_buf ++ b'.' ∷ padded_six (decimal 19 tv_nsec)))
    else none

pub data Family : Type 0 where
  af_inet af_inet6 : Family

unfoldable pub valid_ip_address_format : (Family → String → Bool) → String → Bool
valid_ip_address_format inet_pton t = inet_pton af_inet t || inet_pton af_inet6 t

unfoldable pub is_valid_uuid : (String → Bool) → String → Bool
is_valid_uuid uuid_parse t = uuid_parse t

abbrev pub is_string : Option String → Bool
is_string none = false
is_string (some _) = true

unfoldable pub is_valid_json_key : {Json : Type 0} → Jansson Json → Json → String → Bool
is_valid_json_key j json key =
    if j.has_member key json then is_string (j.string_member key json) else false
