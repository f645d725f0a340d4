-- ===== src/Utils/Timestamp.antt =====
-- The length of the time stamps that `event_timestamp` of src/utils.c makes.
use sentry_peer.Base.{
  true, ltb, some, ℕ, zero, suc, ◌+◌, ◌*◌, ◌/◌, ◌%◌, ◌-◌, ◌≤◌, ◌<◌, ◌≡◌, ◌↔◌, ◌⊎◌, refl, ap, List,
  [], ◌∷◌, ◌++◌, arith, length, take, replicate, length-append, length-replicate, inl, inr,
}
use native.Mathlib.Decide.{dec_lt}
use sentry_peer.Utils.{decimal, padded_six, event_timestamp}

power_of_ten : ℕ → ℕ
power_of_ten zero = 1
power_of_ten (suc k) = 10 * power_of_ten k

power_of_ten_pos : (k : ℕ) → 0 < power_of_ten k
unfolding power_of_ten
power_of_ten_pos zero = omega arith
power_of_ten_pos (suc k) = omega (arith, power_of_ten_pos k)

-- With enough fuel the number of digits is bounded by the size of the number, from both sides.
decimal-le : (k fuel n : ℕ) → k < fuel → n < power_of_ten (suc k) → length (decimal fuel n) ≤ suc k
unfolding decimal power_of_ten
decimal-le k zero n enough small = absurd (omega arith)
decimal-le zero (suc fuel) n enough small = ground arith
decimal-le (suc k) (suc fuel) n enough small = ground (
  arith,
  decimal-le k fuel (n / 10),
  length-append (decimal fuel (n / 10)) ((b'0' + n % 10) ∷ []),
)

decimal-ge : (k fuel n : ℕ) → k < fuel → power_of_ten k ≤ n → k < length (decimal fuel n)
unfolding decimal power_of_ten
decimal-ge k zero n enough large = absurd (omega arith)
decimal-ge zero (suc fuel) n enough large =
    ground (arith, length-append (decimal fuel (n / 10)) ((b'0' + n % 10) ∷ []))
decimal-ge (suc k) (suc fuel) n enough large = ground (
  arith,
  power_of_ten_pos k,
  decimal-ge k fuel (n / 10),
  length-append (decimal fuel (n / 10)) ((b'0' + n % 10) ∷ []),
)

take-all : (n : ℕ) (xs : List ℕ) → length xs ≤ n → take n xs ≡ xs
take-all zero [] h = refl
take-all zero (x ∷ xs) h = absurd (omega (arith, h))
take-all (suc n) [] h = refl
take-all (suc n) (x ∷ xs) h = ap (λ l. x ∷ l) (take-all n xs (omega (arith, h)))

length-padded_six :
    (digits : List ℕ) → length (padded_six digits) ≡ 6 - length digits + length digits
unfolding padded_six
length-padded_six digits = omega (
  arith,
  length-append (replicate (6 - length digits) b'0') digits,
  length-replicate {A = ℕ} (6 - length digits) b'0',
)

-- How many digits a valid number of nanoseconds has.
nine_digits :
    (n : ℕ)
    → n < 1000000000
    → ((n < 100000000) × (length (decimal 19 n) ≤ 8))
      ⊎ ((100000000 ≤ n) × (length (decimal 19 n) ≡ 9))
unfolding power_of_ten
nine_digits n valid = elim (dec_lt n 100000000) [
  | yes small ↦ inl (small, decimal-le 7 19 n (omega arith) small)
  | no large ↦ inr (
    omega (arith, large),
    omega (
      arith,
      decimal-ge 8 19 n (omega arith) (omega (arith, large)),
      decimal-le 8 19 n (omega arith) valid,
    ),
  )
]

-- The seconds of the date have 19 bytes, and the nanoseconds are those of a valid time: then the time
-- stamp is not cut off by the size of its buffer; it has 26 to 29 bytes, and the 29 bytes of the
-- documented format `YYYY-MM-DD HH:MM:SS.XXXXXXXXX` exactly from a tenth of a second on.
pub event_timestamp-length :
    (timestamp_buf : List ℕ) (tv_nsec : ℕ)
    → length timestamp_buf ≡ 19
    → tv_nsec < 1000000000
    → let text = timestamp_buf ++ b'.' ∷ padded_six (decimal 19 tv_nsec) in
      (event_timestamp timestamp_buf tv_nsec ≡ some text)
      × (26 ≤ length text)
      × (length text ≤ 29)
      × ((length text ≡ 29) ↔ (100000000 ≤ tv_nsec))
unfolding event_timestamp
event_timestamp-length timestamp_buf tv_nsec date valid = (
  rw (is_valid, take-all 39 text (few (nine_digits tv_nsec valid))) refl,
  at_least (nine_digits tv_nsec valid),
  at_most (nine_digits tv_nsec valid),
  exactly (nine_digits tv_nsec valid),
)
  where
    digits : List ℕ
    digits = decimal 19 tv_nsec

    text : List ℕ
    text = timestamp_buf ++ b'.' ∷ padded_six digits

    is_valid : ltb tv_nsec 1000000000 ≡ true
    is_valid = ground (arith, valid)

    Digits : Type 0
    Digits =
        ((tv_nsec < 100000000) × (length digits ≤ 8))
        ⊎ ((100000000 ≤ tv_nsec) × (length digits ≡ 9))

    size : length text ≡ 20 + (6 - length digits + length digits)
    size = omega (
      arith,
      date,
      length-append timestamp_buf (b'.' ∷ padded_six digits),
      length-padded_six digits,
    )

    few : Digits → length text ≤ 39
    few d = ground (arith, size)

    at_least : Digits → 26 ≤ length text
    at_least d = omega (arith, size)

    at_most : Digits → length text ≤ 29
    at_most d = ground (arith, size)

    exactly : Digits → (length text ≡ 29) ↔ (100000000 ≤ tv_nsec)
    exactly (inl d) =
        (λ e. absurd (omega (arith, size, d.1)), λ large. absurd (omega (arith, d.0, large)))
    exactly (inr d) = (λ e. d.0, λ large. omega (arith, size, d.1))
