-- ===== src/Conf/Locations.antt =====
-- Where the database and the JSON log are, `set_db_file_location` and `set_json_log_file_location` of
-- src/conf.c.
use sentry_peer.Base.{
  ℕ, zero, suc, ◌+◌, ◌-◌, ◌≤◌, ◌<◌, ◌≡◌, refl, ◌∙◌, ap, String, Bool, true, false, Option, none,
  some, List, [], ◌∷◌, ◌++◌, arith, length, take, length-append, ltb, Bool-cases, inl, inr,
}
use sentry_peer.Conf.Buffer.{
  c_string, strlen, overlay, strncat, getcwd, util_copy_string, NonZero, IsBuffer,
}
use sentry_peer.Conf.Buffer.Copy.{CopyContract, copies, refuses, util_copy_string-CopyContract}
use sentry_peer.Conf.Buffer.Append.{c_string-overlay, NonZero-c_string, NonZero-append}
use sentry_peer.Conf.Settings.{path_max, copy_into, in_working_dir, is_absolute, file_location}

take-all : (n : ℕ) (xs : List ℕ) → length xs ≤ n → take n xs ≡ xs
take-all zero [] h = refl
take-all zero (x ∷ xs) h = absurd (omega arith)
take-all (suc n) [] h = refl
take-all (suc n) (x ∷ xs) h = rw (take-all n xs (omega arith))

-- An append of a string that fits.
c_string-strncat :
    (dest src : List ℕ) (n : ℕ)
    → NonZero src
    → length src ≤ n
    → c_string (strncat dest src n) ≡ c_string dest ++ src
unfolding strncat
c_string-strncat dest src n z h = rw (take-all n src h) (
    c_string-overlay (c_string dest ++ src) dest
      (NonZero-append (c_string dest) src (NonZero-c_string dest) z))

getcwd-fits :
    (dir buf : List ℕ) (n : ℕ) → length dir < n → getcwd (some dir) buf n ≡ some (overlay dir buf)
unfolding getcwd
getcwd-fits dir buf n h = elim (Bool-cases (ltb (length dir) n)) [
  | inl e ↦ rw e refl
  | inr e ↦ absurd (ground arith)
]

in_working_dir-fits :
    (dir name buf : List ℕ) (slashed : List ℕ)
    → length dir < path_max
    → slashed ≡ strncat (overlay dir buf) (b'/' ∷ []) (path_max - strlen (overlay dir buf))
    → in_working_dir (some dir) name buf ≡ some (strncat slashed name (path_max - strlen slashed))
unfolding in_working_dir
in_working_dir-fits dir name buf slashed h e =
    rw (getcwd-fits dir buf path_max h, in_working_dir, e)

copy_into-long : (n : ℕ) (dest src : List ℕ) → 0 < n → n < length src → copy_into dest src n ≡ dest
unfolding copy_into util_copy_string
copy_into-long n dest src pos long = ground arith

copy_into-reads :
    (n : ℕ) (dest src dest' : List ℕ) (copied : Bool)
    → util_copy_string dest src n ≡ some (dest', copied)
    → length src ≤ n
    → CopyContract n dest src dest' copied
    → c_string (copy_into dest src n) ≡ src
unfolding copy_into
copy_into-reads n dest src dest' true e fits (copies short b reads) = rw (e, copy_into) reads
copy_into-reads n dest src _ false e fits (refuses long) = absurd (omega arith)

module _ (getenv : String → Option (List ℕ)) (var : String) (name buf : List ℕ) where
  -- Where no option is given, the variable is not set, and the working directory, a slash and the
  -- default name have no NUL and fit into the buffer's 4096 bytes, the location is set and reads as the
  -- three in a row.
  pub file_location-default :
      (dir : List ℕ)
      → getenv var ≡ none
      → NonZero dir
      → NonZero name
      → length dir + 1 + length name ≤ path_max
      → (buf' : List ℕ) × (file_location getenv (some dir) var name none buf ≡ some buf')
        × (c_string buf' ≡ (dir ++ b'/' ∷ []) ++ name)
  unfolding file_location strlen
  file_location-default dir unset zd zn fits = (
    strncat slashed name (path_max - strlen slashed),
    rw (unset, file_location) (in_working_dir-fits dir name buf slashed (omega (arith, fits)) refl),
    c_string-strncat slashed name (path_max - strlen slashed) zn
          (omega (arith, ap length reads, length-append dir (b'/' ∷ []), fits))
        ∙ ap (λ s. s ++ name) reads,
  )
    where
      written : List ℕ
      written = overlay dir buf

      slashed : List ℕ
      slashed = strncat written (b'/' ∷ []) (path_max - strlen written)

      reads : c_string slashed ≡ dir ++ b'/' ∷ []
      reads =
          c_string-strncat written (b'/' ∷ []) (path_max - strlen written) (omega arith, tt)
            (omega (arith, ap length (c_string-overlay dir buf zd), fits))
          ∙ ap (λ s. s ++ b'/' ∷ []) (c_string-overlay dir buf zd)

  -- An absolute path as the option's argument, of at most 4096 bytes and without a NUL, is the location
  -- that the buffer then reads as, whatever the variable and the working directory are.
  pub file_location-absolute :
      (cwd : Option (List ℕ)) (location : List ℕ)
      → is_absolute location ≡ true
      → NonZero location
      → length location ≤ path_max
      → IsBuffer path_max buf
      → (buf' : List ℕ) × (file_location getenv cwd var name (some location) buf ≡ some buf')
        × (c_string buf' ≡ location)
  unfolding file_location
  file_location-absolute cwd location absolute z fits b =
      let (dest', copied, e, contract) =
        util_copy_string-CopyContract path_max buf location (omega arith) b z in
      (
        copy_into buf location path_max,
        rw absolute refl,
        copy_into-reads path_max buf location dest' copied e fits contract,
      )

  -- An absolute path of more than 4096 bytes as the option's argument is reported as a success, although
  -- the location stays what it was.
  pub file_location-too_long :
      (cwd : Option (List ℕ)) (location : List ℕ)
      → is_absolute location ≡ true
      → path_max < length location
      → file_location getenv cwd var name (some location) buf ≡ some buf
  unfolding file_location
  file_location-too_long cwd location absolute long =
      rw (absolute, copy_into-long path_max buf location (omega arith) long)
