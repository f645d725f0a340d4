-- ===== src/Http/Regex.antt =====
-- `regex_match` of src/regex_match.c. PCRE2 is a parameter.
use sentry_peer.Base.{ℕ, String, Bool, ltb, leb, ◌==◌, Option, none, some}
use sentry_peer.World.{M, Str, bad_read, malloc, free, pure, stop, when, ◌>>=◌, ◌>>◌}
use sentry_peer.Actor.{util_duplicate_string}
use Prim.Native.String.{len, slice}

-- What `pcre2_match` returns where it is not negative, and the vector of offsets.
pub record Match : Type 0 where
  pub rc : ℕ
  pub ovector : ℕ → ℕ

-- What PCRE2 answers for a pattern, and for a pattern and a subject. `none` is a negative result.
pub record Pcre2 : Type 0 where
  pub compiles : String → Bool
  pub match : String → String → Option Match

-- `pcre2_match_data_free(match_data); pcre2_code_free(re); return …;`
unfoldable pub release : ℕ → ℕ → Option Str → M (Option Str)
release re match_data matched = do free match_data; free re; pure matched

-- The text from an offset on, which is within the subject or at its end.
unfoldable pub text_from : String → ℕ → M String
text_from subject offset =
    when (leb offset (len subject)) (pure (slice subject offset (len subject))) (stop bad_read)

-- From the result of `pcre2_match` on. The first group begins at `ovector[2]`; the copy goes on to the
-- end of the subject. `none` is EXIT_FAILURE.
unfoldable pub read_match : String → ℕ → ℕ → Option Match → M (Option Str)
unfolding release text_from util_duplicate_string
read_match subject re match_data none = release re match_data none
read_match subject re match_data (some m) = when (m.rc == 0) (release re match_data none) (
    when (ltb (m.ovector 1) (m.ovector 0)) (release re match_data none) do
      t ← text_from subject (m.ovector 2)
      matched_string ← util_duplicate_string (some t)
      release re match_data (some matched_string))

-- A pattern that does not compile leaves a null pointer, which is read all the same.
unfoldable pub regex_match : Pcre2 → String → String → M (Option Str)
unfolding read_match
regex_match pcre string regex =
    when (pcre.compiles regex)
      (do
        re ← malloc {A = Unit {0}} tt
        match_data ← malloc {A = Unit {0}} tt
        read_match string re.block match_data.block (pcre.match regex string))
      (stop bad_read)
