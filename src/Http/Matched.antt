-- ===== src/Http/Matched.antt =====
-- The heap over `regex_match` of src/regex_match.c, and what it answers.
use sentry_peer.Base.{
  ℕ, ◌+◌, ◌≡◌, refl, String, true, false, ltb, leb, ◌==◌, Option, none, some, List, ◌∷◌,
  remove_second, arith,
}
use sentry_peer.World.{World, Str, done, malloc, free}
use sentry_peer.World.Ends.{Ends, ended, halted, Holding, bind, branch, malloc-Ends, free-Ends}
use sentry_peer.Actor.{util_duplicate_string}
use sentry_peer.Http.Regex.{Match, Pcre2, release, text_from, read_match, regex_match}
use sentry_peer.Http.NoLeak.{NoBadFree}
use Prim.Native.String.{len, slice}

free_second :
    (a b : ℕ) (xs : List ℕ) (w : World)
    → (a == b) ≡ false
    → free b (record w { live = a ∷ b ∷ xs }) ≡ done tt (record w { live = a ∷ xs })
unfolding free
free_second a b xs w e = rw (remove_second a b xs e, free)

-- The heap with the matched text, if there is one.
abbrev pub Matched : List ℕ → Option Str → World → Type 0
Matched bs none w = Holding bs w
Matched bs (some s) w = Holding (s.block ∷ bs) w

release-Matched :
    (re match_data : ℕ) (o : Option Str) {bs : List ℕ} (w : World)
    → Matched (match_data ∷ re ∷ bs) o w
    → Ends NoBadFree (Matched bs) (release re match_data o w)
unfolding release
release-Matched re match_data none {bs} w h =
    bind (free-Ends match_data (re ∷ bs) h (λ a. refl))
      λ _ w1 h1. bind (free-Ends re bs h1 (λ a. refl)) λ _ w2 h2. ended h2
release-Matched re match_data (some s) {bs} w h =
    bind (free-Ends match_data (s.block ∷ re ∷ bs) h (λ a. omega arith))
      λ _ w1 h1. bind (free-Ends re (s.block ∷ bs) h1 (λ a. omega arith)) λ _ w2 h2. ended h2

text_from-Ends :
    (subject : String) (offset : ℕ) {bs : List ℕ} {w : World}
    → Holding bs w
    → Ends NoBadFree (λ _ w'. Holding bs w') (text_from subject offset w)
unfolding text_from
text_from-Ends subject offset h = branch (leb offset (len subject)) (ended h) (halted tt)

read_match-Matched :
    (subject : String) (re match_data : ℕ) (m : Option Match) {bs : List ℕ} {w : World}
    → Holding (match_data ∷ re ∷ bs) w
    → Ends NoBadFree (Matched bs) (read_match subject re match_data m w)
unfolding read_match util_duplicate_string
read_match-Matched subject re match_data none h = release-Matched re match_data none _ h
read_match-Matched subject re match_data (some m) h =
    branch (m.rc == 0) (release-Matched re match_data none _ h) (
      branch (ltb (m.ovector 1) (m.ovector 0)) (release-Matched re match_data none _ h) (
        bind (text_from-Ends subject (m.ovector 2) h) λ t w1 h1.
          bind (malloc-Ends t h1) λ s w2 h2. release-Matched re match_data (some s) w2 h2.0))

-- The data of the match and the compiled pattern are freed, whether there is a match or not.
pub regex_match-Matched :
    (pcre : Pcre2) (string regex : String) {bs : List ℕ} {w : World}
    → Holding bs w
    → Ends NoBadFree (Matched bs) (regex_match pcre string regex w)
unfolding regex_match
regex_match-Matched pcre string regex h =
    branch (pcre.compiles regex)
      (bind (malloc-Ends tt h) λ re w1 h1. bind (malloc-Ends tt h1.0) λ match_data w2 h2.
        read_match-Matched string re.block match_data.block (pcre.match regex string) h2.0)
      (halted tt)

-- The pattern compiles and matches, and its first group begins within the subject.
pub record Captures (pcre : Pcre2) (regex string : String) (m : Match) : Type 0 where
  pub compiles : pcre.compiles regex ≡ true
  pub matches : pcre.match regex string ≡ some m
  pub enough_room : (m.rc == 0) ≡ false
  pub ordered : ltb (m.ovector 1) (m.ovector 0) ≡ false
  pub within : leb (m.ovector 2) (len string) ≡ true

next_differs : (n : ℕ) → (n + 1 == n) ≡ false
next_differs n = ground arith

after_next_differs : (n : ℕ) → (n + 1 + 1 == n) ≡ false
after_next_differs n = ground arith

release_last :
    (s : String) (w : World)
    → release w.next
        (w.next + 1)
        (some (record { block = w.next + 1 + 1; contents = s }))
        (record w {
          live = (w.next + 1 + 1) ∷ (w.next + 1) ∷ w.next ∷ w.live;
          next = w.next + 1 + 1 + 1;
        })
      ≡ done
          (some (record { block = w.next + 1 + 1; contents = s }))
          (record w { live = (w.next + 1 + 1) ∷ w.live; next = w.next + 1 + 1 + 1 })
unfolding release
release_last s w =
    rw
      (
        free_second (w.next + 1 + 1) (w.next + 1) (w.next ∷ w.live)
            (record w { next = w.next + 1 + 1 + 1 }) (next_differs (w.next + 1)),
        free_second (w.next + 1 + 1) w.next w.live (record w { next = w.next + 1 + 1 + 1 })
            (after_next_differs w.next),
      )
      refl

-- The three blocks are taken in a row, and the text's is kept.
pub regex_match-Captures :
    (pcre : Pcre2) (string regex : String) (m : Match) (w : World)
    → Captures pcre regex string m
    → regex_match pcre string regex w
      ≡ done
          (some
            (record { block = w.next + 1 + 1; contents = slice string (m.ovector 2) (len string) }))
          (record w { live = (w.next + 1 + 1) ∷ w.live; next = w.next + 1 + 1 + 1 })
unfolding regex_match read_match text_from util_duplicate_string malloc
regex_match-Captures pcre string regex m w c =
    rw (c.compiles, c.matches, c.enough_room, c.ordered, c.within) (release_last _ w)
