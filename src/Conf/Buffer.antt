-- ===== src/Conf/Buffer.antt =====
-- Byte buffers and the string functions that write into them: `strncpy`, `strncat` and `getcwd` of
-- the C library, and `util_copy_string` of src/utils.c. A write past the end makes the list longer.
pub mod Copy
pub mod Append
use sentry_peer.Base.{
  ℕ, zero, suc, ◌+◌, ◌-◌, ◌≤◌, ◌<◌, ◌≡◌, refl, ◌∙◌, Bool, true, false, Option, none, some, List, [],
  ◌∷◌, ◌++◌, arith, ltb, leb, ◌==◌, if◌then◌else◌, length, take, drop, length-append, length-drop,
}

-- The bytes before the first NUL.
unfoldable pub c_string : List ℕ → List ℕ
c_string [] = []
c_string (c ∷ cs) = let rest = c_string cs in if c == 0 then [] else c ∷ rest

unfoldable pub strlen : List ℕ → ℕ
unfolding c_string
strlen buf = length (c_string buf)

-- The `n` bytes that `strncpy` writes: the source, and NUL from its end on.
unfoldable pub padded : ℕ → List ℕ → List ℕ
padded zero src = []
padded (suc n) [] = 0 ∷ padded n []
padded (suc n) (c ∷ cs) = c ∷ padded n cs

unfoldable pub strncpy : List ℕ → List ℕ → ℕ → List ℕ
unfolding padded
strncpy dest src n = padded n src ++ drop n dest

-- A string and its NUL, written at the start of a buffer.
unfoldable pub overlay : List ℕ → List ℕ → List ℕ
overlay pre buf = pre ++ 0 ∷ drop (suc (length pre)) buf

-- At most `n` bytes and a NUL, written from the NUL of the destination on.
unfoldable pub strncat : List ℕ → List ℕ → ℕ → List ℕ
unfolding c_string overlay
strncat dest src n = overlay (c_string dest ++ take n src) dest

-- `none` when the path and its NUL do not fit into `size` bytes, or there is no such path.
unfoldable pub getcwd : Option (List ℕ) → List ℕ → ℕ → Option (List ℕ)
unfolding overlay
getcwd none buf size = none
getcwd (some cwd) buf size = if ltb (length cwd) size then some (overlay cwd buf) else none

-- The buffer after the call, and whether `dest` is returned (`false` for NULL). `none` is a failed
-- assertion.
unfoldable pub util_copy_string : List ℕ → List ℕ → ℕ → Option (List ℕ × Bool)
unfolding strncpy
util_copy_string dest src dest_len =
    if dest_len == 0
    then none
    else if ltb dest_len (length src)
    then some (dest, false)
    else some (strncpy dest src dest_len, true)

-- A source is a C string: no byte of it is NUL.
abbrev pub NonZero : List ℕ → Type 0
NonZero [] = Unit {0}
NonZero (c ∷ cs) = (0 < c) × NonZero cs

-- `calloc(cap + 1)`: room for `cap` bytes, and a last byte that is NUL.
pub record IsBuffer (cap : ℕ) (buf : List ℕ) : Type 0 where
  pub size : length buf ≡ cap + 1
  pub terminated : drop cap buf ≡ 0 ∷ []
