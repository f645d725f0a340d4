-- ===== src/Conf/Buffer/Copy.antt =====
-- `util_copy_string` of src/utils.c on the configuration's buffers.
use sentry_peer.Base.{
  ℕ, zero, suc, ◌≤◌, ◌<◌, ◌≡◌, refl, ◌∙◌, Bool, true, false, some, List, [], ◌∷◌, ◌++◌, arith, ltb,
  length, drop, length-append, length-drop, Bool-cases, inl, inr,
}
use sentry_peer.Conf.Buffer.{c_string, padded, strncpy, util_copy_string, NonZero, IsBuffer}

length-padded : (n : ℕ) (src : List ℕ) → length (padded n src) ≡ n
unfolding padded
length-padded zero src = refl
length-padded (suc n) [] = omega (arith, length-padded n [])
length-padded (suc n) (c ∷ cs) = omega (arith, length-padded n cs)

drop-padded : (n : ℕ) (src ys : List ℕ) → drop n (padded n src ++ ys) ≡ ys
unfolding padded
drop-padded zero src ys = refl
drop-padded (suc n) [] ys = drop-padded n [] ys
drop-padded (suc n) (c ∷ cs) ys = drop-padded n cs ys

c_string-zeros : (n : ℕ) → c_string (padded n [] ++ 0 ∷ []) ≡ []
unfolding c_string padded
c_string-zeros zero = refl
c_string-zeros (suc n) = refl

c_string-padded :
    (n : ℕ) (src : List ℕ) → NonZero src → length src ≤ n → c_string (padded n src ++ 0 ∷ []) ≡ src
unfolding c_string padded
c_string-padded n [] z h = c_string-zeros n
c_string-padded zero (c ∷ cs) z h = absurd (omega arith)
c_string-padded (suc n) (c ∷ cs) z h = ground (arith, c_string-padded n cs z.1)

pub strncpy-IsBuffer :
    (cap : ℕ) (dest src : List ℕ) → IsBuffer cap dest → IsBuffer cap (strncpy dest src cap)
unfolding strncpy
strncpy-IsBuffer cap dest src b = record {
  size = omega (
    arith,
    b.size,
    length-append (padded cap src) (drop cap dest),
    length-padded cap src,
    length-drop cap dest,
  );
  terminated = drop-padded cap src (drop cap dest) ∙ b.terminated;
}

c_string-strncpy :
    (cap : ℕ) (dest src : List ℕ)
    → IsBuffer cap dest
    → NonZero src
    → length src ≤ cap
    → c_string (strncpy dest src cap) ≡ src
unfolding strncpy
c_string-strncpy cap dest src b z h = rw b.terminated (c_string-padded cap src z h)

-- How the copy into a buffer of `cap` bytes and a terminator may end.
pub data CopyContract (cap : ℕ) (dest src : List ℕ) : List ℕ → Bool → Type 0 where
  copies :
      {dest' : List ℕ}
      → length src ≤ cap
      → IsBuffer cap dest'
      → c_string dest' ≡ src
      → CopyContract cap dest src dest' true
  refuses : cap < length src → CopyContract cap dest src dest false

-- Copying a C string into a buffer of `cap > 0` bytes and a terminator always returns. Either the source
-- has at most `cap` bytes, and the buffer keeps its size and its last NUL and reads as the source, or
-- it is longer, NULL is returned and the buffer is as before.
pub util_copy_string-CopyContract :
    (cap : ℕ) (dest src : List ℕ)
    → 0 < cap
    → IsBuffer cap dest
    → NonZero src
    → (dest' : List ℕ) × (copied : Bool) × (util_copy_string dest src cap ≡ some (dest', copied))
      × CopyContract cap dest src dest' copied
unfolding util_copy_string
util_copy_string-CopyContract cap dest src pos b z = elim (Bool-cases (ltb cap (length src))) [
  | inl long ↦ (dest, false, ground arith, refuses (ground arith))
  | inr short ↦ (
    strncpy dest src cap,
    true,
    ground arith,
    copies (ground arith) (strncpy-IsBuffer cap dest src b)
        (c_string-strncpy cap dest src b z (ground arith)),
  )
]
