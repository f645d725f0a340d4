-- ===== src/Conf/Buffer/Append.antt =====
-- `strncat` and `getcwd` on the configuration's buffers.
use sentry_peer.Base.{
  ℕ, zero, suc, ◌+◌, ◌-◌, ◌≤◌, ◌<◌, ◌≡◌, refl, List, [], ◌∷◌, ◌++◌, arith, length, take, drop,
  length-append, length-drop,
}
use sentry_peer.Conf.Buffer.{c_string, strlen, overlay, strncat, NonZero, IsBuffer}

pub NonZero-c_string : (buf : List ℕ) → NonZero (c_string buf)
unfolding c_string
NonZero-c_string [] = tt
NonZero-c_string (c ∷ cs) = ground (arith, NonZero-c_string cs)

pub NonZero-take : (n : ℕ) (s : List ℕ) → NonZero s → NonZero (take n s)
NonZero-take zero s z = tt
NonZero-take (suc n) [] z = tt
NonZero-take (suc n) (c ∷ cs) z = (z.0, NonZero-take n cs z.1)

pub NonZero-append : (xs ys : List ℕ) → NonZero xs → NonZero ys → NonZero (xs ++ ys)
NonZero-append [] ys zx zy = zy
NonZero-append (x ∷ xs) ys zx zy = (zx.0, NonZero-append xs ys zx.1 zy)

pub c_string-overlay : (pre buf : List ℕ) → NonZero pre → c_string (overlay pre buf) ≡ pre
unfolding c_string overlay
c_string-overlay [] buf z = refl
c_string-overlay (c ∷ cs) buf z = ground (arith, c_string-overlay cs (drop 1 buf) z.1)

length-overlay :
    (pre buf : List ℕ) → length pre < length buf → length (overlay pre buf) ≡ length buf
unfolding overlay
length-overlay pre buf h =
    omega (
      arith,
      length-append pre (0 ∷ drop (suc (length pre)) buf),
      length-drop (suc (length pre)) buf,
    )

drop-overlay :
    (cap : ℕ) (pre buf : List ℕ)
    → length buf ≡ cap + 1
    → length pre ≤ cap
    → drop cap buf ≡ 0 ∷ []
    → drop cap (overlay pre buf) ≡ 0 ∷ []
unfolding overlay
drop-overlay zero [] [] size h e = absurd (omega arith)
drop-overlay zero [] (x ∷ []) size h e = refl
drop-overlay zero [] (x ∷ y ∷ ys) size h e = absurd (omega arith)
drop-overlay zero (c ∷ cs) buf size h e = absurd (omega arith)
drop-overlay (suc cap) [] [] size h e = absurd (omega arith)
drop-overlay (suc cap) [] (x ∷ xs) size h e = e
drop-overlay (suc cap) (c ∷ cs) [] size h e = absurd (omega arith)
drop-overlay (suc cap) (c ∷ cs) (x ∷ xs) size h e =
    drop-overlay cap cs xs (omega arith) (omega arith) e

pub overlay-IsBuffer :
    (cap : ℕ) (pre buf : List ℕ)
    → IsBuffer cap buf
    → length pre ≤ cap
    → IsBuffer cap (overlay pre buf)
overlay-IsBuffer cap pre buf b h = record {
  size = omega (arith, b.size, length-overlay pre buf);
  terminated = drop-overlay cap pre buf b.size h b.terminated;
}

length-take : (n : ℕ) (s : List ℕ) → length (take n s) ≤ n
length-take zero s = omega arith
length-take (suc n) [] = omega arith
length-take (suc n) (c ∷ cs) = omega (arith, length-take n cs)

terminated-le :
    (n : ℕ) (buf : List ℕ) → length buf ≡ n + 1 → drop n buf ≡ 0 ∷ [] → length (c_string buf) ≤ n
unfolding c_string
terminated-le zero [] size e = absurd (omega arith)
terminated-le zero (x ∷ xs) size e = ground arith
terminated-le (suc n) [] size e = omega arith
terminated-le (suc n) (x ∷ xs) size e = ground (arith, terminated-le n xs (omega arith) e)

-- In a terminated buffer the NUL is within the buffer.
pub strlen-le : (cap : ℕ) (buf : List ℕ) → IsBuffer cap buf → strlen buf ≤ cap
unfolding strlen
strlen-le cap buf b = terminated-le cap buf b.size b.terminated

pub strlen_lem : (buf : List ℕ) → strlen buf ≡ length (c_string buf)
unfolding strlen
strlen_lem buf = refl

-- Appending to a buffer of `cap` bytes and a terminator at most as many bytes as its string leaves free
-- of the `cap` keeps the buffer's size and its last NUL, whatever is appended.
pub strncat-IsBuffer :
    (cap : ℕ) (buf src : List ℕ)
    → IsBuffer cap buf
    → IsBuffer cap (strncat buf src (cap - strlen buf))
unfolding strncat
strncat-IsBuffer cap buf src b =
    overlay-IsBuffer cap (c_string buf ++ take (cap - strlen buf) src) buf b (
      omega (
        arith,
        length-append (c_string buf) (take (cap - strlen buf) src),
        length-take (cap - strlen buf) src,
        strlen-le cap buf b,
        strlen_lem buf,
      ))
