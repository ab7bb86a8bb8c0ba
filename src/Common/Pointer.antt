-- ===== src/Common/Pointer.antt =====
-- JSON pointers (RFC 6901): a path is its reference tokens, each behind a slash, in which "~1" stands
-- for a slash and "~0" for a tilde.
use Prim.Native.Char.{Char, code}
use Prim.Native.String.{[], ◌∷◌}
use mathlib.Core.List.{List, map, tail}
use text.Mathlib.TextLemmas.{nil-append, cons-append}
use text.Mathlib.TextEquality.{Char-path}
use Prim.Native.String
use karydia.Common.{Bool-cases, inl, inr, String, ◌≡◌, refl, ◌≢◌, arith, num_eq, if◌then◌else◌}
use karydia.Common.Text.{Lacks, split, replace}

-- `~1` and `~0` in a token stand for `/` and `~`.
unfoldable pub unescape : String → String
unescape [] = []
unescape (c ∷ []) = c ∷ []
unescape (c ∷ d ∷ s) =
    let past = unescape s in
    let next = unescape (d ∷ s) in
    if num_eq (code c) b'~'
    then (if num_eq (code d) b'1'
        then "/" ∷ past
        else if num_eq (code d) b'0'
        then "~" ∷ past
        else c ∷ next)
    else c ∷ next

-- The tokens of a path; what stands before the first slash is dropped.
unfoldable pub tokens : String → List String
unfolding unescape
tokens path = map unescape (tail (split b'/' path))

unescape-cons : (c : Char) (s : String) → code c ≢ b'~' → unescape (c ∷ s) ≡ c ∷ unescape s
unfolding unescape
unescape-cons c [] p = refl
unescape-cons c (d ∷ s) p = ground arith

unescape-slash : (s : String) → unescape (String.◌++◌ "~1" s) ≡ "/" ∷ unescape s
unfolding unescape
unescape-slash s = rw (cons-append, cons-append, nil-append)

-- The escaping that the program does, of slashes alone, is undone for a key without a tilde.
pub unescape-replace : (key : String) → Lacks b'~' key → unescape (replace b'/' "~1" key) ≡ key
unfolding replace
unescape-replace [] h = unfold unescape in refl
unescape-replace (c ∷ s) (p, h) = elim (Bool-cases (num_eq (code c) b'/')) [
  | inl slash ↦
      rw slash (rw unescape-slash (cc (unescape-replace s h, Char-path c "/" (ground arith))))
  | inr other ↦ rw (other, unescape-cons, unescape-replace s h, p)
]

-- The escaped text has no slash.
pub Lacks-replace : (key : String) → Lacks b'/' (replace b'/' "~1" key)
unfolding replace
Lacks-replace [] = tt
Lacks-replace (c ∷ s) = elim (Bool-cases (num_eq (code c) b'/')) [
  | inl slash ↦
      rw slash
        (rw (cons-append, cons-append, nil-append) (omega arith, (omega arith, Lacks-replace s)))
  | inr other ↦ rw other (ground arith, Lacks-replace s)
]

pub unescape_of_Lacks : (s : String) → Lacks b'~' s → unescape s ≡ s
unescape_of_Lacks [] h = unfold unescape in refl
unescape_of_Lacks (c ∷ s) (p, h) = rw (unescape-cons, unescape_of_Lacks s h, p)
