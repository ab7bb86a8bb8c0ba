-- ===== src/Common/Text.antt =====
-- Go's strings package and the formatting that the program calls, on texts.
use Prim.Native.Char.{Char, code}
use Prim.Native.String.{String, [], ◌∷◌, ◌++◌}
use mathlib.Core.List.{List}
use text.Mathlib.TextLemmas.{nil-append, cons-append}
use karydia.Common.{ℕ, ◌≡◌, refl, ◌≢◌, arith, num_eq, Bool-cases, inl, inr, if◌then◌else◌}

-- a + b + … of Go
abbrev pub concat : List String → String
concat List.[] = ""
concat (List.◌∷◌ s List.[]) = s
concat (List.◌∷◌ s ss) = s ++ concat ss

-- strings.Split(s, sep) at a separator of one ASCII character, given by its code.
abbrev push_head : Char → List String → List String
push_head c List.[] = List.◌∷◌ (c ∷ []) List.[]
push_head c (List.◌∷◌ s ss) = List.◌∷◌ (c ∷ s) ss

unfoldable pub split : ℕ → String → List String
split sep [] = List.◌∷◌ "" List.[]
split sep (c ∷ s) =
    let rest = split sep s in if num_eq (code c) sep then List.◌∷◌ "" rest else push_head c rest

-- strings.Replace(s, old, new, -1) where `old` is one ASCII character, given by its code.
unfoldable pub replace : ℕ → String → String → String
replace old new [] = []
replace old new (c ∷ s) =
    let rest = replace old new s in if num_eq (code c) old then new ++ rest else c ∷ rest

-- fmt's %v of a slice of texts: the texts between brackets, with spaces between them.
words : List String → String
words List.[] = ""
words (List.◌∷◌ s List.[]) = s
words (List.◌∷◌ s ss) = s ++ (" " ++ words ss)

unfoldable pub format_slice : List String → String
unfolding words
format_slice ss = "[" ++ (words ss ++ "]")

-- No character has the code `sep`.
abbrev pub Lacks : ℕ → String → Type 0
Lacks sep [] = Unit
Lacks sep (c ∷ s) = (code c ≢ sep) × Lacks sep s

-- A text without the separator is one part.
pub split_of_Lacks : (sep : ℕ) (s : String) → Lacks sep s → split sep s ≡ List.◌∷◌ s List.[]
unfolding split
split_of_Lacks sep [] h = refl
split_of_Lacks sep (c ∷ s) (p, h) = rw (split_of_Lacks sep s h) (ground arith)

-- There is always a first part.
pub split-cons :
    (sep : ℕ) (s : String) → (x : String) × (xs : List String) × (split sep s ≡ List.◌∷◌ x xs)
unfolding split
split-cons sep [] = ("", List.[], refl)
split-cons sep (c ∷ s) = elim (Bool-cases (num_eq (code c) sep)) [
  | inl here ↦ ("", split sep s, rw here)
  | inr other ↦ let (x, xs, e) = split-cons sep s in (c ∷ x, xs, rw (other, e))
]

-- The parts of two texts, the last of the first joined to the first of the second.
abbrev pub glue : List String → List String → List String
glue List.[] ys = ys
glue (List.◌∷◌ x List.[]) List.[] = List.◌∷◌ x List.[]
glue (List.◌∷◌ x List.[]) (List.◌∷◌ y ys) = List.◌∷◌ (x ++ y) ys
glue (List.◌∷◌ x (List.◌∷◌ z zs)) ys = List.◌∷◌ x (glue (List.◌∷◌ z zs) ys)

glue-push_head :
    (c : Char) (x y : String) (xs ys : List String)
    → push_head c (glue (List.◌∷◌ x xs) (List.◌∷◌ y ys))
      ≡ glue (List.◌∷◌ (c ∷ x) xs) (List.◌∷◌ y ys)
glue-push_head c x y List.[] ys = rw cons-append
glue-push_head c x y (List.◌∷◌ z zs) ys = refl

pub split-append : (sep : ℕ) (s t : String) → split sep (s ++ t) ≡ glue (split sep s) (split sep t)
unfolding split
split-append sep [] t = let (y, ys, e) = split-cons sep t in rw (nil-append, e) (rw nil-append)
split-append sep (c ∷ s) t =
    let (x, xs, e) = split-cons sep s in
    let (y, ys, e') = split-cons sep t in
    rw cons-append (elim (Bool-cases (num_eq (code c) sep)) [
      | inl here ↦ rw (here, split-append sep s t, e)
      | inr other ↦ rw (other, split-append sep s t, e, e') (glue-push_head c x y xs ys)
    ])

split_test : split b';' "l1;l2" ≡ List.◌∷◌ "l1" (List.◌∷◌ "l2" List.[])
unfolding split
split_test = refl

split_empty : split b';' "" ≡ List.◌∷◌ "" List.[]
unfolding split
split_empty = refl

format_slice_test : format_slice (List.◌∷◌ "a" (List.◌∷◌ "b c" List.[])) ≡ "[a b c]"
unfolding format_slice
format_slice_test = refl
