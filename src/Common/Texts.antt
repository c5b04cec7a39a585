-- ===== src/Common/Texts.antt =====
-- Texts as sequences of characters: dotted paths, order, suffixes.

use Prim.Native.Char.{Char, code}
use Prim.Native.String.{String}
use mathlib.Core.Path.{◌≡◌}
use mathlib.Core.Logic.{◌⊎◌, inl, inr}
use mathlib.Core.Bool.{Bool, true, false}
use mathlib.Core.List.{List, [], ◌∷◌}
use nsw_core.Common.Tests.{◌==◌, ltb, str_eq, if◌then◌else◌, Bool-cases, str_eq→eq, eq→str_eq}
use nsw_core.Common.Lists.{In}

-- Puts a character in front of the first segment.
abbrev pub cons_head : Char → List String → List String
cons_head c [] = (String.◌∷◌ c String.[]) ∷ []
cons_head c (x ∷ xs) = (String.◌∷◌ c x) ∷ xs

-- The segments of a path between its dots, found from the left.
unfoldable pub segments : String → List String
segments String.[] = "" ∷ []
segments (String.◌∷◌ c s) =
    let rest = segments s in if code c == b'.' then "" ∷ rest else cons_head c rest

-- The order of Go's `slices.Sorted` and `sort.Strings` on texts.
unfoldable pub text_leb : String → String → Bool
text_leb String.[] t = true
text_leb (String.◌∷◌ c s) String.[] = false
text_leb (String.◌∷◌ c s) (String.◌∷◌ d t) =
    let rest = text_leb s t in
    if ltb (code c) (code d) then true else if ltb (code d) (code c) then false else rest

abbrev insert_text : String → List String → List String
insert_text x [] = x ∷ []
insert_text x (y ∷ ys) =
    let rest = insert_text x ys in if text_leb x y then x ∷ y ∷ ys else y ∷ rest

unfoldable pub sort_texts : List String → List String
unfolding text_leb
sort_texts [] = []
sort_texts (x ∷ xs) = insert_text x (sort_texts xs)

unfoldable pub mem_text : String → List String → Bool
mem_text x [] = false
mem_text x (y ∷ ys) = let rest = mem_text x ys in if str_eq x y then true else rest

In-insert_text : (x y : String) (xs : List String) → In y (insert_text x xs) → (y ≡ x) ⊎ In y xs
In-insert_text x y [] h = h
In-insert_text x y (z ∷ zs) h = elim (Bool-cases (text_leb x z)) [
  | inl less ↦ rw less at h
  | inr more ↦ elim (let h' : (y ≡ z) ⊎ In y (insert_text x zs) = rw more at h in h') [
    | inl e ↦ inr (inl e)
    | inr later ↦ elim (In-insert_text x y zs later) [ inl e ↦ inl e | inr h' ↦ inr (inr h') ]
  ]
]

insert_text-In : (x y : String) (xs : List String) → (y ≡ x) ⊎ In y xs → In y (insert_text x xs)
insert_text-In x y [] h = h
insert_text-In x y (z ∷ zs) h = elim (Bool-cases (text_leb x z)) [
  | inl less ↦ rw less h
  | inr more ↦ rw more (elim h [
    | inl e ↦ inr (insert_text-In x y zs (inl e))
    | inr (inl e) ↦ inl e
    | inr (inr h') ↦ inr (insert_text-In x y zs (inr h'))
  ])
]

pub In-sort_texts : (y : String) (xs : List String) → In y (sort_texts xs) → In y xs
unfolding sort_texts
In-sort_texts y [] h = h
In-sort_texts y (x ∷ xs) h = elim (In-insert_text x y (sort_texts xs) h) [
  | inl e ↦ inl e
  | inr h' ↦ inr (In-sort_texts y xs h')
]

pub sort_texts-In : (y : String) (xs : List String) → In y xs → In y (sort_texts xs)
unfolding sort_texts
sort_texts-In y [] h = h
sort_texts-In y (x ∷ xs) (inl e) = insert_text-In x y (sort_texts xs) (inl e)
sort_texts-In y (x ∷ xs) (inr h) = insert_text-In x y (sort_texts xs) (inr (sort_texts-In y xs h))

pub mem_text→In : (x : String) (xs : List String) → mem_text x xs ≡ true → In x xs
unfolding mem_text
mem_text→In x [] h = cc
mem_text→In x (y ∷ ys) h = elim (Bool-cases (str_eq x y)) [
  | inl same ↦ inl (str_eq→eq x y same)
  | inr other ↦ inr (mem_text→In x ys (rw other at h))
]

pub In→mem_text : (x : String) (xs : List String) → In x xs → mem_text x xs ≡ true
unfolding mem_text
In→mem_text x [] h = elim h [ ]
In→mem_text x (y ∷ ys) (inl e) = rw (eq→str_eq x y e)
In→mem_text x (y ∷ ys) (inr h) = elim (Bool-cases (str_eq x y)) [
  | inl same ↦ rw same
  | inr other ↦ rw other (In→mem_text x ys h)
]
