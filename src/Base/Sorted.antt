-- ===== src/Base/Sorted.antt =====
-- `sorted(set(...))`: the members in the order of texts, each once.
use Prim.Native.String.{String}
use mathlib.Core.Path.{◌≡◌}
use mathlib.Core.Logic.{◌↔◌, ◌⊎◌}
use mathlib.Core.Bool.{Bool, true, false}
use mathlib.Core.List.{List, [], ◌∷◌}
use native.Mathlib.Omega.{arith}
use text.Mathlib.Text.{◌==◌}
use text.Mathlib.TextEquality.{eq_iff}
use aegis_flow.Base.Tests.{if◌then◌else◌}
use aegis_flow.Base.Lists.{In}
use aegis_flow.Base.Texts.{codes, codes_injective, text_ltb, text_ltb_total}

unfoldable pub precedes : String → String → Bool
unfolding text_ltb
precedes s t = text_ltb (codes s) (codes t)

pub precedes_total : (s t : String) → precedes s t ≡ false → precedes t s ≡ false → s ≡ t
unfolding precedes
precedes_total s t h k = codes_injective s t (text_ltb_total (codes s) (codes t) h k)

unfoldable pub insert_sorted : String → List String → List String
insert_sorted a [] = a ∷ []
insert_sorted a (x ∷ xs) =
    if a == x then x ∷ xs else if precedes a x then a ∷ x ∷ xs else x ∷ insert_sorted a xs

-- `sorted(...)` of a list: equal texts all stay.
insert_text : String → List String → List String
insert_text a [] = a ∷ []
insert_text a (x ∷ xs) = if precedes x a then x ∷ insert_text a xs else a ∷ x ∷ xs

unfoldable pub sort_texts : List String → List String
unfolding insert_text precedes
sort_texts [] = []
sort_texts (x ∷ xs) = insert_text x (sort_texts xs)

In-insert_text : (b a : String) (xs : List String) → In b (insert_text a xs) ↔ ((b ≡ a) ⊎ In b xs)
unfolding insert_text
In-insert_text b a [] = ground arith
In-insert_text b a (x ∷ xs) = ground (arith, In-insert_text b a xs)

pub In-sort_texts : (b : String) (xs : List String) → In b (sort_texts xs) ↔ In b xs
unfolding sort_texts
In-sort_texts b [] = (λ m. m, λ m. m)
In-sort_texts b (x ∷ xs) = ground (arith, In-insert_text b x (sort_texts xs), In-sort_texts b xs)

unfoldable pub sorted_set : List String → List String
unfolding insert_sorted precedes
sorted_set [] = []
sorted_set (x ∷ xs) = insert_sorted x (sorted_set xs)

pub In-insert_sorted :
    (b a : String) (xs : List String) → In b (insert_sorted a xs) ↔ ((b ≡ a) ⊎ In b xs)
unfolding insert_sorted
In-insert_sorted b a [] = ground arith
In-insert_sorted b a (x ∷ xs) = ground (arith, eq_iff a x, In-insert_sorted b a xs)

pub In-sorted_set : (b : String) (xs : List String) → In b (sorted_set xs) ↔ In b xs
unfolding sorted_set
In-sorted_set b [] = (λ m. m, λ m. m)
In-sorted_set b (x ∷ xs) = ground (arith, In-insert_sorted b x (sorted_set xs), In-sorted_set b xs)

-- Each text strictly precedes the next, so none stands twice.
abbrev pub IsSorted : List String → Type 0
IsSorted [] = Unit
IsSorted (x ∷ []) = Unit
IsSorted (x ∷ y ∷ ys) = (precedes x y ≡ true) × IsSorted (y ∷ ys)

IsSorted-insert_sorted :
    (a : String) (xs : List String) → IsSorted xs → IsSorted (insert_sorted a xs)
unfolding insert_sorted
IsSorted-insert_sorted a [] h = tt
IsSorted-insert_sorted a (x ∷ []) h = ground (arith, eq_iff a x, precedes_total a x)
IsSorted-insert_sorted a (x ∷ y ∷ ys) h = ground (
  arith,
  eq_iff a x,
  eq_iff a y,
  precedes_total a x,
  precedes_total a y,
  IsSorted-insert_sorted a (y ∷ ys),
)

pub IsSorted-sorted_set : (xs : List String) → IsSorted (sorted_set xs)
unfolding sorted_set
IsSorted-sorted_set [] = tt
IsSorted-sorted_set (x ∷ xs) = IsSorted-insert_sorted x (sorted_set xs) (IsSorted-sorted_set xs)
