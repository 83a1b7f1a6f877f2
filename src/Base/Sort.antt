-- ===== src/Base/Sort.antt =====
-- `sort.Strings` of Go's library, and the order of texts.
use Prim.Native.String.{String, compare}
use text.Mathlib.Text.{is_le}
use mathlib.Core.Bool.{Bool}
use mathlib.Core.List.{List, [], ◌∷◌}
use rediqueue.Base.Tests.{if◌then◌else◌}

abbrev pub str_leb : String → String → Bool
str_leb s t = is_le (compare s t)

unfoldable pub insert_sorted : String → List String → List String
insert_sorted x [] = x ∷ []
insert_sorted x (y ∷ ys) = if str_leb x y then x ∷ y ∷ ys else y ∷ insert_sorted x ys

-- The ascending permutation of the texts. The order is total, so there is only one.
unfoldable pub sort_strings : List String → List String
unfolding insert_sorted
sort_strings [] = []
sort_strings (x ∷ xs) = insert_sorted x (sort_strings xs)
