-- ===== src/Base/Sorting.antt =====
-- sort.Slice by the text of each element.
use Prim.Native.String.{String, compare}
use text.Mathlib.Text.{is_lt}
use mathlib.Core.List.{List, [], ◌∷◌}
use metalnet.Base.Tests.{if◌then◌else◌}

module _ {ℓ} {A : Type ℓ} (text : A → String) where
  -- Puts an element before the first one with a text that is not less.
  unfoldable pub put_in_order : A → List A → List A
  put_in_order a [] = a ∷ []
  put_in_order a (b ∷ bs) =
      let later = put_in_order a bs in
      if is_lt (compare (text b) (text a)) then b ∷ later else a ∷ b ∷ bs

  unfoldable pub sorted : List A → List A
  sorted [] = []
  sorted (a ∷ rest) = put_in_order a (sorted rest)
