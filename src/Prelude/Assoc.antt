-- ===== src/Prelude/Assoc.antt =====
-- JavaScript's `Map` with text keys: an association list in the order of insertion. Setting a key
-- that is there keeps its place.
use Prim.Native.String.{String}
use mathlib.Core.Path.{◌≡◌, refl}
use mathlib.Core.Option.{Option, none, some}
use mathlib.Core.List.{List, [], ◌∷◌}
use native.Mathlib.Omega.{arith}
use text.Mathlib.Text.{◌==◌}
use text.Mathlib.TextEquality.{eq_iff}
use yuhi.Prelude.Tests.{if◌then◌else◌}

module _ {ℓ} {V : Type ℓ} where
  unfoldable pub lookup : String → List (String × V) → Option V
  lookup key [] = none
  lookup key ((other, held) ∷ rest) =
      let further = lookup key rest in if other == key then some held else further

  unfoldable pub insert : String → V → List (String × V) → List (String × V)
  insert key new [] = (key, new) ∷ []
  insert key new ((other, held) ∷ rest) =
      let further = insert key new rest in
      if other == key then (other, new) ∷ rest else (other, held) ∷ further

  unfoldable pub values : List (String × V) → List V
  values [] = []
  values ((key, held) ∷ rest) = held ∷ values rest

  pub lookup-insert :
      (key asked : String) (new : V) (entries : List (String × V))
      → lookup asked (insert key new entries)
        ≡ (if key == asked then some new else lookup asked entries)
  unfolding insert lookup
  lookup-insert key asked new [] = refl
  lookup-insert key asked new ((other, held) ∷ rest) = ground (
    arith,
    lookup-insert key asked new rest,
    eq_iff key asked,
    eq_iff other asked,
    eq_iff other key,
  )
