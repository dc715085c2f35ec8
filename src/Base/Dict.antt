-- ===== src/Base/Dict.antt =====
-- Go maps keyed by text, as lists of entries.
use Prim.Native.String.{String}
use mathlib.Core.Path.{◌≡◌, refl}
use mathlib.Core.List.{List, [], ◌∷◌}
use mathlib.Core.Option.{Option, none, some}
use native.Mathlib.Omega.{arith}
use text.Mathlib.Text.{◌==◌ as str_eq}
use text.Mathlib.TextEquality.{eq_iff}
use hystrix_go.Base.Tests.{if◌then◌else◌}

module _ {ℓ} {V : Type ℓ} where
  -- `m[name]`, with `none` for a name that is not in the map.
  unfoldable pub lookup : (name : String) → List (String × V) → Option V
  lookup name [] = none
  lookup name ((first, entry) ∷ rest) =
      let found = lookup name rest in if str_eq first name then some entry else found

  -- `m[name] = value`
  unfoldable pub insert : (name : String) (value : V) → List (String × V) → List (String × V)
  insert name value [] = (name, value) ∷ []
  insert name value ((first, entry) ∷ rest) =
      let rest' = insert name value rest in
      if str_eq first name then (name, value) ∷ rest else (first, entry) ∷ rest'

  pub lookup-insert :
      (name other : String) (value : V) (m : List (String × V))
      → lookup other (insert name value m)
        ≡ (if str_eq name other then some value else lookup other m)
  unfolding lookup insert
  lookup-insert name other value [] = refl
  lookup-insert name other value ((first, entry) ∷ rest) =
      let same_names = eq_iff name other in
      let hypothesis = lookup-insert name other value rest in
      ground (arith, hypothesis, same_names, eq_iff first other, eq_iff first name)
