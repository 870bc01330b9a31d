-- ===== src/Prelude/Assoc.antt =====
-- `HashMap<String, V>` as an association list. The order of the entries has no meaning.
use mathlib.Core.Path.{◌≡◌, refl}
use mathlib.Core.List.{List, [], ◌∷◌, map}
use mathlib.Core.Option.{Option, none, some}
use Prim.Native.String.{String}
use native.Mathlib.Omega.{arith}
use text.Mathlib.Text.{◌==◌ as str_eq}
use text.Mathlib.TextEquality.{eq_iff}
use electrum.Prelude.Tests.{if◌then◌else◌}

module _ {ℓ} {V : Type ℓ} where
  -- `get`, `contains_key`
  unfoldable pub lookup : String → List (String × V) → Option V
  lookup name [] = none
  lookup name (e ∷ rest) = if str_eq e.0 name then some e.1 else lookup name rest

  -- `remove`; a key stands at most once in a map that `insert` built.
  unfoldable pub remove : String → List (String × V) → List (String × V)
  remove name [] = []
  remove name (e ∷ rest) =
      let later = remove name rest in if str_eq e.0 name then later else e ∷ later

  unfoldable pub insert : String → V → List (String × V) → List (String × V)
  insert name new [] = (name, new) ∷ []
  insert name new (e ∷ rest) =
      let later = insert name new rest in if str_eq e.0 name then (name, new) ∷ rest else e ∷ later

  abbrev pub values : List (String × V) → List V
  values = map (λ e. e.1)

  pub lookup-insert :
      (name other : String) (new : V) (m : List (String × V))
      → lookup other (insert name new m) ≡ (if str_eq name other then some new else lookup other m)
  unfolding lookup insert
  lookup-insert name other new [] = refl
  lookup-insert name other new (e ∷ rest) = ground (
    arith,
    lookup-insert name other new rest,
    eq_iff e.0 name,
    eq_iff e.0 other,
    eq_iff name other,
  )

  pub lookup-remove :
      (name other : String) (m : List (String × V))
      → lookup other (remove name m) ≡ (if str_eq name other then none else lookup other m)
  unfolding lookup remove
  lookup-remove name other [] = ground arith
  lookup-remove name other (e ∷ rest) =
      ground
        (arith, lookup-remove name other rest, eq_iff e.0 name, eq_iff e.0 other, eq_iff name other)

  pub remove_absent :
      (name : String) (m : List (String × V)) → lookup name m ≡ none → remove name m ≡ m
  unfolding lookup remove
  remove_absent name [] h = refl
  remove_absent name (e ∷ rest) h = ground (arith, remove_absent name rest)
