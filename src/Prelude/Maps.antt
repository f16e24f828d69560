-- ===== src/Prelude/Maps.antt =====
-- Maps from texts: association lists in the order of insertion, as the platform's Map keeps them.
use text.Mathlib.Text.{◌==◌ as str_eq}
use text.Mathlib.TextEquality.{eq_iff}
use Prim.Native.String.{String}
use mathlib.Core.Path.{◌≡◌, refl, ap}
use mathlib.Core.Logic.{inl, inr}
use mathlib.Core.Bool.{false}
use mathlib.Core.Option.{Option, none, some}
use mathlib.Core.List.{List, [], ◌∷◌}
use crash.Prelude.Tests.{if◌then◌else◌, Bool-cases}
use native.Mathlib.Omega.{arith}

module _ {A : Type 0} where
  -- `Map.get`, `Map.set`, which keeps the place of a key that is there, and `Map.delete`.
  unfoldable pub lookup : String → List (String × A) → Option A
  lookup k [] = none
  lookup k ((j, a) ∷ m) = if str_eq j k then some a else lookup k m

  unfoldable pub insert : String → A → List (String × A) → List (String × A)
  insert k a [] = (k, a) ∷ []
  insert k a ((j, b) ∷ m) =
      let rest = insert k a m in if str_eq j k then (j, a) ∷ m else (j, b) ∷ rest

  unfoldable pub remove : String → List (String × A) → List (String × A)
  remove k [] = []
  remove k ((j, b) ∷ m) = let rest = remove k m in if str_eq j k then rest else (j, b) ∷ rest

  pub lookup-insert :
      (j k : String) (a : A) (m : List (String × A))
      → lookup j (insert k a m) ≡ (if str_eq k j then some a else lookup j m)
  unfolding lookup insert
  lookup-insert j k a [] = refl
  lookup-insert j k a ((i, b) ∷ m) = elim (Bool-cases (str_eq i k)) [
    | inl q ↦ let e = ap (λ x. str_eq x j) ((eq_iff i k).0 q) in ground arith
    | inr q ↦
        let ih = lookup-insert j k a m in
        elim (Bool-cases (str_eq k j)) [
          | inl p ↦ let e = ap (λ x. str_eq i x) ((eq_iff k j).0 p) in ground arith
          | inr p ↦ ground arith
        ]
  ]

  -- A key other than the one that is removed keeps its value.
  pub lookup-remove :
      (j k : String) (m : List (String × A))
      → str_eq k j ≡ false
      → lookup j (remove k m) ≡ lookup j m
  unfolding lookup remove
  lookup-remove j k [] h = refl
  lookup-remove j k ((i, b) ∷ m) h =
      let ih = lookup-remove j k m h in
      elim (Bool-cases (str_eq i k)) [
        | inl q ↦ let e = ap (λ x. str_eq x j) ((eq_iff i k).0 q) in ground arith
        | inr q ↦ ground arith
      ]
