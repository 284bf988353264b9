-- ===== src/Base/Assoc.antt =====
-- Go maps with string keys, as association lists in which the first entry of a key counts.
use mathlib.Core.Path.{◌≡◌, refl}
use mathlib.Core.Logic.{inl, inr}
use mathlib.Core.Bool.{false}
use mathlib.Core.Option.{Option, none, some}
use mathlib.Core.List.{List, [], ◌∷◌}
use qri.Base.Tests.{if◌then◌else◌, Bool-cases}
use qri.Base.Text.{Str, str_eq, str_eq_iff, str_eq_refl}

module _ {ℓ} {A : Type ℓ} where
  abbrev pub lookup : Str → List (Str × A) → Option A
  lookup k [] = none
  lookup k ((j, a) ∷ m) = let later = lookup k m in if str_eq j k then some a else later

  -- `m[k] = a`
  abbrev pub insert : Str → A → List (Str × A) → List (Str × A)
  insert k a [] = (k, a) ∷ []
  insert k a ((j, b) ∷ m) =
      let later = insert k a m in if str_eq j k then (k, a) ∷ m else (j, b) ∷ later

  -- `delete(m, k)`
  abbrev pub delete : Str → List (Str × A) → List (Str × A)
  delete k [] = []
  delete k ((j, a) ∷ m) = let later = delete k m in if str_eq j k then later else (j, a) ∷ later

  pub lookup-insert : (k : Str) (a : A) (m : List (Str × A)) → lookup k (insert k a m) ≡ some a
  lookup-insert k a [] = rw (str_eq_refl k) refl
  lookup-insert k a ((j, b) ∷ m) = elim (Bool-cases (str_eq j k)) [
    | inl e ↦ rw (e, str_eq_refl k) refl
    | inr d ↦ rw (d, d) (lookup-insert k a m)
  ]

  pub lookup-delete :
      (i k : Str) (m : List (Str × A)) → str_eq i k ≡ false → lookup k (delete i m) ≡ lookup k m
  lookup-delete i k [] n = refl
  lookup-delete i k ((j, b) ∷ m) n = elim (Bool-cases (str_eq j i)) [
    | inl e ↦ rw (e, (str_eq_iff j i).0 e, n) (lookup-delete i k m n)
    | inr d ↦ elim (Bool-cases (str_eq j k)) [
      | inl f ↦ rw (d, f) refl
      | inr g ↦ rw (d, g) (lookup-delete i k m n)
    ]
  ]
