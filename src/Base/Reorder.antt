-- ===== src/Base/Reorder.antt =====
-- Two lists with the same elements in another order, for what a program does in an order that is not
-- known: goroutines that answer, a map that is visited, a sort that is not stable.
use Prim.Native.Nat.{suc}
use mathlib.Core.Path.{◌≡◌, refl, ap, ◌∙◌}
use mathlib.Core.Logic.{inl, inr}
use mathlib.Core.List.{List, [], ◌∷◌}
use qri.Base.Lists.{length, All, Some}

pub data Reordered {ℓ} {A : Type ℓ} : List A → List A → Type ℓ where
  nothing : Reordered [] []
  keep : {x : A} {xs ys : List A} → Reordered xs ys → Reordered (x ∷ xs) (x ∷ ys)
  swap : {x y : A} {xs : List A} → Reordered (x ∷ y ∷ xs) (y ∷ x ∷ xs)
  chain : {xs ys zs : List A} → Reordered xs ys → Reordered ys zs → Reordered xs zs

module _ {ℓ} {A : Type ℓ} where
  pub length-Reordered : {xs ys : List A} → Reordered xs ys → length xs ≡ length ys
  length-Reordered nothing = refl
  length-Reordered (keep p) = ap suc (length-Reordered p)
  length-Reordered swap = refl
  length-Reordered (chain p q) = length-Reordered p ∙ length-Reordered q

  pub All-Reordered {κ} : (P : A → Type κ) {xs ys : List A} → Reordered xs ys → All P ys → All P xs
  All-Reordered P nothing w = tt
  All-Reordered P (keep p) w = (w.0, All-Reordered P p w.1)
  All-Reordered P swap w = (w.1.0, (w.0, w.1.1))
  All-Reordered P (chain p q) w = All-Reordered P p (All-Reordered P q w)

  pub Some-Reordered : (P : A → Type 0) {xs ys : List A} → Reordered xs ys → Some P ys → Some P xs
  Some-Reordered P nothing w = w
  Some-Reordered P (keep p) (inl h) = inl h
  Some-Reordered P (keep p) (inr w) = inr (Some-Reordered P p w)
  Some-Reordered P swap (inl h) = inr (inl h)
  Some-Reordered P swap (inr (inl h)) = inl h
  Some-Reordered P swap (inr (inr w)) = inr (inr w)
  Some-Reordered P (chain p q) w = Some-Reordered P p (Some-Reordered P q w)

  pub Reordered-refl : (xs : List A) → Reordered xs xs
  Reordered-refl [] = nothing
  Reordered-refl (x ∷ xs) = keep (Reordered-refl xs)

  pub Reordered-sym : {xs ys : List A} → Reordered xs ys → Reordered ys xs
  Reordered-sym nothing = nothing
  Reordered-sym (keep p) = keep (Reordered-sym p)
  Reordered-sym swap = swap
  Reordered-sym (chain p q) = chain (Reordered-sym q) (Reordered-sym p)
