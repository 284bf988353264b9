-- ===== src/Base/Decimal.antt =====
-- Decimal numbers as text: `strconv.Itoa` and the `%d` of `fmt`, on numbers that are not negative.
use Prim.Native.Nat.{ℕ, zero, suc, ◌+◌, ◌*◌, ◌/◌, ◌%◌, ◌-◌, ◌<◌}
use mathlib.Core.Path.{◌≡◌, refl, sym, ap, ◌∙◌}
use mathlib.Core.Logic.{◌≢◌, inl, inr}
use mathlib.Core.List.{[], ◌∷◌, ◌++◌}
use native.Mathlib.Omega.{arith}
use qri.Base.Tests.{ltb, if◌then◌else◌, Bool-cases}
use qri.Base.Text.{Str}

-- With fuel: a number has fewer digits than it counts.
unfoldable pub digits : ℕ → ℕ → Str
digits zero n = []
digits (suc f) n =
    let front = digits f (n / 10) in if ltb n 10 then (48 + n) ∷ [] else front ++ (48 + n % 10) ∷ []

unfoldable pub itoa : ℕ → Str
itoa n = digits (suc n) n

-- The number that a text of digits stands for, after the digits that stand for `acc`.
unfoldable pub value_from : ℕ → Str → ℕ
value_from acc [] = acc
value_from acc (c ∷ cs) = value_from (10 * acc + (c - 48)) cs

value_from-snoc :
    (acc : ℕ) (cs : Str) (c : ℕ) → value_from acc (cs ++ c ∷ []) ≡ 10 * value_from acc cs + (c - 48)
unfolding value_from
value_from-snoc acc [] c = refl
value_from-snoc acc (d ∷ cs) c = value_from-snoc (10 * acc + (d - 48)) cs c

value_from-digits : (f n : ℕ) → n < f → value_from 0 (digits f n) ≡ n
unfolding value_from digits
value_from-digits zero n h = absurd (omega arith)
value_from-digits (suc f) n h = elim (Bool-cases (ltb n 10)) [
  | inl t ↦ rw t (omega arith)
  | inr g ↦ rw g (
      value_from-snoc 0 (digits f (n / 10)) (48 + n % 10)
      ∙ ground (arith, value_from-digits f (n / 10)))
]

pub value_from-itoa : (n : ℕ) → value_from 0 (itoa n) ≡ n
unfolding itoa
value_from-itoa n = value_from-digits (suc n) n (omega arith)

pub itoa_injective : (m n : ℕ) → itoa m ≡ itoa n → m ≡ n
itoa_injective m n e = sym (value_from-itoa m) ∙ ap (value_from 0) e ∙ value_from-itoa n

append-nonempty : (cs : Str) (c : ℕ) → cs ++ c ∷ [] ≢ []
append-nonempty [] c e = cc
append-nonempty (d ∷ cs) c e = cc

pub itoa-nonempty : (n : ℕ) → itoa n ≢ []
unfolding itoa digits
itoa-nonempty n = elim (Bool-cases (ltb n 10)) [
  | inl t ↦ rw t (λ e. cc)
  | inr f ↦ rw f (append-nonempty (digits n (n / 10)) (48 + n % 10))
]
