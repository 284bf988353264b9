-- ===== src/Api/Reading.antt =====
-- api/util/order.go: what is read back of an ordering that was printed.
use qri.Base.{
  ℕ, suc, ◌≡◌, refl, ◌⊎◌, inl, inr, List, [], ◌∷◌, ◌++◌, false, Str, map, take, ok, length, leb,
  ◌==◌, if◌then◌else◌, ◌+◌, ◌*◌, ◌-◌, ◌≤◌, ◌<◌, none, All, Without, join, split-join, append_assoc,
  Bool-cases, arith, ap, ◌∙◌,
}
use Prim.Native.Nat.{◌/◌, ◌%◌}
use qri.Dsref.Name.{is_upper}
use qri.Dsref.Generate.{trim_space, lower_rune}
use qri.Api.Order.{
  Order, order_asc, order_desc, new_order, order_string, order_by_string, direction_of, orders_from,
  orders_of, new_order_by_from_string,
}

-- The key has no comma and no space around it, and the direction is one of the two.
abbrev pub IsPlain : Order → Type 0
IsPlain o =
    Without b',' o.key
    × (trim_space o.key ≡ o.key)
    × ((o.direction ≡ order_asc) ⊎ (o.direction ≡ order_desc))

abbrev flat : List Order → List Str
flat [] = []
flat (o ∷ os) = o.key ∷ o.direction ∷ flat os

join-flat : (os : List Order) → join b',' (map order_string os) ≡ join b',' (flat os)
unfolding order_string join
join-flat [] = refl
join-flat (o ∷ []) = refl
join-flat (o ∷ p ∷ os) =
    append_assoc o.key (b',' ∷ o.direction) (b',' ∷ join b',' (map order_string (p ∷ os)))
    ∙ ap (λ (s : Str). o.key ++ b',' ∷ (o.direction ++ b',' ∷ s)) (join-flat (p ∷ os))

length-flat : (os : List Order) → length (flat os) ≡ 2 * length os
length-flat [] = refl
length-flat (o ∷ os) = omega (arith, length-flat os)

direction-Without : (d : Str) → (d ≡ order_asc) ⊎ (d ≡ order_desc) → Without b',' d
direction-Without d (inl e) = rw e (ground arith)
direction-Without d (inr e) = rw e (ground arith)

flat-Without : (os : List Order) → All IsPlain os → All (Without b',') (flat os)
flat-Without [] w = tt
flat-Without (o ∷ os) (p, w) = (p.0, (direction-Without o.direction p.2, flat-Without os w))

direction-read :
    (k d : Str) → (d ≡ order_asc) ⊎ (d ≡ order_desc) → (new_order k (direction_of d)).direction ≡ d
unfolding new_order lower_rune is_upper
direction-read k d (inl e) = rw e refl
direction-read k d (inr e) = rw e refl

read_back : (o : Order) → IsPlain o → new_order (trim_space o.key) (direction_of o.direction) ≡ o
unfolding new_order
read_back o p =
    λ i. record { key = p.1 i; direction = direction-read (trim_space o.key) o.direction p.2 i }

-- How many rounds the loop has left.
abbrev rounds : ℕ → ℕ → ℕ
rounds n i = if leb i n then suc ((n - i) / 2) else 0

rounds-next : (n i : ℕ) → i ≤ n → rounds n (i + 2) ≡ (n - i) / 2
rounds-next n i h = ground arith

orders_from-take :
    (n i : ℕ) (os : List Order)
    → All IsPlain os
    → n < i + 2 * length os
    → orders_from none n i (flat os) ≡ ok (take (rounds n i) os)
unfolding orders_from
orders_from-take n i [] w h = elim (Bool-cases (leb i n)) [
  | inl t ↦ absurd (ground arith)
  | inr f ↦ rw f refl
]
orders_from-take n i (o ∷ os) (p, w) h = elim (Bool-cases (leb i n)) [
  | inl t ↦
      rw
        (
          t,
          orders_from-take n (i + 2) os w (omega arith),
          read_back o p,
          rounds-next n i (ground arith),
        )
        refl
  | inr f ↦ rw f refl
]

rounds-zero : (n : ℕ) → rounds n 0 ≡ suc (n / 2)
rounds-zero n = ground arith

half : (m p : ℕ) → p ≡ 2 * m → p / 2 ≡ m
half m p e = omega arith

even : (m p : ℕ) → p ≡ 2 * m → (p % 2 == 1) ≡ false
even m p e = ground arith

-- Of a printed ordering of plain orders the first half is read back, and one more order: of three orders
-- the first two, and all of one order or of two.
pub new_order_by_from_string-order_by_string :
    (o : Order) (os : List Order)
    → All IsPlain (o ∷ os)
    → new_order_by_from_string (order_by_string (o ∷ os)) none
      ≡ ok (take (suc (length (o ∷ os) / 2)) (o ∷ os))
unfolding new_order_by_from_string order_by_string orders_of
new_order_by_from_string-order_by_string o os w =
    rw (join-flat (o ∷ os), split-join b',' o.key (o.direction ∷ flat os) (flat-Without (o ∷ os) w))
      (rw
        (
          even (length (o ∷ os)) (length (flat (o ∷ os))) (length-flat (o ∷ os)),
          half (length (o ∷ os)) (length (flat (o ∷ os))) (length-flat (o ∷ os)),
        )
        (orders_from-take (length (o ∷ os)) 0 (o ∷ os) w (omega arith)
          ∙ ap (λ (k : ℕ). ok (take k (o ∷ os))) (rounds-zero (length (o ∷ os)))))
