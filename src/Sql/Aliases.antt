-- ===== src/Sql/Aliases.antt =====
-- Names for the tables without an alias: the search for a fresh one ends.
use qri.Base.{
  ℕ, zero, ◌≡◌, refl, ◌≢◌, inl, inr, List, [], ◌∷◌, ◌++◌, true, false, ◌||◌, Str, str, str_eq,
  str_eq_iff, length, if◌then◌else◌, arith, suc, ◌≤◌, ◌<◌, Bool-cases, ap, sym, ◌∙◌, subst, Option,
  some,
}
use qri.Base.{str_neq}
use qri.Base.Decimal.{itoa, itoa_injective, itoa-nonempty}
use qri.Sql.Rewrite.{has_alias, auto_name, new_table_name}

remove : Str → List Str → List Str
remove s [] = []
remove s (x ∷ xs) = let rest = remove s xs in if str_eq s x then rest else x ∷ rest

length-remove_le : (s : Str) (xs : List Str) → length (remove s xs) ≤ length xs
unfolding remove
length-remove_le s [] = omega arith
length-remove_le s (x ∷ xs) = ground (arith, length-remove_le s xs)

length-remove : (s : Str) (xs : List Str) → has_alias s xs ≡ true → length (remove s xs) < length xs
unfolding remove
length-remove s [] h = cc
length-remove s (x ∷ xs) h = elim (Bool-cases (str_eq s x)) [
  | inl e ↦ rw e (omega (arith, length-remove_le s xs))
  | inr d ↦ rw d (omega (arith, length-remove s xs (ground (arith, h, d))))
]

-- Only the removed name is gone.
has_alias-remove : (t s : Str) (xs : List Str) → t ≢ s → has_alias t (remove s xs) ≡ has_alias t xs
unfolding remove
has_alias-remove t s [] d = refl
has_alias-remove t s (x ∷ xs) d = elim (Bool-cases (str_eq s x)) [
  | inl e ↦ rw (e, str_neq t x (λ h. d (cc (h, (str_eq_iff s x).0 e)))) (has_alias-remove t s xs d)
  | inr f ↦ rw f (ap (λ b. str_eq t x || b) (has_alias-remove t s xs d))
]

tail_injective : {a b : ℕ} {s t : Str} → ◌≡◌ {A = Str} (a ∷ s) (b ∷ t) → s ≡ t
tail_injective e = cc

auto_name-one : auto_name 1 ≡ str "ds"
unfolding auto_name
auto_name-one = refl

auto_name-many : (n : ℕ) → 1 < n → auto_name n ≡ str "ds" ++ itoa n
unfolding auto_name
auto_name-many n h = ground arith

auto_name_distinct : (m n : ℕ) → 0 < m → m < n → auto_name n ≢ auto_name m
auto_name_distinct zero n h k e = absurd (omega arith)
auto_name_distinct (suc zero) n h k e =
    itoa-nonempty n (tail_injective (tail_injective (sym (auto_name-many n k) ∙ e ∙ auto_name-one)))
auto_name_distinct (suc (suc m)) n h k e = absurd (
    omega (
      arith,
      itoa_injective n (suc (suc m)) (
          tail_injective (
            tail_injective (
              sym (auto_name-many n (omega arith))
              ∙ e
              ∙ auto_name-many (suc (suc m)) (omega arith)))),
    ))

abbrev Agree : ℕ → List Str → List Str → Type 0
Agree n xs ys = (m : ℕ) → n < m → has_alias (auto_name m) xs ≡ has_alias (auto_name m) ys

new_table_name-Agree :
    (f n : ℕ) (xs ys : List Str) → Agree n xs ys → new_table_name f n xs ≡ new_table_name f n ys
unfolding new_table_name
new_table_name-Agree zero n xs ys h = refl
new_table_name-Agree (suc f) n xs ys h =
    rw (h (suc n) (omega arith), new_table_name-Agree f (suc n) xs ys (λ m k. h m (omega arith)))
      refl

abbrev Found : Option (Str × ℕ) → Type 0
Found o = (name : Str) × (n : ℕ) × (o ≡ some (name, n))

new_table_name_step :
    (f n : ℕ) (xs : List Str)
    → (has_alias (auto_name (suc n)) xs ≡ true → Found (new_table_name f (suc n) xs))
    → Found (new_table_name (suc f) n xs)
unfolding new_table_name
new_table_name_step f n xs w = elim (Bool-cases (has_alias (auto_name (suc n)) xs)) [
  | inl t ↦ rw t (w t)
  | inr d ↦ rw d (auto_name (suc n), suc n, refl)
]

-- With one unit of fuel more than there are aliases, a name is found.
pub new_table_name_found : (f n : ℕ) (xs : List Str) → length xs < f → Found (new_table_name f n xs)
new_table_name_found zero n xs h = absurd (omega arith)
new_table_name_found (suc f) n xs h =
    let less = remove (auto_name (suc n)) xs in
    new_table_name_step f n xs (λ t.
      subst Found
        (new_table_name-Agree f (suc n) less xs (λ m k.
          has_alias-remove (auto_name m) (auto_name (suc n)) xs
            (auto_name_distinct (suc n) m (omega arith) k)))
        (new_table_name_found f (suc n) less
          (omega (arith, length-remove (auto_name (suc n)) xs t))))

pub new_table_name-fresh :
    (f n : ℕ) (xs : List Str) (name : Str) (k : ℕ)
    → new_table_name f n xs ≡ some (name, k)
    → has_alias name xs ≡ false
unfolding new_table_name
new_table_name-fresh zero n xs name k e = cc
new_table_name-fresh (suc f) n xs name k e = elim (Bool-cases (has_alias (auto_name (suc n)) xs)) [
  | inl t ↦ new_table_name-fresh f (suc n) xs name k (ground (arith, e, t))
  | inr d ↦ ground (arith, e, d)
]
