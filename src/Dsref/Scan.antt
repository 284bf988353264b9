-- ===== src/Dsref/Scan.antt =====
-- What the regular expressions of dsref/parse.go are made of: the longest run of characters of a
-- class, with a bound or without one. Go's matcher takes the longest run first, and takes fewer
-- only if what follows does not match; where a run is followed by a character outside its class,
-- fewer never match.
use qri.Base.{
  ℕ, zero, ◌≡◌, refl, inl, inr, [], ◌∷◌, ◌++◌, Bool, true, false, Str, length, ◌==◌, if◌then◌else◌,
  arith, suc, ◌≤◌, Bool-cases, ap, Option, none, some, all,
}

-- `[class]*`: the run and the rest.
unfoldable pub span : (ℕ → Bool) → Str → Str × Str
span p [] = ([], [])
span p (c ∷ cs) = let r = span p cs in if p c then (c ∷ r.0, r.1) else ([], c ∷ cs)

-- `[class]{0,n}`
unfoldable pub span_upto : ℕ → (ℕ → Bool) → Str → Str × Str
span_upto zero p cs = ([], cs)
span_upto (suc n) p [] = ([], [])
span_upto (suc n) p (c ∷ cs) =
    let r = span_upto n p cs in if p c then (c ∷ r.0, r.1) else ([], c ∷ cs)

-- One character.
unfoldable pub expect : ℕ → Str → Option Str
expect c [] = none
expect c (d ∷ ds) = if d == c then some ds else none

pub expect_same : (c : ℕ) (ds : Str) → expect c (c ∷ ds) ≡ some ds
unfolding expect
expect_same c ds = ground arith

-- The text is empty or goes on with a character that is not of the class.
abbrev pub Stops : (ℕ → Bool) → Str → Type 0
Stops p [] = Unit
Stops p (c ∷ cs) = p c ≡ false

pub span-append :
    (p : ℕ → Bool) (xs rest : Str)
    → all p xs ≡ true
    → Stops p rest
    → span p (xs ++ rest) ≡ (xs, rest)
unfolding span
span-append p [] [] w s = refl
span-append p [] (c ∷ cs) w s = rw s refl
span-append p (x ∷ xs) rest w s = elim (Bool-cases (p x)) [
  | inl t ↦ rw (t, span-append p xs rest (rw t at w) s) refl
  | inr f ↦ absurd (cc)
]

pub span_upto-append :
    (n : ℕ) (p : ℕ → Bool) (xs rest : Str)
    → length xs ≤ n
    → all p xs ≡ true
    → Stops p rest
    → span_upto n p (xs ++ rest) ≡ (xs, rest)
unfolding span_upto
span_upto-append zero p [] rest b w s = refl
span_upto-append zero p (x ∷ xs) rest b w s = absurd (omega arith)
span_upto-append (suc n) p [] [] b w s = refl
span_upto-append (suc n) p [] (c ∷ cs) b w s = rw s refl
span_upto-append (suc n) p (x ∷ xs) rest b w s = elim (Bool-cases (p x)) [
  | inl t ↦ rw (t, span_upto-append n p xs rest (omega arith) (rw t at w) s) refl
  | inr f ↦ absurd (cc)
]

-- A run and the rest are the text.
pub span-whole : (p : ℕ → Bool) (cs : Str) → (span p cs).0 ++ (span p cs).1 ≡ cs
unfolding span
span-whole p [] = refl
span-whole p (c ∷ cs) = elim (Bool-cases (p c)) [
  | inl t ↦ rw t (ap (λ t. c ∷ t) (span-whole p cs))
  | inr f ↦ rw f refl
]
