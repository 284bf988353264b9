-- ===== src/Dsref/Parse/Names.antt =====
-- The names that a dataset may be given are names that the parser reads.
use qri.Base.{
  ℕ, ◌≡◌, refl, ◌⊎◌, inl, inr, Bool, Bool-cases, ap, sym, ◌∙◌, subst, append-nil, is_empty, all, [],
  ◌∷◌, true, false, Str, ok, length, any, arith, ◌≤◌, ◌↔◌,
}
use qri.Dsref.Name.{is_upper, is_letter, is_word, is_valid_name, ensure_valid_name}
use qri.Dsref.Scan.{span}
use qri.Dsref.Parse.{find_name}
use qri.Dsref.Parse.Print.{IsName, IsName-present, find_name-append}

span-all : (p : ℕ → Bool) (cs : Str) → all p (span p cs).0 ≡ true
unfolding span
span-all p [] = refl
span-all p (c ∷ cs) = elim (Bool-cases (p c)) [
  | inl t ↦ rw (t, t, span-all p cs) refl
  | inr f ↦ rw f refl
]

run-IsName : (text : Str) → (is_empty (find_name text).0 ≡ true) ⊎ IsName (find_name text).0
unfolding find_name
run-IsName [] = inl refl
run-IsName (c ∷ cs) = elim (Bool-cases (is_letter c)) [
  | inl t ↦ rw t (inr (t, span-all is_word cs))
  | inr f ↦ rw f (inl refl)
]

-- The name that the parser reads at the beginning of a text is the whole text.
abbrev pub ReadWhole : Str → Type 0
ReadWhole text = (find_name text ≡ (text, [])) × (is_empty text ≡ false)

IsName-ReadWhole : (text : Str) → IsName text ↔ ReadWhole text
IsName-ReadWhole text = (
  λ w.
      (ap find_name (sym (append-nil text)) ∙ find_name-append text [] w tt, IsName-present text w),
  λ h. elim (run-IsName text) [
    | inl e ↦ absurd (cc (e, ap (λ r. is_empty r.0) h.0, h.1))
    | inr w ↦ subst IsName (ap (λ r. r.0) h.0) w
  ],
)

is_valid_name_iff : (text : Str) → (is_valid_name text ≡ true) ↔ (IsName text × (length text ≤ 144))
unfolding is_valid_name
is_valid_name_iff [] = (λ e. absurd (cc), λ w. absurd w.0)
is_valid_name_iff (c ∷ cs) = ground arith

pub ensure_valid_name-IsName :
    (text : Str)
    → (ensure_valid_name text ≡ ok tt)
      ↔ (IsName text × (length text ≤ 144) × (any is_upper text ≡ false))
unfolding ensure_valid_name
ensure_valid_name-IsName text = ground (arith, is_valid_name_iff text)

-- `EnsureValidName` accepts exactly the texts that are not empty, have at most 144 characters, none an
-- upper-case letter, and are read whole by the function with which the parser reads a name.
pub ensure_valid_name_iff :
    (text : Str)
    → (ensure_valid_name text ≡ ok tt)
      ↔ (ReadWhole text × (length text ≤ 144) × (any is_upper text ≡ false))
ensure_valid_name_iff text = ground (arith, ensure_valid_name-IsName text, IsName-ReadWhole text)
