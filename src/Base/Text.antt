-- ===== src/Base/Text.antt =====
-- Go strings, as the lists of their bytes.
use Prim.Native.Nat.{ℕ}
use Prim.Native.Char.{code}
use Prim.Native.String.{String}
use mathlib.Core.Path.{◌≡◌, refl, ap, ◌∙◌}
use mathlib.Core.Logic.{◌↔◌, ◌≢◌, inl, inr}
use mathlib.Core.Bool.{Bool, true, false, ◌&&◌, ◌||◌}
use mathlib.Core.List.{List, [], ◌∷◌, ◌++◌}
use mathlib.Core.Option.{Option, none, some}
use native.Mathlib.Omega.{arith}
use qri.Base.Lists.{All}
use qri.Base.Tests.{ltb, ◌==◌, Bool-cases, if◌then◌else◌}

abbrev pub Str : Type 0
Str = List ℕ

-- The bytes of an ASCII literal.
abbrev pub str : String → Str
str String.[] = []
str (String.◌∷◌ c s) = code c ∷ str s

abbrev pub str_eq : Str → Str → Bool
str_eq [] [] = true
str_eq [] (y ∷ ys) = false
str_eq (x ∷ xs) [] = false
str_eq (x ∷ xs) (y ∷ ys) = x == y && str_eq xs ys

pub str_eq_sound : (s t : Str) → str_eq s t ≡ true → s ≡ t
str_eq_sound [] [] h = refl
str_eq_sound [] (y ∷ ys) h = cc
str_eq_sound (x ∷ xs) [] h = cc
str_eq_sound (x ∷ xs) (y ∷ ys) h = ground (arith, str_eq_sound xs ys)

pub str_eq_refl : (s : Str) → str_eq s s ≡ true
str_eq_refl [] = refl
str_eq_refl (x ∷ xs) = ground (arith, str_eq_refl xs)

pub str_eq_iff : (s t : Str) → (str_eq s t ≡ true) ↔ (s ≡ t)
str_eq_iff s t = (str_eq_sound s t, λ e. cc (e, str_eq_refl s))

pub str_neq : (s t : Str) → s ≢ t → str_eq s t ≡ false
str_neq s t d = elim (Bool-cases (str_eq s t)) [
  | inl e ↦ absurd (d ((str_eq_iff s t).0 e))
  | inr f ↦ f
]

-- `s < t` of strings.
abbrev pub str_less : Str → Str → Bool
str_less s [] = false
str_less [] (y ∷ ys) = true
str_less (x ∷ xs) (y ∷ ys) = let later = str_less xs ys in ltb x y || (x == y && later)

-- `strings.HasPrefix` with `strings.TrimPrefix`: the rest behind the prefix.
abbrev pub strip_prefix : Str → Str → Option Str
strip_prefix [] s = some s
strip_prefix (p ∷ ps) [] = none
strip_prefix (p ∷ ps) (c ∷ cs) = if p == c then strip_prefix ps cs else none

-- `strings.Split(s, sep)` for a separator of one byte: never empty.
abbrev pub cons_head : ℕ → List Str → List Str
cons_head c [] = (c ∷ []) ∷ []
cons_head c (w ∷ ws) = (c ∷ w) ∷ ws

unfoldable pub split : ℕ → Str → List Str
split sep [] = [] ∷ []
split sep (c ∷ cs) = let rest = split sep cs in if c == sep then [] ∷ rest else cons_head c rest

-- `strings.Join(words, sep)`
unfoldable pub join : ℕ → List Str → Str
join sep [] = []
join sep (w ∷ []) = w
join sep (w ∷ v ∷ ws) = w ++ sep ∷ join sep (v ∷ ws)

split_nonempty : (sep : ℕ) (s : Str) → (w : Str) × (ws : List Str) × (split sep s ≡ w ∷ ws)
unfolding split
split_nonempty sep [] = ([], [], refl)
split_nonempty sep (c ∷ cs) =
    let (w, ws, e) = split_nonempty sep cs in
    elim (Bool-cases (c == sep)) [
      | inl h ↦ ([], split sep cs, rw h)
      | inr h ↦ (c ∷ w, ws, rw (h, e))
    ]

join-cons_head :
    (sep c : ℕ) (w : Str) (ws : List Str) → join sep ((c ∷ w) ∷ ws) ≡ c ∷ join sep (w ∷ ws)
unfolding join
join-cons_head sep c w [] = refl
join-cons_head sep c w (v ∷ ws) = refl

-- Joining what was split gives the text back.
pub join-split : (sep : ℕ) (s : Str) → join sep (split sep s) ≡ s
unfolding split join
join-split sep [] = refl
join-split sep (c ∷ cs) =
    let (w, ws, e) = split_nonempty sep cs in
    elim (Bool-cases (c == sep)) [
      | inl h ↦ rw (h, e) (ground (arith, join-split sep cs, e))
      | inr h ↦ rw (h, e) (ground (arith, join-cons_head sep c w ws, join-split sep cs, e))
    ]

-- The separator does not occur in the word.
abbrev pub Without : ℕ → Str → Type 0
Without sep = All (λ c. c ≢ sep)

split-word : (sep : ℕ) (w : Str) → Without sep w → split sep w ≡ w ∷ []
unfolding split
split-word sep [] h = refl
split-word sep (c ∷ w) h = ground (arith, split-word sep w h.1)

split-word_sep : (sep : ℕ) (w s : Str) → Without sep w → split sep (w ++ sep ∷ s) ≡ w ∷ split sep s
unfolding split
split-word_sep sep [] s h = ground arith
split-word_sep sep (c ∷ w) s h = ground (arith, split-word_sep sep w s h.1)

-- Splitting what was joined gives the words back, if none holds the separator.
pub split-join :
    (sep : ℕ) (w : Str) (ws : List Str)
    → All (Without sep) (w ∷ ws)
    → split sep (join sep (w ∷ ws)) ≡ w ∷ ws
unfolding join
split-join sep w [] h = split-word sep w h.0
split-join sep w (v ∷ ws) h =
    split-word_sep sep w (join sep (v ∷ ws)) h.0 ∙ ap (λ t. w ∷ t) (split-join sep v ws h.1)
