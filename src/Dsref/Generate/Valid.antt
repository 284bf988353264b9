-- ===== src/Dsref/Generate/Valid.antt =====
-- Which of the names that are made are valid names.
use qri.Base.{
  ℕ, ◌≡◌, refl, inl, inr, [], ◌∷◌, true, false, Str, map, ok, panic, length, is_empty, any, ltb,
  arith, ◌≤◌, ◌+◌, Bool-cases, ap, subst, All, all, All-take, All-append,
}
use qri.Dsref.Name.{is_lower, is_upper, is_digit, is_letter, is_word, ensure_valid_name}
use qri.Dsref.Generate.{
  State, outside, Machine, name_max_length, is_punc, flush_word, flush, separated, lower_rune,
  split_end, steps, step, trim_space, convert_words, with_prefix, generate_name,
}
use qri.Dsref.Generate.Keeps.{IsKept, IsRead, steps-keeps}
use qri.Dsref.Generate.Bounds.{length-convert_words}
use qri.Dsref.Parse.Names.{ensure_valid_name-IsName}

-- A character that a valid name may hold, and a lower-case one.
abbrev IsWord : ℕ → Type 0
IsWord c = is_word c ≡ true

abbrev IsPlain : ℕ → Type 0
IsPlain c = (is_word c ≡ true) × (is_upper c ≡ false)

lower_rune-IsPlain : (c : ℕ) → IsWord c → IsPlain (lower_rune c)
unfolding lower_rune is_word is_letter is_digit is_lower is_upper
lower_rune-IsPlain c w = ground arith

IsRead-IsWord : (c : ℕ) → is_punc c ≡ false → IsRead c → IsWord c
unfolding is_word is_letter
IsRead-IsWord c n r = ground arith

abbrev Clean : Machine → Type 0
Clean m = All IsPlain m.result × All IsWord m.next

lower-All : (cs : Str) → All IsWord cs → All IsPlain (map lower_rune cs)
lower-All [] w = tt
lower-All (c ∷ cs) w = (lower_rune-IsPlain c w.0, lower-All cs w.1)

underscore-IsPlain : IsPlain b'_'
unfolding is_word is_letter is_digit is_lower is_upper
underscore-IsPlain = (refl, refl)

dash-IsWord : IsWord b'-'
unfolding is_word is_letter is_digit is_lower is_upper
dash-IsWord = refl

separated-All : (result word : Str) → All IsPlain word → All IsPlain (separated result word)
unfolding separated
separated-All result word w = ground (arith, underscore-IsPlain)

flush_word-Clean :
    (s : State) (c : ℕ) (m : Machine) (word : Str)
    → IsWord c
    → Clean m
    → All IsPlain word
    → Clean (flush_word s c m word)
unfolding flush_word
flush_word-Clean s c m word a w v =
    elim (Bool-cases (ltb name_max_length (length m.result + length word))) [
      | inl t ↦ elim (Bool-cases (is_empty m.result)) [
        | inl e ↦ rw (t, e) (All-take IsPlain 44 word v, w.1)
        | inr n ↦ rw (t, n) w
      ]
      | inr f ↦ rw f (All-append IsPlain m.result word w.0 v, (a, tt))
    ]

flush-Clean : (s : State) (c : ℕ) (m : Machine) → IsWord c → Clean m → Clean (flush s c m)
unfolding flush
flush-Clean s c m a w = elim (Bool-cases (is_empty m.next)) [
  | inl t ↦ rw t w
  | inr f ↦ rw f (
      flush_word-Clean s c m (separated m.result (map lower_rune m.next)) a w
        (separated-All m.result (map lower_rune m.next) (lower-All m.next w.1)))
]

split_end-All :
    (g : ℕ) (gs : Str)
    → All IsWord (g ∷ gs)
    → IsWord (split_end g gs).1 × All IsWord (split_end g gs).0
unfolding split_end
split_end-All g [] w = (w.0, tt)
split_end-All g (h ∷ gs) w = let (l, b) = split_end-All h gs w.1 in (l, (w.0, b))

Clean-IsKept : IsKept IsWord Clean
Clean-IsKept = record {
  underscore = underscore-IsPlain.0;
  dash = dash-IsWord;
  started = λ s c m a w. (w.0, All-append IsWord m.next (c ∷ []) w.1 (a, tt));
  flushed = flush-Clean;
  cut = λ g gs m e w. let (l, b) = split_end-All g gs (subst (All IsWord) e w.1) in (l, (w.0, b));
}

IsRead-All : (cs : Str) → All (λ c. is_punc c ≡ false) cs → All (λ c. IsRead c → IsWord c) cs
IsRead-All [] w = tt
IsRead-All (c ∷ cs) w = (IsRead-IsWord c w.0, IsRead-All cs w.1)

-- The rune that begins the next word does not change what is written.
result-flush : (s : State) (c d : ℕ) (m : Machine) → (flush s c m).result ≡ (flush s d m).result
unfolding flush flush_word
result-flush s c d m = elim (Bool-cases (is_empty m.next)) [
  | inl t ↦ rw t refl
  | inr f ↦
      elim (Bool-cases (
        ltb name_max_length
          (length m.result + length (separated m.result (map lower_rune m.next))))) [
            | inl t ↦ rw (f, t) refl
            | inr g ↦ rw (f, g) refl
          ]
]

convert_words-All :
    (input : Str) → All (λ c. is_punc c ≡ false) input → All IsPlain (convert_words input)
unfolding convert_words
convert_words-All input w =
    let m = steps input (record { state = outside; result = []; next = [] }) in
    subst (All IsPlain) (result-flush outside b'_' 0 m)
      (flush-Clean outside b'_' m underscore-IsPlain.0
        (steps-keeps IsWord Clean Clean-IsKept input _ (IsRead-All input w) (tt, tt))).0

all-word : (cs : Str) → All IsPlain cs → all is_word cs ≡ true
all-word [] w = refl
all-word (c ∷ cs) w = ground (arith, all-word cs w.1)

any-upper : (cs : Str) → All IsPlain cs → any is_upper cs ≡ false
any-upper [] w = refl
any-upper (c ∷ cs) w = ground (arith, any-upper cs w.1)

lower-letter : (c : ℕ) → is_lower c ≡ true → is_letter c ≡ true
unfolding is_letter
lower-letter c e = ground arith

module _ (normalize : Str → Str) (input prefix : Str) where
  -- Where a text, normalized and trimmed, has no punctuation, and the state machine makes a name
  -- of it that begins with a lower-case letter, `GenerateName` returns that name without the prefix,
  -- and `EnsureValidName` accepts it.
  pub generate_name-IsValid :
      {c : ℕ} {cs : Str}
      → All (λ r. is_punc r ≡ false) (trim_space (normalize input))
      → convert_words (trim_space (normalize input)) ≡ c ∷ cs
      → is_lower c ≡ true
      → (generate_name normalize input prefix ≡ ok (c ∷ cs)) × (ensure_valid_name (c ∷ cs) ≡ ok tt)
  unfolding generate_name with_prefix
  generate_name-IsValid {c} {cs} n e l =
      let plain : All IsPlain (c ∷ cs) =
        subst (All IsPlain) e (convert_words-All (trim_space (normalize input)) n) in
      let short : length (c ∷ cs) ≤ 44 =
        subst (λ t. length t ≤ 44) e (length-convert_words (trim_space (normalize input))) in
      (
        rw (e, l) refl,
        (ensure_valid_name-IsName (c ∷ cs)).1 (
          (lower-letter c l, all-word cs plain.1),
          omega (arith, short),
          any-upper (c ∷ cs) plain,
        ),
      )

steps-skipped : (cs : Str) (m : Machine) → All (λ c. ltb 127 c ≡ true) cs → steps cs m ≡ m
unfolding steps step
steps-skipped [] m w = refl
steps-skipped (c ∷ cs) m w = rw w.0 (steps-skipped cs m w.1)

convert_words-skipped : (cs : Str) → All (λ c. ltb 127 c ≡ true) cs → convert_words cs ≡ []
unfolding convert_words flush
convert_words-skipped cs w =
    ap (λ m. (flush outside 0 m).result)
      (steps-skipped cs (record { state = outside; result = []; next = [] }) w)

-- On a text that, normalized and trimmed, has no ASCII character, `GenerateName` panics.
pub generate_name-panics :
    (normalize : Str → Str) (input prefix : Str)
    → All (λ r. ltb 127 r ≡ true) (trim_space (normalize input))
    → generate_name normalize input prefix ≡ panic
unfolding generate_name with_prefix
generate_name-panics normalize input prefix w =
    ap (with_prefix prefix) (convert_words-skipped (trim_space (normalize input)) w)
