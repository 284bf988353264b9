-- ===== src/Dsref/Generate/Bounds.antt =====
-- The length of the names that are made.
use qri.Base.{
  ℕ, inl, inr, [], ◌∷◌, Str, map, length, is_empty, ltb, arith, ◌≤◌, ◌+◌, Bool-cases, length-append,
  All, length-take,
}
use qri.Dsref.Generate.{
  State, outside, Machine, name_max_length, flush_word, flush, separated, lower_rune, convert_words,
}
use qri.Dsref.Generate.Keeps.{IsKept, IsRead, steps-keeps}

abbrev Bounded : Machine → Type 0
Bounded m = length m.result ≤ 44

flush_word-Bounded :
    (s : State) (c : ℕ) (m : Machine) (word : Str) → Bounded m → Bounded (flush_word s c m word)
unfolding flush_word
flush_word-Bounded s c m word w =
    elim (Bool-cases (ltb name_max_length (length m.result + length word))) [
      | inl t ↦ elim (Bool-cases (is_empty m.result)) [
        | inl e ↦ rw (t, e) (omega (arith, length-take 44 word))
        | inr n ↦ rw (t, n) w
      ]
      | inr f ↦ rw f (ground (arith, length-append m.result word))
    ]

flush-Bounded : (s : State) (c : ℕ) (m : Machine) → Bounded m → Bounded (flush s c m)
unfolding flush
flush-Bounded s c m w = elim (Bool-cases (is_empty m.next)) [
  | inl t ↦ rw t w
  | inr f ↦ rw f (flush_word-Bounded s c m (separated m.result (map lower_rune m.next)) w)
]

Bounded-IsKept : IsKept (λ c. Unit {0}) Bounded
Bounded-IsKept = record {
  underscore = tt;
  dash = tt;
  started = λ s c m a w. w;
  flushed = λ s c m a w. flush-Bounded s c m w;
  cut = λ g gs m e w. (tt, w);
}

All-trivial : (cs : Str) → All {0, 0} (λ c. IsRead c → Unit {0}) cs
All-trivial [] = tt
All-trivial (c ∷ cs) = (λ r. tt, All-trivial cs)

-- What `convertWordsStateMachine` makes of any text has at most 44 characters.
pub length-convert_words : (input : Str) → length (convert_words input) ≤ 44
unfolding convert_words
length-convert_words input =
    flush-Bounded outside 0 _
      (steps-keeps (λ c. Unit {0}) Bounded Bounded-IsKept input _ (All-trivial input) (omega arith))
