-- ===== src/Dsref/Generate.antt =====
-- dsref/generate.go: making a dataset name of any text. A text is its runes here, and what
-- `golang.org/x/text` does to it first is the parameter `normalize`. A rune past 127 is skipped, so
-- the classes of `unicode` are read on ASCII, and a rune that is written is one byte.
pub mod Keeps
pub mod Bounds
pub mod Valid
use qri.Base.{
  ℕ, [], ◌∷◌, ◌++◌, Bool, false, ◌&&◌, ◌||◌, Str, str, map, take, Result, ok, panic, length,
  is_empty, any, ltb, ◌==◌, if◌then◌else◌, ◌<◌, ◌+◌, reverse,
}
use qri.Dsref.Name.{within, is_upper, is_lower, is_digit, is_letter}

abbrev pub name_max_length : ℕ
name_max_length = 44

pub data State : Type 0 where
  outside lower_word first_upper caps_word number punc exit : State

-- The three variables of `convertWordsStateMachine`.
pub record Machine : Type 0 where
  pub state : State
  pub result : Str
  pub next : Str

-- The double quote is 34, the backslash 92.
unfoldable pub punc_characters : Str
punc_characters = 34 ∷ 92 ∷ str "`~!@#$%^&*()=+[{]}|;:',<.>/?"

unfoldable pub is_punc : ℕ → Bool
unfolding punc_characters
is_punc c = any (λ p. p == c) punc_characters

unfoldable pub is_alphanum : ℕ → Bool
is_alphanum c = is_letter c || is_digit c

unfoldable pub lower_rune : ℕ → ℕ
lower_rune c = if is_upper c then c + 32 else c

-- Whether an underscore goes between what was written and the word.
unfoldable pub is_joined : Str → Str → Bool
is_joined (p ∷ ps) (w ∷ ws) = is_alphanum (last_of p ps) && is_alphanum w
  where
    last_of : ℕ → Str → ℕ
    last_of q [] = q
    last_of q (r ∷ rs) = last_of r rs
is_joined [] word = false
is_joined (p ∷ ps) [] = false

unfoldable pub separated : Str → Str → Str
separated result word = if is_joined result word then b'_' ∷ word else word

-- `flushWord` of a word that is not empty.
unfoldable pub flush_word : State → ℕ → Machine → Str → Machine
flush_word state rune m word =
    if ltb name_max_length (length m.result + length word)
    then record m {
      state = exit;
      result = if is_empty m.result then take name_max_length word else m.result;
    }
    else record { state = state; result = m.result ++ word; next = rune ∷ [] }

-- `flushWord`
unfoldable pub flush : State → ℕ → Machine → Machine
flush state rune m =
    if is_empty m.next
    then m
    else flush_word state rune m (separated m.result (map lower_rune m.next))

abbrev pub write : ℕ → Machine → Machine
write c m = record m { next = m.next ++ c ∷ [] }

abbrev pub start : State → ℕ → Machine → Machine
start s c m = write c (record m { state = s })

abbrev pub is_dash : ℕ → Bool
is_dash c = c == b'_' || c == b'-'

unfoldable pub step_outside : ℕ → Machine → Machine
step_outside c m =
    if c == b' '
    then write b'_' m
    else if is_lower c
    then start lower_word c m
    else if is_upper c
    then start first_upper c m
    else if is_digit c
    then start number c m
    else if is_punc c
    then start punc c m
    else if is_dash c
    then write b'-' m
    else m

-- The branches that the states inside a word share: those on letters and digits are arguments.
unfoldable pub step_word : (on_lower on_upper on_digit : Machine) → ℕ → Machine → Machine
step_word on_lower on_upper on_digit c m =
    if c == b' '
    then flush outside b'_' m
    else if is_lower c
    then on_lower
    else if is_upper c
    then on_upper
    else if is_digit c
    then on_digit
    else if is_punc c
    then flush punc b'-' m
    else if is_dash c
    then flush outside c m
    else m

-- The last rune of a word, and the word without it.
unfoldable pub split_end : ℕ → Str → Str × ℕ
split_end c [] = ([], c)
split_end c (d ∷ ds) = (c ∷ (split_end d ds).0, (split_end d ds).1)

-- `StateCapsWord` on a lower-case letter: the last capital begins the next word. Without a last
-- rune Go would panic; the state is entered with two.
unfoldable pub split_caps : ℕ → Machine → Str → Machine
split_caps c m [] = m
split_caps c m (g ∷ gs) =
    write c (flush lower_word (split_end g gs).1 (record m { next = (split_end g gs).0 }))

unfoldable pub step_punc : ℕ → Machine → Machine
step_punc c m =
    if c == b' '
    then m
    else if is_lower c
    then flush lower_word c m
    else if is_upper c
    then flush first_upper c m
    else if is_digit c
    then flush number c m
    else if is_punc c
    then write b'-' m
    else if is_dash c
    then flush outside c m
    else m

unfoldable pub step_in : State → ℕ → Machine → Machine
step_in outside c m = step_outside c m
step_in lower_word c m = step_word (write c m) (flush first_upper c m) (flush number c m) c m
step_in first_upper c m =
    step_word (start lower_word c m) (start caps_word c m) (flush number c m) c m
step_in caps_word c m = step_word (split_caps c m m.next) (write c m) (flush number c m) c m
step_in number c m = step_word (flush lower_word c m) (flush first_upper c m) (write c m) c m
step_in punc c m = step_punc c m
step_in exit c m = m

-- One round of the loop.
unfoldable pub step : ℕ → Machine → Machine
step c m = if ltb 127 c then m else step_in m.state c m

unfoldable pub steps : Str → Machine → Machine
steps [] m = m
steps (c ∷ cs) m = steps cs (step c m)

unfoldable pub convert_words : Str → Str
convert_words input =
    (flush outside 0 (steps input (record { state = outside; result = []; next = [] }))).result

-- `unicode.IsSpace`
unfoldable pub is_space : ℕ → Bool
is_space c =
    within 9 13 c
    || c == 32
    || c == 133
    || c == 160
    || c == 5760
    || within 8192 8202 c
    || within 8232 8233 c
    || c == 8239
    || c == 8287
    || c == 12288

unfoldable pub trim_left : Str → Str
trim_left [] = []
trim_left (c ∷ cs) = let rest = trim_left cs in if is_space c then rest else c ∷ cs

-- `strings.TrimSpace`
unfoldable pub trim_space : Str → Str
trim_space text = reverse (trim_left (reverse (trim_left text)))

unfoldable pub with_prefix : Str → Str → Result Str Str
with_prefix prefix [] = panic
with_prefix prefix (c ∷ cs) = ok (if is_lower c then c ∷ cs else prefix ++ c ∷ cs)

-- `GenerateName`
unfoldable pub generate_name : (normalize : Str → Str) → (input prefix : Str) → Result Str Str
generate_name normalize input prefix =
    with_prefix prefix (convert_words (trim_space (normalize input)))
