-- ===== src/Dsref/Rev.antt =====
-- dsref/rev.go: revisions, which name a field of a dataset and a version of its history.
use qri.Base.{
  ℕ, zero, List, [], ◌∷◌, not, ◌||◌, Str, str, str_eq, Result, ok, err, ◌>>=◌, is_empty, any, ltb,
  ◌==◌, if◌then◌else◌, suc, Option, none, some,
}
use qri.Base.{split}
use qri.Base.Int.{ℤ, pos, negsuc}
use qri.Base.Decimal.{value_from}
use qri.Base.Assoc.{lookup}

pub record Rev : Type 0 where
  pub field : Str
  pub gen : ℤ

abbrev pub all_generations : ℤ
all_generations = negsuc 0

abbrev pub field_map : List (Str × Str)
field_map =
    (str "dataset", str "ds")
    ∷ (str "meta", str "md")
    ∷ (str "viz", str "vz")
    ∷ (str "transform", str "tf")
    ∷ (str "structure", str "st")
    ∷ (str "body", str "bd")
    ∷ (str "rendered", str "rd")
    ∷ (str "readme", str "rm")
    ∷ (str "ds", str "ds")
    ∷ (str "md", str "md")
    ∷ (str "vz", str "vz")
    ∷ (str "tf", str "tf")
    ∷ (str "st", str "st")
    ∷ (str "bd", str "bd")
    ∷ (str "rd", str "rd")
    ∷ (str "rm", str "rm")
    ∷ []

-- The number of a text of digits, below a limit.
unfoldable pub natural : ℕ → Str → Option ℕ
natural limit s =
    if is_empty s || any (λ c. ltb c 48 || ltb 57 c) s || not (ltb (value_from 0 s) limit)
    then none
    else some (value_from 0 s)

abbrev pub negated : Option ℕ → Option ℤ
negated none = none
negated (some zero) = some (pos 0)
negated (some (suc n)) = some (negsuc n)

abbrev pub positive : Option ℕ → Option ℤ
positive none = none
positive (some n) = some (pos n)

-- `strconv.Atoi`: an optional sign and digits that fit into 64 bits.
unfoldable pub atoi : Str → Option ℤ
atoi [] = none
atoi (c ∷ s) =
    if c == b'-'
    then negated (natural 9223372036854775809 s)
    else if c == b'+'
    then positive (natural 9223372036854775808 s)
    else positive (natural 9223372036854775808 (c ∷ s))

abbrev pub field_rev : Str → Option Str → Result Str Rev
field_rev rev none = err rev
field_rev rev (some f) = ok (record { field = f; gen = pos 1 })

abbrev pub gen_rev : Str → Option ℤ → Result Str Rev
gen_rev rev (some n) = ok (record { field = str "ds"; gen = n })
gen_rev rev none = field_rev rev (lookup rev field_map)

-- `NewAllRevisions`
unfoldable pub new_all_revisions : Rev
new_all_revisions = record { field = str "ds"; gen = all_generations }

-- The error is the text that is no revision.
unfoldable pub parse_rev : Str → Result Str Rev
parse_rev rev = if str_eq rev (str "all") then ok new_all_revisions else gen_rev rev (atoi rev)

unfoldable pub parse_each : List Str → Result Str (List Rev)
parse_each [] = ok []
parse_each (w ∷ ws) = do rev ← parse_rev w; revs ← parse_each ws; ok (rev ∷ revs)

unfoldable pub parse_revs : Str → Result Str (List Rev)
parse_revs text = parse_each (split b',' text)
