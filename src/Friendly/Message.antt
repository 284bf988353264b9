-- ===== src/Friendly/Message.antt =====
-- `DiffDescriptions`: the short title and the long message. A division by a size of zero panics.
use qri.Base.{
  ℕ, zero, List, [], ◌∷◌, ◌++◌, Bool, not, ◌&&◌, Str, str, str_eq, Result, ok, panic, ◌>>=◌, length,
  is_empty, if◌then◌else◌, suc, Option, none, some,
}
use Prim.Native.Nat.{◌*◌, ◌/◌, max}
use qri.Base.Assoc.{lookup}
use qri.Base.Decimal.{itoa}
use qri.Friendly.Changes.{
  Deltas, ComponentChanges, Components, Stats, preprocess, no_child, build_component_changes,
}

-- The state of the loop over the components.
pub record Told : Type 0 where
  pub short_title : Str
  pub long_message : Str
  pub changed : List Str

abbrev pub components_to_check : List Str
components_to_check =
    str "meta" ∷ str "structure" ∷ str "readme" ∷ str "viz" ∷ str "transform" ∷ str "body" ∷ []

-- Rows on lines of their own, each after a tab.
unfoldable pub on_lines : List Str → Str
on_lines [] = []
on_lines (r ∷ rs) = 10 ∷ 9 ∷ r ++ on_lines rs

-- `strings.Join(rows, " and ")`
unfoldable pub join_and : List Str → Str
join_and [] = []
join_and (r ∷ []) = r
join_and (r ∷ s ∷ rs) = r ++ (str " and " ++ join_and (s ∷ rs))

-- The message and the title of one component.
abbrev pub Words : Type 0
Words = Str × Str

abbrev pub percentage : Str → ℕ → ℕ → Result (Unit {0}) Words
percentage name size zero = panic
percentage name size (suc n) =
    let action = str "changed by " ++ (itoa (100 * size / suc n) ++ b'%' ∷ []) in
    ok (name ++ (b':' ∷ 10 ∷ 9 ∷ action), name ++ 32 ∷ action)

abbrev pub percentage_of : Str → ℕ → Option Stats → Result (Unit {0}) Words
percentage_of name size none = panic
percentage_of name size (some s) = percentage name size (max s.left s.right)

abbrev pub body_words : Str → ComponentChanges → Option Stats → Result (Unit {0}) Words
body_words name c stats =
    if is_empty c.rows
    then percentage_of name c.size stats
    else ok (name ++ b':' ∷ on_lines c.rows, name ++ 32 ∷ join_and c.rows)

-- With no rows only an error is logged: the title stays, and the message is empty.
abbrev pub field_words : Str → Str → List Str → Words
field_words title name [] = ([], title)
field_words title name (r ∷ []) = (name ++ (b':' ∷ 10 ∷ 9 ∷ r), name ++ 32 ∷ r)
field_words title name (r ∷ s ∷ rs) = (
  name ++ b':' ∷ on_lines (r ∷ s ∷ rs),
  name ++ (str " updated " ++ (itoa (length (r ∷ s ∷ rs)) ++ str " fields")),
)

unfoldable pub words_of : Str → Str → ComponentChanges → Option Stats → Result (Unit {0}) Words
words_of title name c stats =
    let whole = name ++ 32 ∷ c.entire_message in
    if not (is_empty c.entire_message)
    then ok (whole, whole)
    else if str_eq name (str "body")
    then body_words name c stats
    else ok (field_words title name c.rows)

abbrev pub add_words : Str → Told → Words → Told
add_words name t (msg, title) = record {
  short_title = title;
  long_message = if is_empty t.long_message then msg else t.long_message ++ 10 ∷ msg;
  changed = t.changed ++ name ∷ [];
}

abbrev pub tell_found : Str → Option Stats → Option ComponentChanges → Told → Result (Unit {0}) Told
tell_found name stats none t = ok t
tell_found name stats (some c) t =
    words_of t.short_title name c stats >>= λ w. ok (add_words name t w)

-- The loop over the components.
unfoldable pub tell : Components → Option Stats → List Str → Told → Result (Unit {0}) Told
tell m stats [] t = ok t
tell m stats (name ∷ names) t = do
  after ← tell_found name stats (lookup name m) t
  tell m stats names after

-- The list of the changed components, of which there are more than two.
unfoldable pub listed : List Str → Str
listed [] = []
listed (n ∷ []) = str "and " ++ n
listed (n ∷ m ∷ ns) = n ++ (str ", " ++ listed (m ∷ ns))

abbrev pub title_of : Str → List Str → Str
title_of title (m ∷ n ∷ []) = str "updated " ++ (m ++ (str " and " ++ n))
title_of title (l ∷ m ∷ n ∷ ns) = str "updated " ++ listed (l ∷ m ∷ n ∷ ns)
title_of title other = title

unfoldable pub diff_descriptions :
    Deltas → Deltas → Option Stats → (assume_body_changed : Bool) → Result (Unit {0}) (Str × Str)
diff_descriptions head body stats assume_body_changed =
    let m = build_component_changes (preprocess head) (preprocess body) stats assume_body_changed in
    let start : Told = record { short_title = []; long_message = []; changed = [] } in
    if no_child head && no_child body
    then ok ([], [])
    else (tell m stats components_to_check start >>= λ t.
        ok (title_of t.short_title t.changed, t.long_message))
