-- ===== src/Friendly/Changes.antt =====
-- The deltas of the diffing library, and what changed in each component. Of the value of a delta its
-- length is kept, if it is a list or a map.
use qri.Base.{
  ℕ, List, [], ◌∷◌, ◌++◌, Bool, true, false, ◌&&◌, ◌||◌, Str, str, str_eq, is_empty, leb, ◌==◌,
  if◌then◌else◌, suc, ◌+◌, Option, none, some,
}
use qri.Base.Assoc.{lookup, insert}

pub data Operation : Type 0 where
  context_op delete_op insert_op update_op replace_op : Operation
  other_op : Str → Operation

mutual
  pub data Delta : Type 0 where
    delta : (op : Operation) (path : Str) (value : Option ℕ) (inner : Deltas) → Delta

  pub data Deltas : Type 0 where
    no_deltas : Deltas
    more_deltas : Delta → Deltas → Deltas

abbrev pub path_of : Delta → Str
path_of (delta op path value inner) = path

abbrev pub op_of : Delta → Operation
op_of (delta op path value inner) = op

abbrev pub replaced : Delta → Delta
replaced (delta op path value inner) = delta replace_op path value inner

abbrev pub is_delete : Operation → Bool
is_delete delete_op = true
is_delete other = false

abbrev pub is_insert : Operation → Bool
is_insert insert_op = true
is_insert other = false

abbrev pub no_child : Deltas → Bool
no_child no_deltas = true
no_child (more_deltas d ds) = false

-- The loop of `preprocess` on deltas whose own deltas were processed: `last` is the delta that was
-- built last.
unfoldable pub combined : Delta → Deltas → Deltas
combined last no_deltas = more_deltas last no_deltas
combined last (more_deltas d ds) =
    let joined = combined (replaced last) ds in
    let apart = more_deltas last (combined d ds) in
    if str_eq (path_of last) (path_of d) && is_delete (op_of last) && is_insert (op_of d)
    then joined
    else apart

abbrev pub combine : Deltas → Deltas
combine no_deltas = no_deltas
combine (more_deltas d ds) = combined d ds

unfoldable mutual
  pub processed : Delta → Delta
  processed (delta op path value inner) = delta op path value (combine (processed_all inner))

  pub processed_all : Deltas → Deltas
  processed_all no_deltas = no_deltas
  processed_all (more_deltas d ds) = more_deltas (processed d) (processed_all ds)

unfoldable pub preprocess : Deltas → Deltas
preprocess ds = combine (processed_all ds)

pub record ComponentChanges : Type 0 where
  pub entire_message : Str
  pub num : ℕ
  pub size : ℕ
  pub rows : List Str

abbrev pub no_changes : ComponentChanges
no_changes = record { entire_message = []; num = 0; size = 0; rows = [] }

abbrev pub small_number_of_changes_to_body : ℕ
small_number_of_changes_to_body = 3

unfoldable pub join_path : Str → Str → Str
join_path parent element = if is_empty parent then element else parent ++ b'.' ∷ element

-- It is not called for a context.
unfoldable pub past_tense : Operation → Str
past_tense delete_op = str "removed"
past_tense insert_op = str "added"
past_tense update_op = str "updated"
past_tense replace_op = str "updated"
past_tense context_op = []
past_tense (other_op text) = text

abbrev pub add_row : Str → ComponentChanges → ComponentChanges
add_row row c = record c { rows = c.rows ++ row ∷ [] }

abbrev pub is_context : Operation → Bool
is_context context_op = true
is_context other = false

unfoldable mutual
  -- One round of the loop of `buildChanges`.
  pub changes_of : Str → Delta → ComponentChanges → ComponentChanges
  changes_of parent (delta op path value inner) c =
      build_changes (join_path parent path) inner
        (if is_context op then c else add_row (past_tense op ++ 32 ∷ join_path parent path) c)

  pub build_changes : Str → Deltas → ComponentChanges → ComponentChanges
  build_changes parent no_deltas c = c
  build_changes parent (more_deltas d ds) c = build_changes parent ds (changes_of parent d c)

-- How much a value adds to the size of the change.
abbrev pub weight : Option ℕ → ℕ
weight none = 1
weight (some n) = n + 1

abbrev pub is_change : Operation → Bool
is_change context_op = false
is_change (other_op text) = false
is_change other = true

unfoldable pub count_change : Str → Option ℕ → ComponentChanges → ComponentChanges
count_change row value c = record c {
  num = suc c.num;
  size = c.size + weight value;
  rows = if leb (suc c.num) small_number_of_changes_to_body then c.rows ++ row ∷ [] else [];
}

unfoldable mutual
  -- One round of the loop of `buildBodyChanges`.
  pub body_changes_of : Str → Delta → ComponentChanges → ComponentChanges
  body_changes_of parent (delta op path value inner) c =
      let deeper = build_body_changes (join_path parent path) inner c in
      if is_change op
      then count_change (past_tense op ++ (str " row " ++ join_path parent path)) value c
      else deeper

  pub build_body_changes : Str → Deltas → ComponentChanges → ComponentChanges
  build_body_changes parent no_deltas c = c
  build_body_changes parent (more_deltas d ds) c =
      build_body_changes parent ds (body_changes_of parent d c)

abbrev pub or_no_changes : Option ComponentChanges → ComponentChanges
or_no_changes none = no_changes
or_no_changes (some c) = c

abbrev pub Components : Type 0
Components = List (Str × ComponentChanges)

abbrev pub entirely : Operation → Str → Components → Components
entirely op name m =
    insert name (record (or_no_changes (lookup name m)) { entire_message = past_tense op }) m

-- One round of the loop of `buildComponentChanges`.
unfoldable pub component_changes_of : Delta → Components → Components
component_changes_of (delta insert_op path value inner) m = entirely insert_op path m
component_changes_of (delta delete_op path value inner) m = entirely delete_op path m
component_changes_of (delta replace_op path value inner) m = entirely replace_op path m
component_changes_of (delta context_op path value inner) m =
    if no_child inner then m else insert path (build_changes [] inner no_changes) m
component_changes_of (delta other path value inner) m = m

unfoldable pub head_changes : Deltas → Components → Components
head_changes no_deltas m = m
head_changes (more_deltas d ds) m = head_changes ds (component_changes_of d m)

-- `deepdiff.Stats`
pub record Stats : Type 0 where
  pub left : ℕ
  pub right : ℕ

abbrev pub with_body : Deltas → Option Stats → Components → Components
with_body ds none m = m
with_body ds (some s) m =
    let c = build_body_changes [] ds no_changes in
    if no_child ds || c.num == 0 then m else insert (str "body") c m

unfoldable pub build_component_changes : Deltas → Deltas → Option Stats → Bool → Components
build_component_changes head body stats assume_body_changed =
    let m = head_changes head [] in
    if assume_body_changed
    then insert (str "body") (record no_changes { entire_message = str "changed" }) m
    else with_body body stats m
