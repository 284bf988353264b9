-- ===== src/Fsi/Status.antt =====
-- fsi/status.go: what changed between two versions of a dataset, or a version and a working directory. Of a
-- component the status reads what stands here and calls its `Compare`, which is the parameter
-- `compare`, as a method of the interface `Component`. Subcomponents are a map by name.
use qri.Base.{
  List, [], ◌∷◌, ◌++◌, Bool, true, false, not, ◌||◌, all, Str, str, str_eq, map, Result, ok, err,
  panic, ◌>>=◌, reject, is_empty, if◌then◌else◌, Option, none, some,
}
use qri.Base.Int.{ℤ, pos}
use qri.Base.Assoc.{lookup, delete}

abbrev pub st_unmodified : Str
st_unmodified = str "unmodified"

abbrev pub st_add : Str
st_add = str "add"

abbrev pub st_change : Str
st_change = str "modified"

abbrev pub st_removed : Str
st_removed = str "removed"

abbrev pub st_parse_error : Str
st_parse_error = str "parse error"

-- `V` is what `Compare` looks at; a time is zero if it is not set.
pub record Component (V : Type 0) : Type 0 where
  pub value : V
  pub problem_kind : Str
  pub source_file : Str
  pub mod_time : ℤ

pub record StatusItem : Type 0 where
  pub source_file : Str
  pub component : Str
  pub item_type : Str
  pub message : Str
  pub mtime : ℤ

abbrev pub all_subcomponent_names : List Str
all_subcomponent_names =
    str "commit"
    ∷ str "meta"
    ∷ str "structure"
    ∷ str "readme"
    ∷ str "viz"
    ∷ str "transform"
    ∷ str "body"
    ∷ []

abbrev pub Subcomponents : Type 0 → Type 0
Subcomponents V = List (Str × Component V)

abbrev pub removed_item : Str → StatusItem
removed_item name = record {
  source_file = [];
  component = name;
  item_type = st_removed;
  message = [];
  mtime = pos 0;
}

-- The type of a component that both have; `none` is an error of `Compare`.
abbrev pub compared : Option Bool → Str
compared (some true) = st_unmodified
compared (some false) = st_change
compared none = st_parse_error

abbrev pub unmodified : StatusItem → Bool
unmodified ch = str_eq ch.item_type st_unmodified

-- `IsWorkingDirectoryClean`, on what `Status` returned.
unfoldable pub is_working_directory_clean : Result Str (List StatusItem) → Result Str (Unit {0})
is_working_directory_clean changes =
    changes >>= λ items. reject (not (all unmodified items)) (str "working directory is dirty")

-- The loop at the end of `StatusAtVersion`.
abbrev pub name_source : StatusItem → StatusItem
name_source ch =
    if str_eq ch.component (str "meta")
      || str_eq ch.component (str "body")
      || str_eq ch.component (str "structure")
    then record ch { source_file = ch.component }
    else ch

module _ {V : Type 0} where
  -- An item with the file information of the component.
  abbrev pub item_of : Str → Str → Component V → StatusItem
  item_of name kind c = record {
    source_file = c.source_file;
    component = name;
    item_type = kind;
    message = [];
    mtime = c.mod_time;
  }

  abbrev pub dataset_problem : Option (Component V) → List StatusItem
  dataset_problem none = []
  dataset_problem (some c) =
      if is_empty c.problem_kind then [] else item_of (str "dataset") c.problem_kind c ∷ []

  -- The version before: an empty one, if there is none or if loading it took too long.
  abbrev pub previous_or_empty :
      (empty : Subcomponents V)
      → (previous_path : Str) → (late : Str → Bool)
      → (load : Str → Result Str (Subcomponents V × Str)) → Result Str (Subcomponents V)
  previous_or_empty empty previous_path late load =
      if is_empty previous_path then ok empty else elim (load previous_path) [
        | ok (prev, path) ↦ ok prev
        | err e ↦ if late e then ok empty else err e
        | panic ↦ panic
      ]

  module _ (compare : Component V → Component V → Option Bool) where
    abbrev pub present_item : Str → Option (Component V) → Component V → StatusItem
    present_item name none c = item_of name st_add c
    present_item name (some p) c = item_of name (compared (compare p c)) c

    -- One name of the loop.
    unfoldable pub name_status : Str → Option (Component V) → Option (Component V) → List StatusItem
    name_status name none none = []
    name_status name (some p) none = removed_item name ∷ []
    name_status name before (some c) =
        (if is_empty c.problem_kind
          then present_item name before c
          else item_of name c.problem_kind c)
        ∷ []

    unfoldable pub name_statuses : List Str → Subcomponents V → Subcomponents V → List StatusItem
    name_statuses [] prev next = []
    name_statuses (name ∷ names) prev next =
        name_status name (lookup name prev) (lookup name next) ++ name_statuses names prev next

    unfoldable pub calculate_state_transition : Subcomponents V → Subcomponents V → List StatusItem
    calculate_state_transition prev next =
        dataset_problem (lookup (str "dataset") next)
        ++ name_statuses all_subcomponent_names prev next

    -- `Status`, where the directory is linked: `stored` is the dataset of the version, or an empty one if
    -- there is none, and `working` are the components that were read from the directory.
    unfoldable pub status :
        (linked : Bool)
        → (stored working : Result Str (Subcomponents V)) → Result Str (List StatusItem)
    status linked stored working = reject (not linked) (str "not a linked directory") >>= λ u.
        stored >>= λ prev. working >>= λ next. ok (calculate_state_transition prev next)

    -- `StatusAtVersion`: `load` gives the components of the dataset at a path, without derived values, and the
    -- path of the version before it; `late` finds "deadline exceeded" in an error.
    unfoldable pub status_at_version :
        (empty : Subcomponents V)
        → (late : Str → Bool) → (load : Str → Result Str (Subcomponents V × Str)) → (path : Str)
        → Result Str (List StatusItem)
    status_at_version empty late load path =
        reject (is_empty path) (str "path is required to determine status at version") >>= λ u.
        load path >>= λ next. previous_or_empty empty next.1 late load >>= λ prev. ok (
          map name_source (
            calculate_state_transition (delete (str "commit") prev) (delete (str "commit") next.0)))
