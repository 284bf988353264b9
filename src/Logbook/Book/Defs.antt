-- ===== src/Logbook/Book/Defs.antt =====
-- logbook/logbook.go: the state of a `Book`, and the steps that its operations share.
use mathlib.Core.Path.{◌≡◌, ap}
use qri.Base.{
  ℕ, List, [], ◌∷◌, ◌++◌, Bool, not, ◌||◌, Str, str_eq, Result, ok, err, panic, Option, none, some,
  is_empty, ◌==◌, if◌then◌else◌,
}
use qri.Base.Int.{ℤ, pos}
use qri.Oplog.Op.{Op, op_init, empty_op}
use qri.Oplog.Log
use qri.Oplog.Log.{
  Head, Logs, node, nil, cons, head, children, ops_of, length_logs, init_log, append, author,
}
use qri.Oplog.Journal.{Journal, get, put_back}
use qri.Dsref.Ref.{VersionInfo}
use qri.Logbook.Model.{
  Error, author_model, dataset_model, branch_model, commit_model, push_model, run_model,
  run_id_rel_prefix, access_denied, not_one_branch, save_failed, from_store,
}

-- event/dataset.go: the changes of a dataset, most of which the logbook publishes.
pub data EventType : Type 0 where
  dataset_name_init dataset_commit_change dataset_delete_all dataset_rename dataset_create_link :
      EventType

pub record DsChange : Type 0 where
  pub init_id : Str
  pub top_index : ℕ
  pub profile_id : Str
  pub username : Str
  pub pretty_name : Str
  pub head_ref : Str
  pub info : Option VersionInfo
  pub dir : Str

abbrev pub empty_change : DsChange
empty_change = record {
  init_id = [];
  top_index = 0;
  profile_id = [];
  username = [];
  pretty_name = [];
  head_ref = [];
  info = none;
  dir = [];
}

-- `disk` is the journal that was written last.
pub record Book : Type 0 where
  pub store : Journal
  pub author_id : Str
  pub author_name : Str
  pub disk : Option Journal
  pub events : List (EventType × DsChange)

-- What the logbook reads of a `dataset.Dataset` whose `Commit` is set; `info` is its
-- `ConvertDatasetToVersionInfo`.
pub record Dataset : Type 0 where
  pub path : Str
  pub previous_path : Str
  pub timestamp : ℤ
  pub title : Str
  pub run_id : Str
  pub structure_length : Option ℤ
  pub info : VersionInfo

-- What the logbook reads of a `run.State`; `number` is the decimal text of its `Number`.
pub record RunState : Type 0 where
  pub id : Str
  pub number : Str
  pub duration : ℤ
  pub status : Str
  pub start_time : Option ℤ

abbrev pub Action : Type 0 → Type 0
Action A = Book → Result Error A × Book

abbrev pub continue :
    {A B : Type 0} → (A → Action B) → Result Error A × Book → Result Error B × Book
continue f (ok a, b) = f a b
continue f (err e, b) = (err e, b)
continue f (panic, b) = (panic, b)

infixl 5 ◌>>=◌
infixl 5 ◌>>◌
abbrev pub ◌>>=◌ : {A B : Type 0} → Action A → (A → Action B) → Action B
◌>>=◌ first then_do book = continue then_do (first book)

abbrev pub ◌>>◌ : {B : Type 0} → Action (Unit {0}) → Action B → Action B
m >> k = m >>= λ _. k

pub bind_ok :
    {A B : Type 0} (m : Action A) (f : A → Action B) {a : A} {b b' : Book}
    → m b ≡ (ok a, b')
    → (m >>= f) b ≡ f a b'
bind_ok m f e = ap (continue f) e

pub bind_err :
    {A B : Type 0} (m : Action A) (f : A → Action B) {r : Error} {b b' : Book}
    → m b ≡ (err r, b')
    → (m >>= f) b ≡ (err r, b')
bind_err m f e = ap (continue f) e

abbrev pub pure : {A : Type 0} → A → Action A
pure a b = (ok a, b)

abbrev pub lift : {A : Type 0} → Result Error A → Action A
lift r b = (r, b)

abbrev pub reject_if : Bool → Error → Action (Unit {0})
reject_if c e b = (if c then err e else ok tt, b)

-- The result of a call of the store.
abbrev pub of_store : {A : Type 0} → Result Log.Error A → Result Error A
of_store (ok a) = ok a
of_store (err e) = err (from_store e)
of_store panic = panic

-- A publisher's error is only logged.
abbrev pub publish : EventType → DsChange → Action (Unit {0})
publish t c b = (ok tt, record b { events = b.events ++ (t, c) ∷ [] })

-- `Append` of `UserLog`, `DatasetLog` and `BranchLog`: an operation of another model is dropped.
unfoldable pub user_append : Op → Head → Result Log.Error Head
user_append op h = if op.model == author_model then append op h else ok h

unfoldable pub dataset_append : Op → Head → Result Log.Error Head
dataset_append op h = if op.model == dataset_model then append op h else ok h

unfoldable pub branch_append : Op → Head → Result Log.Error Head
branch_append op h =
    if op.model == branch_model
      || op.model == commit_model
      || op.model == push_model
      || op.model == run_model
    then append op h
    else ok h

-- `appendVersionSave`, `appendTransformRun`: the operations that they append.
unfoldable pub version_op : Dataset → Op
version_op ds = record empty_op {
  op_type = op_init;
  model = commit_model;
  ref = ds.path;
  prev = ds.previous_path;
  timestamp = ds.timestamp;
  note = ds.title;
  size = elim ds.structure_length [ none ↦ pos 0 | some n ↦ n ];
  relations = if is_empty ds.run_id then [] else (run_id_rel_prefix ++ ds.run_id) ∷ [];
}

unfoldable pub transform_run_op : RunState → Op
transform_run_op rs = record empty_op {
  op_type = op_init;
  model = run_model;
  ref = rs.id;
  name = rs.number;
  size = rs.duration;
  note = rs.status;
  timestamp = elim rs.start_time [ none ↦ pos 0 | some t ↦ t ];
}

unfoldable pub first_author_id : List Op → Result Error Str
first_author_id [] = panic
first_author_id (o ∷ os) = ok o.author_id

-- `hasWriteAccess`
unfoldable pub has_write_access : Head → Action (Unit {0})
has_write_access h = do
  a ← lift (first_author_id h.ops)
  λ b. reject_if (not (str_eq a b.author_id)) access_denied b

abbrev pub only_child : Log.Log → Result Error Log.Log
only_child (node h (cons l nil)) = ok l
only_child (node h nil) = err not_one_branch
only_child (node h (cons l (cons m ls))) = err not_one_branch

module _ (hash : Op → Str) (writes : Journal → Bool) where
  abbrev pub get_log : Str → Action Log.Log
  get_log id b = (of_store (get hash b.store id), b)

  -- What is written through the pointer to the log of the id.
  abbrev pub put_log : Str → Log.Log → Action (Unit {0})
  put_log id l b = (ok tt, record b { store = put_back hash b.store id l })

  unfoldable pub save : Action (Unit {0})
  save b =
      if writes b.store then (ok tt, record b { disk = some b.store }) else (err save_failed, b)

  -- `branchLog`: the dataset's log and its only branch.
  unfoldable pub branch_log : Str → Action (Log.Log × Log.Log)
  branch_log init_id = do lg ← get_log init_id; l ← lift (only_child lg); pure (lg, l)

  -- The branch of the dataset, with the fields `h` in the place of its own.
  unfoldable pub put_branch : Str → Log.Log → Log.Log → Head → Action (Unit {0})
  put_branch init_id lg l h = put_log init_id (node (head lg) (cons (node h (children l)) nil))

  -- `BranchLog.Append` through the pointer that `branchLog` returned.
  unfoldable pub append_to_branch : Str → Op → Action Head
  append_to_branch init_id op = do
    (lg, l) ← branch_log init_id
    h ← lift (of_store (branch_append op (head l)))
    put_branch init_id lg l h
    pure h

  unfoldable pub append_to_dataset : Str → Op → Action (Unit {0})
  append_to_dataset init_id op = do
    lg ← get_log init_id
    h ← lift (of_store (dataset_append op (head lg)))
    put_log init_id (node h (children lg))
