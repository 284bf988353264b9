-- ===== src/Logbook/Model.antt =====
-- logbook/logbook.go: the models of operations, their names, and plain logs for serialization.
use qri.Base.{
  ℕ, List, [], not, ◌&&◌, Str, str, map, Result, ok, panic, ◌>>=◌, is_empty, ◌==◌, if◌then◌else◌,
}
use qri.Base.Int.{ℤ}
use qri.Oplog.Op.{Op, OpType, op_init, op_amend, op_remove}
use qri.Oplog.Log
use qri.Oplog.Log.{Log, Logs, node}

abbrev pub author_model : ℕ
author_model = 0

abbrev pub dataset_model : ℕ
dataset_model = 1

abbrev pub branch_model : ℕ
branch_model = 2

abbrev pub commit_model : ℕ
commit_model = 3

abbrev pub push_model : ℕ
push_model = 4

abbrev pub run_model : ℕ
run_model = 5

abbrev pub acl_model : ℕ
acl_model = 6

abbrev pub default_branch_name : Str
default_branch_name = str "main"

abbrev pub run_id_rel_prefix : Str
run_id_rel_prefix = str "runID:"

unfoldable pub model_string : ℕ → Str
model_string m =
    if m == author_model
    then str "user"
    else if m == dataset_model
    then str "dataset"
    else if m == branch_model
    then str "branch"
    else if m == commit_model
    then str "commit"
    else if m == push_model
    then str "push"
    else if m == acl_model
    then str "acl"
    else if m == run_model
    then str "run"
    else []

unfoldable pub op_type_string : OpType → Str
op_type_string t =
    if t == op_init
    then str "init"
    else if t == op_amend
    then str "amend"
    else if t == op_remove
    then str "remove"
    else []

pub record PlainOp : Type 0 where
  pub op_type : Str
  pub model : Str
  pub ref : Str
  pub prev : Str
  pub relations : List Str
  pub name : Str
  pub author_id : Str
  pub timestamp : ℤ
  pub size : ℤ
  pub note : Str

unfoldable pub new_plain_op : Op → PlainOp
new_plain_op op = record {
  op_type = op_type_string op.op_type;
  model = model_string op.model;
  ref = op.ref;
  prev = op.prev;
  relations = op.relations;
  name = op.name;
  author_id = op.author_id;
  timestamp = op.timestamp;
  size = op.size;
  note = op.note;
}

mutual
  pub data PlainLog : Type 0 where
    plain : List PlainOp → PlainLogs → PlainLog

  pub data PlainLogs : Type 0 where
    nil : PlainLogs
    cons : PlainLog → PlainLogs → PlainLogs

-- `NewPlainLog`; `new_plain_logs` is its loop over the children.
unfoldable mutual
  pub new_plain_log : Log → PlainLog
  new_plain_log (node h ls) = plain (map new_plain_op h.ops) (new_plain_logs ls)

  pub new_plain_logs : Logs → PlainLogs
  new_plain_logs Logs.nil = PlainLogs.nil
  new_plain_logs (Logs.cons l ls) = PlainLogs.cons (new_plain_log l) (new_plain_logs ls)

-- The row of `actionStrings`; a model that is not in the map has three empty texts.
unfoldable pub action_strings : ℕ → Str × Str × Str
action_strings m =
    if m == author_model
    then (str "create profile", str "update profile", str "delete profile")
    else if m == dataset_model
    then (str "init dataset", str "rename dataset", str "delete dataset")
    else if m == branch_model
    then (str "init branch", str "rename branch", str "delete branch")
    else if m == commit_model
    then (str "save commit", str "amend commit", str "remove commit")
    else if m == push_model
    then (str "publish", [], str "unpublish")
    else if m == acl_model
    then (str "update access", str "update access", str "remove all access")
    else ([], [], [])

-- The errors of the logbook; `from_store` wraps one that the store returned.
pub data Error : Type 0 where
  no_logbook not_found log_too_short access_denied invalid_name name_required : Error
  username_required dataset_exists not_one_branch run_id_mismatch save_failed : Error
  not_an_author ambiguous_dataset : Error
  from_store : Log.Error → Error

pub record LogEntry : Type 0 where
  pub timestamp : ℤ
  pub author : Str
  pub action : Str
  pub note : Str

-- `actionStrings[op.Model][int(op.Type)-1]`: an index out of the row is a panic.
unfoldable pub action_of : Op → Result Error Str
action_of op =
    let (created, amended, deleted) = action_strings op.model in
    if op.op_type == 1
    then ok created
    else if op.op_type == 2
    then ok amended
    else if op.op_type == 3
    then ok deleted
    else panic

unfoldable pub log_entry_from_op : Str → Op → Result Error LogEntry
log_entry_from_op author op = do
  action ← action_of op
  ok (record {
    timestamp = op.timestamp;
    author = author;
    action = action;
    note = if is_empty op.note && not (is_empty op.name) then op.name else op.note;
  })
