-- ===== src/Logbook/Book/Tests.antt =====
-- The theorems on a book at a concrete book. An operation's hash is its note.
use mathlib.Core.Path.{◌≡◌, refl}
use mathlib.Core.Logic.{◌≢◌}
use qri.Base.{
  ℕ, [], ◌∷◌, ◌++◌, Bool, true, Str, str, Result, ok, err, none, some, arith, str_eq_iff,
}
use qri.Base.Int.{pos}
use qri.Oplog.Op.{Op, op_init, empty_op}
use qri.Oplog.Log.{Head, nil, cons, node}
use qri.Oplog.Tree.{find_log}
use qri.Oplog.Journal.{Journal, get}
use qri.Dsref.Ref.{empty_info}
use qri.Dsref.Name.{is_valid_name, is_letter, is_word, is_lower, is_upper, is_digit}
use qri.Logbook.Model.{Error, access_denied, branch_model, dataset_model}
use qri.Logbook.History.{latest_save_path}
use qri.Logbook.Book.Defs.{Book, Dataset, RunState, version_op}
use qri.Logbook.Book.Datasets.{write_dataset_rename, write_dataset_delete}
use qri.Logbook.Book.Versions.{
  write_version_save, write_transform_run, write_version_amend, write_version_delete,
}
use qri.Logbook.Book.Access.{branch_writes_denied, dataset_writes_denied}
use qri.Logbook.Model.{from_store, Error, author_model}
use qri.Oplog.Log
use qri.Oplog.Log.{Logs}
use qri.Logbook.Book.Remote.{rollback_once, rollback, drop_last}
use qri.Base.{panic, err, Result, Option, none, Str}
use qri.Logbook.Book.Remote.{remote_op, write_remote}
use qri.Oplog.Sparse.{get_sparse, with_descendants, climb}
use qri.Oplog.Journal.{put_back}
use qri.Logbook.Book.Remote.Sending.{Shared, Sparse, user_dataset_branches_log, send_remote}
use qri.Logbook.Book.Remote.Sent.{SentOrUndone, send_remote_lem}
use qri.Logbook.Book.Defs.{
  branch_log, has_write_access, first_author_id, append_to_branch, save, put_branch, branch_append,
}
use qri.Oplog.Tree.{replace_logs}
use qri.Oplog.Log.{append, model}
use qri.Base.{some}
use qri.Sync.Push.{push_do, Recorded, push_do_lem}
use qri.Logbook.Book.Appending.{Holds, run_ops, write_version_save_lem}

abbrev note_of : Op → Str
note_of o = o.note

abbrev all_written : Journal → Bool
all_written j = true

abbrev first_op : Str → ℕ → Str → Op
first_op note m name = record empty_op {
  op_type = op_init;
  model = m;
  name = name;
  author_id = str "QmLena";
  note = note;
}

abbrev log_head : Op → Head
log_head o = record { name = []; author_id = []; parent_id = []; signature = []; ops = o ∷ [] }

abbrev dataset_head : Head
dataset_head = log_head (first_op (str "cities") dataset_model (str "cities"))

abbrev branch_head : Head
branch_head = log_head (first_op (str "branch") branch_model (str "main"))

abbrev book_of : Str → Book
book_of who = record {
  store = record { id = []; logs = cons (node dataset_head (cons (node branch_head nil) nil)) nil };
  author_id = who;
  author_name = who;
  disk = none;
  events = [];
}

abbrev version : Dataset
version = record {
  path = str "/ipfs/QmA";
  previous_path = [];
  timestamp = pos 5;
  title = str "initial commit";
  run_id = str "r1";
  structure_length = none;
  info = empty_info;
}

abbrev run : RunState
run = record {
  id = str "r1";
  number = str "1";
  duration = pos 3;
  status = str "succeeded";
  start_time = none;
}

stored :
    (who : Str)
    → Holds note_of all_written (str "cities") (book_of who) dataset_head branch_head nil
unfolding get find_log
stored who = refl

lena-ne-omar : str "QmLena" ≢ str "QmOmar"
lena-ne-omar = ground (arith, str_eq_iff (str "QmLena") (str "QmOmar"))

branch_writes_denied_example :
    (write_version_save note_of all_written (str "cities") version none (book_of (str "QmOmar"))
      ≡ (err access_denied, book_of (str "QmOmar")))
    × (write_transform_run note_of all_written (str "cities") run (book_of (str "QmOmar"))
        ≡ (err access_denied, book_of (str "QmOmar")))
    × (write_version_amend note_of all_written (str "cities") version (book_of (str "QmOmar"))
        ≡ (err access_denied, book_of (str "QmOmar")))
    × (write_version_delete note_of all_written (str "cities") (pos 1) (book_of (str "QmOmar"))
        ≡ (err access_denied, book_of (str "QmOmar")))
branch_writes_denied_example =
    branch_writes_denied note_of all_written (str "cities") dataset_head (node branch_head nil)
      (book_of (str "QmOmar")) (first_op (str "branch") branch_model (str "main")) []
      (stored (str "QmOmar")) refl lena-ne-omar version run none (pos 1)

towns-IsValid : is_valid_name (str "towns") ≡ true
unfolding is_valid_name is_letter is_word is_lower is_upper is_digit
towns-IsValid = refl

dataset_writes_denied_example :
    (write_dataset_rename note_of all_written
        (pos 9)
        (str "cities")
        (str "towns")
        (book_of (str "QmOmar"))
      ≡ (err access_denied, book_of (str "QmOmar")))
    × (write_dataset_delete note_of all_written (pos 9) (str "cities") (book_of (str "QmOmar"))
        ≡ (err access_denied, book_of (str "QmOmar")))
dataset_writes_denied_example =
    dataset_writes_denied note_of all_written (str "cities") dataset_head
      (cons (node branch_head nil) nil) (book_of (str "QmOmar"))
      (first_op (str "cities") dataset_model (str "cities")) [] (stored (str "QmOmar")) refl
      lena-ne-omar (pos 9) (str "towns") towns-IsValid

write_version_save_lem_example :
    (b' : Book) × (k' : Head) × (write_version_save note_of all_written
        (str "cities")
        version
        (some run)
        (book_of (str "QmLena"))
      ≡ (ok tt, b'))
    × Holds note_of all_written (str "cities") b' dataset_head k' nil
    × (k'.ops ≡ branch_head.ops ++ (run_ops (some run) ++ version_op version ∷ []))
    × (b'.disk ≡ some b'.store)
    × (latest_save_path k'.ops ≡ str "/ipfs/QmA")
write_version_save_lem_example =
    write_version_save_lem note_of all_written (str "cities") dataset_head nil
      (book_of (str "QmLena")) branch_head version (some run)
      (first_op (str "branch") branch_model (str "main")) [] (λ j. refl) (stored (str "QmLena"))
      refl refl refl

-- The dataset below the log of its author, which `above` holds, if anything does.
abbrev child_head : Head
child_head = record dataset_head { parent_id = str "lena" }

abbrev child_book : (Logs → Logs) → Book
child_book above = record (book_of (str "QmLena")) {
  store = record {
    id = [];
    logs = above (cons (node child_head (cons (node branch_head nil) nil)) nil);
  };
}

abbrev below_author : Logs → Logs
below_author ls = cons (node (log_head (first_op (str "lena") author_model (str "lena"))) ls) nil

-- The state after the operation for the remote was saved, and what is read back from it.
abbrev pushed : Op
pushed = remote_op op_init (pos 9) (pos 2) (str "registry")

abbrev pushed_book : Book
pushed_book = (write_remote note_of all_written (str "cities") pushed (child_book below_author)).1

abbrev read_log : Sparse → Result Error (Option Log.Log) × Option Head
read_log none = (panic, none)
read_log (some (r, s)) = (r, s.pointer)

abbrev got : Result Error (Option Log.Log) × Option Head
got = read_log (
    user_dataset_branches_log note_of all_written 1 (str "cities")
      (record { book = pushed_book; pointer = none }))

child-stored :
    Holds note_of all_written (str "cities") (child_book below_author) child_head branch_head nil
unfolding get find_log
child-stored = refl

wrote_push :
    write_remote note_of all_written (str "cities") pushed (child_book below_author)
    ≡ (ok tt, pushed_book)
unfolding write_remote branch_log has_write_access first_author_id append_to_branch save put_branch
    get find_log put_back branch_append remote_op append model replace_logs
wrote_push = refl

reads_back :
    user_dataset_branches_log note_of all_written 1
      (str "cities")
      (record { book = pushed_book; pointer = none })
    ≡ some (got.0, record { book = pushed_book; pointer = got.1 })
unfolding user_dataset_branches_log get_sparse with_descendants write_remote branch_log
    has_write_access first_author_id append_to_branch save put_branch get find_log put_back
    branch_append remote_op append model replace_logs climb
reads_back = refl

got-calm : got.0 ≢ panic
unfolding user_dataset_branches_log get_sparse with_descendants write_remote branch_log
    has_write_access first_author_id append_to_branch save put_branch get find_log put_back
    branch_append remote_op append model replace_logs climb
got-calm h = cc

send_remote_lem_example :
    (after : Shared) × (send_remote note_of all_written 1
        (str "cities")
        pushed
        (record { book = child_book below_author; pointer = none })
      ≡ some (got.0, after))
    × SentOrUndone note_of all_written 1
        (λ j. refl)
        (str "cities")
        child_head
        nil
        branch_head
        pushed
        got.0
        after.book
send_remote_lem_example =
    send_remote_lem note_of all_written 1 (λ j. refl) (str "cities") child_head nil
      (record { book = child_book below_author; pointer = none }) branch_head
      (first_op (str "branch") branch_model (str "main")) [] op_init (pos 9) (pos 2)
      (str "registry") pushed_book got.0 got.1 child-stored refl refl wrote_push reads_back got-calm

abbrev stored_logs : Sparse → Result Error (Option Log.Log) × Logs
stored_logs none = (panic, nil)
stored_logs (some (r, s)) = (r, s.book.store.logs)

-- The parent is not stored: the call returns an error, and the operation was rolled back.
undoes_orphan :
    stored_logs (
      send_remote note_of all_written 1
        (str "cities")
        pushed
        (record { book = child_book (λ ls. ls); pointer = none }))
    ≡ (err (from_store Log.not_found), (child_book (λ ls. ls)).store.logs)
unfolding send_remote user_dataset_branches_log get_sparse with_descendants write_remote branch_log
    has_write_access first_author_id append_to_branch save put_branch get find_log put_back
    branch_append remote_op append model replace_logs climb rollback_once rollback drop_last
undoes_orphan = refl

-- The remote refuses the log.
push_do_lem_example :
    (r : Result Error (Unit {0})) × (after : Book) × (k' : Head) × (push_do note_of all_written
        (λ b. ok (str "log"))
        (λ d. err access_denied)
        (str "cities")
        (pos 9)
        (str "registry")
        (book_of (str "QmLena"))
      ≡ (r, after))
    × Holds note_of all_written (str "cities") after dataset_head k' nil
    × Recorded note_of all_written
        (λ b. ok (str "log"))
        (λ d. err access_denied)
        (λ j. refl)
        (str "cities")
        dataset_head
        nil
        branch_head
        (remote_op op_init (pos 9) (pos 1) (str "registry"))
        r
        k'
push_do_lem_example =
    push_do_lem note_of all_written (λ b. ok (str "log")) (λ d. err access_denied) (λ j. refl)
      (str "cities") dataset_head nil (book_of (str "QmLena")) branch_head
      (first_op (str "branch") branch_model (str "main")) [] (pos 9) (str "registry")
      (stored (str "QmLena")) refl refl (λ b e. cc)
