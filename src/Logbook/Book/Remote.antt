-- ===== src/Logbook/Book/Remote.antt =====
-- logbook/logbook.go: `WriteRemotePush` and `WriteRemoteDelete` up to the save, and the rollback that they
-- return. What they do after the save is in Remote/Sending.antt.
pub mod Rollback
pub mod Sending
pub mod Sent
use qri.Base.{List, [], ◌∷◌, Bool, Str, Result, ok, err, panic, Option, none, some}
use qri.Base.Int.{ℤ}
use qri.Oplog.Op.{Op, OpType, op_init, op_remove, empty_op}
use qri.Oplog.Log
use qri.Oplog.Log.{head, ops_of, model}
use qri.Oplog.Journal.{Journal}
use qri.Logbook.Model.{Error, push_model}
use qri.Logbook.Book.Defs.{
  ◌>>=◌, ◌>>◌, Book, Action, lift, has_write_access, save, branch_log, put_branch, append_to_branch,
}

abbrev pub keep_first : Op → Result Error (List Op) → Result Error (List Op)
keep_first o (ok os) = ok (o ∷ os)
keep_first o (err e) = err e
keep_first o panic = panic

-- `ops[:len(ops)-1]`
unfoldable pub drop_last : List Op → Result Error (List Op)
drop_last [] = panic
drop_last (o ∷ []) = ok []
drop_last (o ∷ p ∷ os) = keep_first o (drop_last (p ∷ os))

-- A push, or with `op_remove` a request to delete, of versions to the remote.
unfoldable pub remote_op : OpType → (now revisions : ℤ) → (remote_addr : Str) → Op
remote_op t now revisions remote_addr = record empty_op {
  op_type = t;
  model = push_model;
  timestamp = now;
  size = revisions;
  relations = remote_addr ∷ [];
}

module _ (hash : Op → Str) (writes : Journal → Bool) where
  unfoldable pub write_remote : Str → Op → Action (Unit {0})
  write_remote init_id op = do
    (lg, l) ← branch_log hash writes init_id
    has_write_access (head l)
    h ← append_to_branch hash writes init_id op
    save hash writes

  unfoldable pub record_push : Str → (now revisions : ℤ) → (remote_addr : Str) → Action (Unit {0})
  record_push init_id now revisions remote_addr =
      write_remote init_id (remote_op op_init now revisions remote_addr)

  unfoldable pub record_delete : Str → (now revisions : ℤ) → (remote_addr : Str) → Action (Unit {0})
  record_delete init_id now revisions remote_addr =
      write_remote init_id (remote_op op_remove now revisions remote_addr)

  -- What the rollback does the first time.
  unfoldable pub rollback : Str → Action (Unit {0})
  rollback init_id = do
    (lg, l) ← branch_log hash writes init_id
    ops ← lift (drop_last (ops_of l))
    put_branch hash writes init_id lg l (record (head l) { ops = ops })
    save hash writes

  -- The rollback: `once` is its result, if it ran before.
  unfoldable pub rollback_once :
      Str → Option (Result Error (Unit {0})) → Book → Result Error (Unit {0}) × Book
  rollback_once init_id (some r) b = (r, b)
  rollback_once init_id none b = rollback init_id b
