-- ===== src/Logbook/Book/Remote/Sending.antt =====
-- logbook/logbook.go: `UserDatasetBranchesLog`, and `WriteRemotePush` and `WriteRemoteDelete` whole: they read
-- the log to send after the save, and roll back if that fails. The state is the book and the parent
-- pointer of the object of the dataset's log. `none` means that the fuel for the ancestors ran out.
use qri.Base.{
  Bool, ℕ, List, Str, Result, ok, err, panic, Option, none, some, is_empty, if◌then◌else◌, ◌>>=◌,
}
use qri.Base.Int.{ℤ}
use qri.Oplog.Op.{Op, op_init, op_remove}
use qri.Oplog.Log
use qri.Oplog.Log.{Head}
use qri.Oplog.Journal.{Journal}
use qri.Oplog.Sparse.{SparseStore, get_sparse, parent}
use qri.Logbook.Model.{Error, not_found}
use qri.Logbook.Book.Defs.{Book, of_store}
use qri.Logbook.Book.Remote.{remote_op, write_remote, rollback_once}

pub record Shared : Type 0 where
  pub book : Book
  pub pointer : Option Head

-- The log to send, if the dataset's log has a parent.
abbrev pub Sparse : Type 0
Sparse = Option (Result Error (Option Log.Log) × Shared)

module _ (hash : Op → Str) (writes : Journal → Bool) (fuel : ℕ) where
  abbrev pub from_sparse :
      Book → Option (Result Log.Error (Log.Log × List Head) × SparseStore) → Sparse
  from_sparse b none = none
  from_sparse b (some (r, s)) = some (
    of_store r >>= λ got. ok (parent got),
    record { book = record b { store = s.journal }; pointer = s.pointer },
  )

  -- `UserDatasetBranchesLog`: the parent of the dataset's log, if it has one.
  unfoldable pub user_dataset_branches_log : Str → Shared → Sparse
  user_dataset_branches_log id s =
      if is_empty id
      then some (err not_found, s)
      else from_sparse s.book
          (get_sparse hash fuel id (record { journal = s.book.store; pointer = s.pointer }))

  -- The log to send is read, and what was written is rolled back if that fails.
  abbrev pub read_back : Str → Sparse → Sparse
  read_back id none = none
  read_back id (some (ok l, s)) = some (ok l, s)
  read_back id (some (err e, s)) =
      some (err e, record s { book = (rollback_once hash writes id none s.book).1 })
  read_back id (some (panic, s)) = some (panic, s)

  abbrev pub then_read : Str → Option Head → Result Error (Unit {0}) × Book → Sparse
  then_read id p (ok u, b) =
      read_back id (user_dataset_branches_log id (record { book = b; pointer = p }))
  then_read id p (err e, b) = some (err e, record { book = b; pointer = p })
  then_read id p (panic, b) = some (panic, record { book = b; pointer = p })

  unfoldable pub send_remote : Str → Op → Shared → Sparse
  send_remote id op s = then_read id s.pointer (write_remote hash writes id op s.book)

  unfoldable pub write_remote_push :
      Str → (now revisions : ℤ) → (remote_addr : Str) → Shared → Sparse
  write_remote_push id now revisions remote_addr =
      send_remote id (remote_op op_init now revisions remote_addr)

  unfoldable pub write_remote_delete :
      Str → (now revisions : ℤ) → (remote_addr : Str) → Shared → Sparse
  write_remote_delete id now revisions remote_addr =
      send_remote id (remote_op op_remove now revisions remote_addr)
