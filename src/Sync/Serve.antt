-- ===== src/Sync/Serve.antt =====
-- logbook/logsync/logsync.go: `Logsync.get`, which sends what `UserDatasetBranchesLog` returns, and
-- `Logsync.DoRemove`. The bytes of a log and the removal on the remote are parameters.
use qri.Base.{Bool, ℕ, length, List, Str, Result, ok, err, panic, Option, none, some, ◌>>=◌}
use qri.Base.Int.{ℤ, pos, negsuc}
use qri.Oplog.Op.{Op}
use qri.Oplog.Log
use qri.Oplog.Log.{Head}
use qri.Oplog.Journal.{Journal}
use qri.Dsref.Ref.{Ref, VersionInfo}
use qri.Logbook.Model.{Error}
use qri.Logbook.Book.Defs.{Book}
use qri.Logbook.Book.Resolve.{resolve_ref, items}
use qri.Logbook.Book.Remote.Sending.{Shared, Sparse, user_dataset_branches_log, write_remote_delete}
use qri.Sync.Remote.{SyncError, from_book, of_book, Hook, call_hook}

module _ (hash : Op → Str) (writes : Journal → Bool) (fuel : ℕ) where
  abbrev pub Outcome : Type 0 → Type 0
  Outcome A = Option (Result SyncError A × Shared)

  -- There are bytes of a log only.
  abbrev pub bytes_of : (Log.Log → Result Error Str) → Option Log.Log → Result SyncError Str
  bytes_of log_bytes none = panic
  bytes_of log_bytes (some l) = of_book (log_bytes l)

  abbrev pub send :
      (Log.Log → Result Error Str) → Option (Result Error (Option Log.Log) × Shared) → Outcome Str
  send log_bytes none = none
  send log_bytes (some (r, s)) = some (of_book r >>= bytes_of log_bytes, s)

  abbrev pub send_resolved :
      (Log.Log → Result Error Str) → Option Head → Result Error Ref × Book → Outcome Str
  send_resolved log_bytes ps (ok ref, b) =
      send log_bytes
        (user_dataset_branches_log hash writes fuel ref.init_id (record { book = b; pointer = ps }))
  send_resolved log_bytes ps (err e, b) =
      some (err (from_book e), record { book = b; pointer = ps })
  send_resolved log_bytes ps (panic, b) = some (panic, record { book = b; pointer = ps })

  -- `get`: the hook that is called after the work changes nothing, and its error is only logged.
  unfoldable pub send_log :
      (pre_check : Hook) → (log_bytes : Log.Log → Result Error Str) → Ref → Shared → Outcome Str
  send_log pre_check log_bytes ref s = elim (call_hook pre_check ref none) [
    | err e ↦ some (err e, s)
    | panic ↦ some (panic, s)
    | ok u ↦ send_resolved log_bytes s.pointer (resolve_ref hash writes ref s.book)
  ]

  abbrev pub from_logbook : Sparse → Outcome (Option Log.Log)
  from_logbook none = none
  from_logbook (some (r, s)) = some (of_book r, s)

  -- The removal of all versions that the book knows, as an operation of the branch.
  abbrev pub delete_versions :
      Ref
      → (now : ℤ) → (remote_addr : Str) → Option Head
      → Result Error (List VersionInfo) × Book
      → Outcome (Option Log.Log)
  delete_versions ref now remote_addr p (ok versions, b) = from_logbook (
      write_remote_delete hash writes fuel ref.init_id now (pos (length versions)) remote_addr
        (record { book = b; pointer = p }))
  delete_versions ref now remote_addr p (err e, b) =
      some (err (from_book e), record { book = b; pointer = p })
  delete_versions ref now remote_addr p (panic, b) = some (panic, record { book = b; pointer = p })

  -- `DoRemove`: `asked` is what the remote answered.
  unfoldable pub do_remove :
      (asked : Result SyncError (Unit {0}))
      → Ref
      → (now : ℤ) → (remote_addr : Str) → Shared
      → Outcome (Option Log.Log)
  do_remove (err e) ref now remote_addr s = some (err e, s)
  do_remove panic ref now remote_addr s = some (panic, s)
  do_remove (ok u) ref now remote_addr s =
      delete_versions ref now remote_addr s.pointer
        (items hash writes ref (pos 0) (negsuc 0) s.book)
