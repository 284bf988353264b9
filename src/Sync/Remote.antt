-- ===== src/Sync/Remote.antt =====
-- `Logsync.put` and `Logsync.del`, on the book that they are called on. The decoding of a log and the
-- check of its signature are parameters. A hook is called for its error; that of a hook which is
-- called after the work is only logged. A hook that is not set is `none`.
use qri.Base.{
  Bool, not, ◌&&◌, Str, str_eq, Result, ok, err, panic, ◌>>=◌, ◌>>◌, reject, is_empty, ◌==◌, Option,
  none, some,
}
use qri.Oplog.Op.{Op}
use qri.Oplog.Log
use qri.Oplog.Log.{head, children, nil, cons, node, model, name_of, first_op_author_id}
use qri.Oplog.Journal.{Journal}
use qri.Dsref.Ref.{Ref, empty_ref}
use qri.Logbook.Model.{Error, author_model, not_an_author, ambiguous_dataset}
use qri.Logbook.Book.Defs.{Book, of_store}
use qri.Logbook.Book.Resolve.{branch_ref}
use qri.Logbook.Book.Datasets.{book_merge_log, remove_dataset_log}

pub data SyncError : Type 0 where
  no_data log_mismatch : SyncError
  refused undecoded : Str → SyncError
  from_book : Error → SyncError

abbrev pub Hook : Type 0
Hook = Option (Ref → Option Log.Log → Result Str (Unit {0}))

abbrev pub hook_error : Result Str (Unit {0}) → Result SyncError (Unit {0})
hook_error (ok u) = ok tt
hook_error (err e) = err (refused e)
hook_error panic = panic

abbrev pub call_hook : Hook → Ref → Option Log.Log → Result SyncError (Unit {0})
call_hook none ref lg = ok tt
call_hook (some f) ref lg = hook_error (f ref lg)

abbrev pub of_book : {A : Type 0} → Result Error A → Result SyncError A
of_book (ok a) = ok a
of_book (err e) = err (from_book e)
of_book panic = panic

abbrev pub alias_of_children : Log.Head → Log.Logs → Result Error Ref
alias_of_children h (cons l nil) = of_store (name_of h) >>= λ username.
    of_store (name_of (head l)) >>= λ name. of_store (first_op_author_id h) >>= λ id.
    ok (record empty_ref { username = username; name = name; profile_id = id })
alias_of_children h other = err ambiguous_dataset

-- `DsrefAliasForLog`
unfoldable pub dsref_alias_for_log : Log.Log → Result Error Ref
dsref_alias_for_log (node h ls) = of_store (model h.ops) >>= λ m.
    reject (not (m == author_model)) not_an_author >>= λ u. alias_of_children h ls

abbrev pub same_alias : Ref → Ref → Bool
same_alias l r =
    str_eq l.username r.username && str_eq l.name r.name && str_eq l.profile_id r.profile_id

module _ (hash : Op → Str) (writes : Journal → Bool) (unmarshal : Str → Result Str Log.Log)
    (verified : Log.Log → Result Error (Unit {0})) where
  abbrev pub decoded : Result Str Log.Log → Result SyncError Log.Log
  decoded (ok l) = ok l
  decoded (err e) = err (undecoded e)
  decoded panic = panic

  -- `put` up to the merge: the log, if it is accepted.
  unfoldable pub accept : (pre_check final_check : Hook) → Ref → Str → Result SyncError Log.Log
  accept pre_check final_check ref data' = do
    call_hook pre_check ref none
    reject (is_empty data') no_data
    lg ← decoded (unmarshal data')
    log_ref ← of_book (dsref_alias_for_log lg)
    reject (not (same_alias log_ref ref)) log_mismatch
    call_hook final_check log_ref (some lg)
    ok lg

  abbrev pub merge_accepted : Result SyncError Log.Log → Book → Result SyncError (Unit {0}) × Book
  merge_accepted (ok lg) b =
      let (r, after) = book_merge_log hash writes (verified lg) lg b in (of_book r, after)
  merge_accepted (err e) b = (err e, b)
  merge_accepted panic b = (panic, b)

  -- `put`
  unfoldable pub receive_log :
      (pre_check final_check : Hook) → Ref → Str → Book → Result SyncError (Unit {0}) × Book
  receive_log pre_check final_check ref data' b =
      merge_accepted (accept pre_check final_check ref data') b

  abbrev pub remove_found :
      Result SyncError (Unit {0}) → Ref → Book → Result SyncError (Unit {0}) × Book
  remove_found (ok u) ref b =
      let (r, after) = remove_dataset_log hash writes ref b in (of_book r, after)
  remove_found (err e) ref b = (err e, b)
  remove_found panic ref b = (panic, b)

  -- `del`
  unfoldable pub del_log : (pre_check : Hook) → Ref → Book → Result SyncError (Unit {0}) × Book
  del_log pre_check ref b =
      let (found, after) = branch_ref hash writes ref b in
      remove_found (call_hook pre_check ref none >>= λ u. of_book found >>= λ l. ok tt) ref after
