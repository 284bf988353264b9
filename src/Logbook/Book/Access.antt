-- ===== src/Logbook/Book/Access.antt =====
-- Only the author who began a log may write to it.
use mathlib.Core.Path.{◌≡◌, refl, ap, ◌∙◌}
use mathlib.Core.Logic.{◌≢◌}
use qri.Base.{
  List, ◌∷◌, Bool, true, false, not, Str, str_eq, str_eq_iff, ok, err, Option, if◌then◌else◌, arith,
}
use qri.Base.Int.{ℤ}
use qri.Oplog.Op.{Op}
use qri.Oplog.Log
use qri.Oplog.Log.{
  Head, Logs, node, nil, cons, head, children, ops_of, length_logs, init_log, append, author, model,
}
use qri.Oplog.Journal.{Journal, get}
use qri.Dsref.Name.{is_valid_name}
use qri.Logbook.Model.{access_denied, invalid_name}
use qri.Logbook.Book.Defs.{
  Book, Dataset, RunState, Action, ◌>>=◌, ◌>>◌, bind_ok, bind_err, reject_if, of_store,
  first_author_id, has_write_access, get_log, branch_log,
}
use qri.Logbook.Book.Datasets.{write_dataset_rename, write_dataset_delete}
use qri.Logbook.Book.Versions.{
  write_version_save, write_transform_run, write_version_amend, write_version_delete,
}

first_author_id_lem :
    (o : Op) (os ops : List Op) → ops ≡ o ∷ os → first_author_id ops ≡ ok o.author_id
unfolding first_author_id
first_author_id_lem o os ops e = rw e refl

has_write_access_denied :
    (h : Head) (b : Book) (o : Op) (os : List Op)
    → h.ops ≡ o ∷ os
    → o.author_id ≢ b.author_id
    → has_write_access h b ≡ (err access_denied, b)
unfolding has_write_access
has_write_access_denied h b o os e ne =
    let n : str_eq o.author_id b.author_id ≡ false =
      ground (arith, str_eq_iff o.author_id b.author_id) in
    rw (first_author_id_lem o os h.ops e, n) refl

pub has_write_access_granted :
    (h : Head) (b : Book) (o : Op) (os : List Op)
    → h.ops ≡ o ∷ os
    → o.author_id ≡ b.author_id
    → has_write_access h b ≡ (ok tt, b)
unfolding has_write_access
has_write_access_granted h b o os e same =
    let y : str_eq o.author_id b.author_id ≡ true = (str_eq_iff o.author_id b.author_id).1 same in
    rw (first_author_id_lem o os h.ops e, y) refl

module _ (hash : Op → Str) (writes : Journal → Bool) where
  pub branch_log_lem :
      (init_id : Str) (h : Head) (l : Log.Log) (b : Book)
      → get hash b.store init_id ≡ ok (node h (cons l nil))
      → branch_log hash writes init_id b ≡ (ok (node h (cons l nil), l), b)
  unfolding branch_log
  branch_log_lem init_id h l b e =
      bind_ok (get_log hash writes init_id) _ (ap (λ r. (of_store r, b)) e)

  module _ (init_id : Str) (h : Head) (l : Log.Log) (b : Book) (o : Op) (os : List Op)
      (found : get hash b.store init_id ≡ ok (node h (cons l nil))) where
    branch_stop :
        (head l).ops ≡ o ∷ os
        → o.author_id ≢ b.author_id
        → (m : Log.Log × Log.Log → Action (Unit {0}))
        → (branch_log hash writes init_id >>= λ p. has_write_access (head p.1) >> m p) b
          ≡ (err access_denied, b)
    branch_stop e ne m =
        bind_ok (branch_log hash writes init_id) _ (branch_log_lem init_id h l b found)
        ∙ bind_err (has_write_access (head l)) _ (has_write_access_denied (head l) b o os e ne)

    -- On a dataset with one branch that another author began, every operation on versions is
    -- refused, and changes nothing.
    pub branch_writes_denied :
        (head l).ops ≡ o ∷ os
        → o.author_id ≢ b.author_id
        → (ds : Dataset) (rs : RunState) (run : Option RunState) (revisions : ℤ)
        → (write_version_save hash writes init_id ds run b ≡ (err access_denied, b))
          × (write_transform_run hash writes init_id rs b ≡ (err access_denied, b))
          × (write_version_amend hash writes init_id ds b ≡ (err access_denied, b))
          × (write_version_delete hash writes init_id revisions b ≡ (err access_denied, b))
    unfolding write_version_save write_transform_run write_version_amend write_version_delete
    branch_writes_denied e ne ds rs run revisions =
        (branch_stop e ne _, branch_stop e ne _, branch_stop e ne _, branch_stop e ne _)

  module _ (init_id : Str) (h : Head) (branches : Logs) (b : Book) (o : Op) (os : List Op)
      (found : get hash b.store init_id ≡ ok (node h branches)) where
    dataset_stop :
        h.ops ≡ o ∷ os
        → o.author_id ≢ b.author_id
        → (m : Log.Log → Action (Unit {0}))
        → (get_log hash writes init_id >>= λ lg. has_write_access (head lg) >> m lg) b
          ≡ (err access_denied, b)
    dataset_stop e ne m =
        bind_ok (get_log hash writes init_id) _ (ap (λ r. (of_store r, b)) found)
        ∙ bind_err (has_write_access h) _ (has_write_access_denied h b o os e ne)

    -- On a stored dataset that another author began, whatever branches it has, renaming it to a valid
    -- name and deleting it are refused, and change nothing.
    pub dataset_writes_denied :
        h.ops ≡ o ∷ os
        → o.author_id ≢ b.author_id
        → (now : ℤ) (name : Str) → is_valid_name name ≡ true
        → (write_dataset_rename hash writes now init_id name b ≡ (err access_denied, b))
          × (write_dataset_delete hash writes now init_id b ≡ (err access_denied, b))
    unfolding write_dataset_rename write_dataset_delete
    dataset_writes_denied e ne now name valid = (
      bind_ok (reject_if (not (is_valid_name name)) invalid_name) _
            (ap (λ v. (if not v then err invalid_name else ok tt, b)) valid)
          ∙ dataset_stop e ne _,
      dataset_stop e ne _,
    )
