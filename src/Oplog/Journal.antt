-- ===== src/Oplog/Journal.antt =====
-- logbook/oplog/log.go: `Journal`, the store of the logs that one author knows.
pub mod Laws
use qri.Base.{
  ◌>>◌, List, [], ◌∷◌, ◌&&◌, Str, str_eq, Result, ok, err, panic, ◌>>=◌, reject, is_empty,
  if◌then◌else◌, Option, none, some,
}
use qri.Base.Int.{ℤ, pos, negsuc, eq_ℤ}
use qri.Oplog.Op.{Op}
use qri.Oplog.Log.{
  Error, not_found, name_required, empty_id, subsets_not_finished, Log, Logs, node, nil, cons, head,
  children, ops_of, append_logs, name_of, first_op_author_id,
}
use qri.Oplog.Tree.{id_of, find_logs, replace_logs, head_ref_in, update_ref_in}
use qri.Oplog.Merge.{merge}

pub record Journal : Type 0 where
  pub id : Str
  pub logs : Logs

-- `Journal.HeadRef`: the loop over the top level is that of `Log.HeadRef` over the children.
unfoldable pub head_ref_top : Journal → List Str → Result Error Log
head_ref_top j [] = err name_required
head_ref_top j (name ∷ names) = head_ref_in j.logs name names

-- The list without the first log of the name, removed or not; the loops of `RemoveLog`.
unfoldable pub remove_named : Str → Logs → Result Error Logs
remove_named name nil = err not_found
remove_named name (cons l ls) =
    let later = (do ls' ← remove_named name ls; ok (cons l ls')) in
    name_of (head l) >>= λ n. if str_eq n name then ok ls else later

-- The last name of a path, and the names before it.
unfoldable pub split_last : Str → List Str → List Str × Str
split_last n [] = ([], n)
split_last n (m ∷ ms) = let (before, last) = split_last m ms in (n ∷ before, last)

unfoldable pub remove_child : Str → Log → Result Error Log
remove_child name (node h ls) = do ls' ← remove_named name ls; ok (node h ls')

unfoldable pub remove_path : Journal → List Str × Str → Result Error Journal
remove_path j ([], remove) = do ls ← remove_named remove j.logs; ok (record j { logs = ls })
remove_path j (n ∷ ns, remove) = do
  ls ← update_ref_in (remove_child remove) j.logs n ns
  ok (record j { logs = ls })

-- `RemoveLog`
unfoldable pub remove_log : Journal → List Str → Result Error Journal
remove_log j [] = err name_required
remove_log j (n ∷ ns) = remove_path j (split_last n ns)

-- `Logs`: only all of them can be asked for.
unfoldable pub all_logs : Journal → (offset limit : ℤ) → Result Error Logs
all_logs j offset limit =
    if eq_ℤ offset (pos 0) && eq_ℤ limit (negsuc 0) then ok j.logs else err subsets_not_finished

module _ (hash : Op → Str) where
  -- `Get`
  unfoldable pub get : Journal → Str → Result Error Log
  get j id = find_logs hash id j.logs

  -- What writes through the pointer that `Get` returned do to the journal.
  unfoldable pub put_back : Journal → Str → Log → Journal
  put_back j id l = record j { logs = replace_logs hash id l j.logs }

  unfoldable pub set_id : Journal → Str → Result Error Journal
  set_id j id = get j id >>= λ found. ok (record j { id = id })

  -- The loop of `MergeLog` over the top level: `none` if no log has the author's id.
  unfoldable pub merge_same_author : Log → Logs → Result Error (Option Logs)
  merge_same_author incoming nil = ok none
  merge_same_author incoming (cons lg ls) =
      let here = (do lg' ← merge hash lg incoming; ok (some (cons lg' ls))) in
      let later = merge_same_author incoming ls >>= λ r.
      ok (elim r [ none ↦ none | some rest ↦ some (cons lg rest) ]) in
      first_op_author_id (head lg) >>= λ a.
      first_op_author_id (head incoming) >>= λ b. if str_eq a b then here else later

  unfoldable pub merge_unknown : Journal → Log → Result Error Journal
  merge_unknown j incoming = do
    r ← merge_same_author incoming j.logs
    elim r [
      | none ↦ ok (record j { logs = append_logs j.logs (cons incoming nil) })
      | some ls ↦ ok (record j { logs = ls })
    ]

  unfoldable pub merge_known : Journal → Log → Result Error Log → Result Error Journal
  merge_known j incoming (ok found) = do
    found' ← merge hash found incoming
    ok (put_back j (id_of hash incoming) found')
  merge_known j incoming (err e) = merge_unknown j incoming
  merge_known j incoming panic = panic

  -- `MergeLog`
  unfoldable pub merge_log : Journal → Log → Result Error Journal
  merge_log j incoming = do
    reject (is_empty (id_of hash incoming)) empty_id
    merge_known j incoming (get j (id_of hash incoming))

  -- `Children`, `Descendants`: the log that is passed in, with the children of the journal's.
  unfoldable pub descendants : Journal → Log → Result Error Log
  descendants j l = do got ← get j (id_of hash l); ok (node (head l) (children got))

  -- `l.Ops[0].Hash()`
  unfoldable pub init_hash : List Op → Result Error Str
  init_hash [] = panic
  init_hash (o ∷ os) = ok (hash o)

  unfoldable pub replace_all : Journal → Log → Result Error Journal
  replace_all j l = do id ← init_hash (ops_of l); ok (record { id = id; logs = cons l nil })
