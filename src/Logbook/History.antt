-- ===== src/Logbook/History.antt =====
-- logbook/logbook.go: the operations of a branch, read back as versions. The integers that count
-- revisions are Go's `int`, without its overflow. A slice bound below zero, or past the length of
-- the slice, is a panic; Go lets a bound go past the length into spare capacity, which happens
-- only for an operation of a negative size.
pub mod Paging
pub mod Replay
pub mod Latest
mod Tests
use qri.Base.{
  ℕ, List, [], ◌∷◌, ◌++◌, Bool, true, false, not, ◌&&◌, ◌||◌, Str, str_eq, map, take, drop, ◌-◌,
  Result, ok, panic, ◌>>=◌, length, is_empty, ltb, ◌==◌, if◌then◌else◌, ◌+◌, none, some,
  strip_prefix, reverse,
}
use qri.Base.Int.{ℤ, pos, negsuc, eq_ℤ, ltb_ℤ, ◌+ℤ◌, ◌-ℤ◌}
use qri.Oplog.Op.{Op, op_init, op_amend, op_remove}
use qri.Oplog.Log.{Log, Logs, node, nil, cons}
use qri.Dsref.Ref.{Ref, VersionInfo, empty_info}
use qri.Logbook.Model.{
  Error, commit_model, push_model, run_model, run_id_rel_prefix, LogEntry, log_entry_from_op,
}

-- The run id of the first relation that has the prefix, else the empty text.
unfoldable pub run_id_in : List Str → Str
run_id_in [] = []
run_id_in (r ∷ rs) =
    let later = run_id_in rs in
    elim (strip_prefix run_id_rel_prefix r) [ none ↦ later | some id ↦ id ]

unfoldable pub commit_op_run_id : Op → Str
commit_op_run_id op = run_id_in op.relations

unfoldable pub version_info_from_op : Ref → Op → VersionInfo
version_info_from_op ref op = record empty_info {
  username = ref.username;
  profile_id = ref.profile_id;
  name = ref.name;
  path = op.ref;
  commit_time = some op.timestamp;
  body_size = op.size;
  commit_title = op.note;
}

unfoldable pub run_item_from_op : Ref → Op → VersionInfo
run_item_from_op ref op = record empty_info {
  username = ref.username;
  profile_id = ref.profile_id;
  name = ref.name;
  commit_time = some op.timestamp;
  run_id = op.ref;
  run_status = op.note;
  run_duration = op.size;
}

unfoldable pub add_commit_details_to_run_item : VersionInfo → Op → VersionInfo
add_commit_details_to_run_item li op = record li {
  commit_time = some op.timestamp;
  commit_title = op.note;
  body_size = op.size;
  path = op.ref;
}

module _ {A : Type 0} where
  -- `xs[len(xs)-1] = f(xs[len(xs)-1])`
  unfoldable pub set_last : (A → A) → List A → Result Error (List A)
  set_last f [] = panic
  set_last f (x ∷ []) = ok (f x ∷ [])
  set_last f (x ∷ y ∷ ys) = do zs ← set_last f (y ∷ ys); ok (x ∷ zs)

  -- `xs[:len(xs)-n]`
  unfoldable pub cut_last : ℤ → List A → Result Error (List A)
  cut_last (pos n) xs = if ltb (length xs) n then panic else ok (take (length xs - n) xs)
  cut_last (negsuc n) xs = panic

  -- `for i := 1; i <= n; i++ { f(xs[len(xs)-i]) }`
  unfoldable pub each_last : (A → A) → ℤ → List A → Result Error (List A)
  each_last f (pos n) xs =
      if ltb (length xs) n
      then panic
      else ok (take (length xs - n) xs ++ map f (drop (length xs - n) xs))
  each_last f (negsuc n) xs = ok xs

  abbrev pub last_or : A → List A → A
  last_or d [] = d
  last_or d (x ∷ xs) = last_or x xs

-- The two variables of the loop of `branchToVersionInfos`.
pub record Scan : Type 0 where
  pub refs : List VersionInfo
  pub delete_at_end : ℤ

abbrev set_refs : Scan → Result Error (List VersionInfo) → Result Error Scan
set_refs s m = m >>= λ refs. ok (record s { refs = refs })

abbrev set_published : Bool → VersionInfo → VersionInfo
set_published b v = record v { published = b }

-- A commit whose run is the last item is put into that item.
unfoldable pub scan_commit_init : Ref → Op → Scan → Result Error Scan
scan_commit_init ref op s =
    let run = commit_op_run_id op in
    if not (is_empty run) && not (is_empty s.refs) && str_eq run (last_or empty_info s.refs).run_id
    then set_refs s (set_last (λ li. add_commit_details_to_run_item li op) s.refs)
    else ok (record s { refs = s.refs ++ version_info_from_op ref op ∷ [] })

unfoldable pub scan_commit : Bool → Ref → Op → Scan → Result Error Scan
scan_commit collapse_all ref op s =
    if op.op_type == op_init
    then scan_commit_init ref op s
    else if op.op_type == op_amend
    then set_refs (record s { delete_at_end = pos 0 })
        (set_last (λ _. version_info_from_op ref op) s.refs)
    else if op.op_type == op_remove
    then (if collapse_all
        then set_refs s (cut_last op.size s.refs)
        else ok (record s { delete_at_end = s.delete_at_end +ℤ op.size }))
    else ok s

unfoldable pub scan_push : Op → Scan → Result Error Scan
scan_push op s =
    if op.op_type == op_init
    then set_refs s (each_last (set_published true) op.size s.refs)
    else if op.op_type == op_remove
    then set_refs s (each_last (set_published false) op.size s.refs)
    else ok s

-- One round of the loop of `branchToVersionInfos`.
unfoldable pub scan_op : Bool → Ref → Op → Scan → Result Error Scan
scan_op collapse_all ref op s =
    if op.model == commit_model
    then scan_commit collapse_all ref op s
    else if op.model == run_model
    then ok (record s { refs = s.refs ++ run_item_from_op ref op ∷ [] })
    else if op.model == push_model
    then scan_push op s
    else ok s

unfoldable pub scan_ops : Bool → Ref → List Op → Scan → Result Error Scan
scan_ops collapse_all ref [] s = ok s
scan_ops collapse_all ref (op ∷ ops) s =
    scan_op collapse_all ref op s >>= λ s'. scan_ops collapse_all ref ops s'

-- The deletions at the tail, which are counted where not all are collapsed.
unfoldable pub drop_deleted : Scan → Result Error (List VersionInfo)
drop_deleted s =
    if ltb_ℤ (pos 0) s.delete_at_end
    then (if ltb_ℤ s.delete_at_end (pos (length s.refs))
        then cut_last s.delete_at_end s.refs
        else ok [])
    else ok s.refs

-- `refs[offset:]`, with the offset cut down to the length.
unfoldable pub skip_offset : ℤ → List VersionInfo → Result Error (List VersionInfo)
skip_offset (pos n) refs = ok (drop n refs)
skip_offset (negsuc n) refs = panic

unfoldable pub apply_limit : ℤ → List VersionInfo → Result Error (List VersionInfo)
apply_limit limit refs =
    if ltb_ℤ limit (pos (length refs)) && not (eq_ℤ limit (negsuc 0))
    then elim limit [ pos n ↦ ok (take n refs) | negsuc n ↦ panic ]
    else ok refs

-- `branchToVersionInfos`
unfoldable pub branch_to_version_infos :
    List Op → Ref → (offset limit : ℤ) → Bool → Result Error (List VersionInfo)
branch_to_version_infos ops ref offset limit collapse_all = do
  s ← scan_ops collapse_all ref ops (record { refs = []; delete_at_end = pos 0 })
  refs ← drop_deleted s
  refs' ← skip_offset offset (reverse refs)
  apply_limit limit refs'

-- `ConvertLogsToVersionInfos`
unfoldable pub convert_logs_to_version_infos : Log → Ref → Result Error (List VersionInfo)
convert_logs_to_version_infos (node h ls) ref =
    branch_to_version_infos h.ops ref (pos 0) (negsuc 0) true

-- The loop of `latestSavePath`, on the operations from the latest to the first.
unfoldable pub latest_loop : ℤ → List Op → Str
latest_loop removes [] = []
latest_loop removes (op ∷ ops) =
    let fewer = if ltb_ℤ (pos 0) removes then removes -ℤ pos 1 else removes in
    let removed = latest_loop (removes +ℤ op.size) ops in
    let saved = latest_loop fewer ops in
    let other = latest_loop removes ops in
    if op.model == commit_model
    then (if op.op_type == op_remove
        then removed
        else if op.op_type == op_init || op.op_type == op_amend
        then (if eq_ℤ fewer (pos 0) then op.ref else saved)
        else other)
    else other

unfoldable pub latest_save_path : List Op → Str
latest_save_path ops = latest_loop (pos 0) (reverse ops)

-- The switch of `addReferencedPaths`.
unfoldable pub path_op : Op → List Str → Result Error (List Str)
path_op op ps =
    if op.model == commit_model
    then (if op.op_type == op_init
        then ok (ps ++ op.ref ∷ [])
        else if op.op_type == op_remove
        then cut_last op.size ps
        else if op.op_type == op_amend
        then set_last (λ _. op.ref) ps
        else ok ps)
    else ok ps

unfoldable pub path_ops : List Op → List Str → Result Error (List Str)
path_ops [] ps = ok ps
path_ops (op ∷ ops) ps = path_op op ps >>= λ ps'. path_ops ops ps'

-- `addReferencedPaths`: the map of paths is the list of its keys, which may repeat one.
unfoldable mutual
  pub add_referenced_paths : Log → List Str → Result Error (List Str)
  add_referenced_paths (node h ls) paths =
      path_ops h.ops [] >>= λ ps. add_referenced_children ls (paths ++ ps)

  pub add_referenced_children : Logs → List Str → Result Error (List Str)
  add_referenced_children nil paths = ok paths
  add_referenced_children (cons l ls) paths =
      add_referenced_paths l paths >>= λ paths'. add_referenced_children ls paths'

-- The loop of `LogEntries`: `listed` is `len(res)`. A limit that is never met lists all.
unfoldable pub log_entries : Str → (offset limit : ℤ) → ℕ → List Op → Result Error (List LogEntry)
log_entries author offset limit listed [] = ok []
log_entries author offset limit listed (op ∷ ops) =
    let skipped = log_entries author (offset -ℤ pos 1) limit listed ops in
    let rest = log_entries author offset limit (listed + 1) ops in
    if ltb_ℤ (pos 0) offset
    then skipped
    else log_entry_from_op author op >>= λ entry.
        if eq_ℤ (pos (listed + 1)) limit
        then ok (entry ∷ [])
        else rest >>= λ entries. ok (entry ∷ entries)
