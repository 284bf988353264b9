-- ===== src/Logbook/History/Tests.antt =====
-- The theorems on histories at concrete histories.
use mathlib.Core.Path.{◌≡◌, refl}
use mathlib.Core.Logic.{◌≢◌}
use qri.Base.{List, [], ◌∷◌, true, Str, str, ok, ◌>>=◌, take, drop, map, reverse, arith, some}
use qri.Base.Int.{pos, negsuc}
use qri.Oplog.Op.{Op, op_init, op_remove, empty_op}
use qri.Dsref.Ref.{VersionInfo, empty_ref, empty_info}
use qri.Logbook.Model.{commit_model, run_model}
use qri.Logbook.History.{
  branch_to_version_infos, path_ops, path_op, latest_save_path, scan_ops, scan_op, scan_commit,
  scan_commit_init, commit_op_run_id, run_id_in, version_info_from_op, drop_deleted, skip_offset,
  apply_limit,
}
use qri.Logbook.History.Latest.{latest_save_path-deleted, NoRemove}
use qri.Logbook.History.Paging.{branch_to_version_infos-page}
use qri.Logbook.History.Replay.{paths-branch_to_version_infos, path_of}

abbrev saved : Str → Op
saved path = record empty_op { op_type = op_init; model = commit_model; ref = path }

abbrev deleted : Op
deleted = record empty_op { op_type = op_remove; model = commit_model; size = pos 1 }

-- Two versions are saved, and the second is deleted: its path is still the latest.
latest_save_path-deleted_example :
    (path_ops (saved (str "/ipfs/A") ∷ saved (str "/ipfs/B") ∷ deleted ∷ []) []
      ≡ path_ops (saved (str "/ipfs/A") ∷ []) [])
    × (latest_save_path (saved (str "/ipfs/A") ∷ saved (str "/ipfs/B") ∷ deleted ∷ [])
        ≡ str "/ipfs/B")
latest_save_path-deleted_example =
    latest_save_path-deleted (saved (str "/ipfs/A") ∷ []) (saved (str "/ipfs/B")) [] deleted
      (refl, refl) tt (refl, refl) refl

abbrev two_saves : List Op
two_saves = saved (str "/ipfs/A") ∷ saved (str "/ipfs/B") ∷ []

saved-NoRemove : (path : Str) → NoRemove (saved path)
saved-NoRemove path m = ground arith

two_saves-paths : path_ops two_saves [] ≡ ok (str "/ipfs/A" ∷ str "/ipfs/B" ∷ [])
unfolding path_ops path_op
two_saves-paths = refl

branch_to_version_infos-page_example :
    branch_to_version_infos two_saves empty_ref (pos 1) (pos 1) true ≡ (
      branch_to_version_infos two_saves empty_ref (pos 0) (negsuc 0) true >>= λ xs.
      ok (take 1 (drop 1 xs)))
branch_to_version_infos-page_example = branch_to_version_infos-page two_saves empty_ref true 1 1

abbrev listed_saves : List VersionInfo
listed_saves =
    record empty_info { path = str "/ipfs/B"; commit_time = some (pos 0) }
    ∷ record empty_info { path = str "/ipfs/A"; commit_time = some (pos 0) }
    ∷ []

two_saves-listed :
    branch_to_version_infos two_saves empty_ref (pos 0) (negsuc 0) true ≡ ok listed_saves
unfolding branch_to_version_infos scan_ops scan_op scan_commit scan_commit_init commit_op_run_id
    run_id_in version_info_from_op drop_deleted skip_offset apply_limit
two_saves-listed = refl

paths-branch_to_version_infos_example :
    path_ops two_saves [] ≡ ok (reverse (map path_of listed_saves))
paths-branch_to_version_infos_example =
    paths-branch_to_version_infos two_saves empty_ref (not_run, (not_run, tt)) two_saves-listed
  where
    not_run : commit_model ≢ run_model
    not_run e = ground arith
