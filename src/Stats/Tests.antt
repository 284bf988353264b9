-- ===== src/Stats/Tests.antt =====
-- Runs of the purge on small data.
use qri.Base.{ℕ, ◌≡◌, refl, List, [], ◌∷◌, Bool, true, Str, str, some}
use qri.Base.Reorder.{Reordered-refl}
use qri.Base.Int.{pos}
use qri.Stats.Cache.{
  Props, CacheInfo, add_and_purge_expired, purge, add_props, lowest, drop_file, cache_size, int64,
}
use qri.Stats.Bound.{Purged, add_and_purge_settles}

abbrev props : ℕ → ℕ → Props
props size mtime = record { size = pos size; mtime = pos mtime }

abbrev in_order : List (Str × Props) → List (Str × Props)
in_order m = m

abbrev always_removed : Str → Bool
always_removed k = true

abbrev two_files : CacheInfo
two_files = record {
  stat_file_props = (str "old", props 10 1) ∷ (str "recent", props 10 2) ∷ [];
  target_file_props = [];
}

-- The file that was visited last goes, though it is not the oldest.
drops_recent :
    (add_and_purge_expired in_order always_removed
      (pos 20)
      (str "new")
      (props 10 3)
      (props 0 0)
      two_files).info.stat_file_props
    ≡ (str "old", props 10 1) ∷ (str "new", props 10 3) ∷ []
unfolding add_and_purge_expired purge add_props lowest drop_file cache_size int64
drops_recent = refl

add_and_purge_settles_example :
    Purged in_order always_removed (pos 20) (str "new") (some (props 10 3)) (
      add_and_purge_expired in_order always_removed
        (pos 20)
        (str "new")
        (props 10 3)
        (props 0 0)
        two_files)
add_and_purge_settles_example =
    add_and_purge_settles in_order always_removed (pos 20) Reordered-refl (str "new") (props 10 3)
      (props 0 0) two_files refl (refl, (refl, tt))
