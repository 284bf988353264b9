-- ===== src/Stats/Cache.antt =====
-- What the local cache knows of its files, and the loop that removes files until they fit. Parameters
-- stand for the order in which Go visits a map and for the removal of a file.
use qri.Base.{
  ℕ, zero, List, [], ◌∷◌, Bool, not, ◌&&◌, Str, str_eq, ◌-◌, length, is_empty, ltb, if◌then◌else◌,
  suc,
}
use Prim.Native.Nat.{◌%◌}
use qri.Base.Assoc.{insert, delete}
use qri.Base.Int.{ℤ, pos, negsuc, ◌+ℤ◌, ltb_ℤ}

-- `didmod.Props`; the time is `Mtime.Unix()`.
pub record Props : Type 0 where
  pub size : ℤ
  pub mtime : ℤ

pub record CacheInfo : Type 0 where
  pub stat_file_props : List (Str × Props)
  pub target_file_props : List (Str × Props)

unfoldable pub new_cache_info : CacheInfo
new_cache_info = record { stat_file_props = []; target_file_props = [] }

-- The value that an `int64` keeps of a sum.
unfoldable pub int64 : ℤ → ℤ
int64 (pos n) =
    let low = n % 18446744073709551616 in
    if ltb low 9223372036854775808 then pos low else negsuc (18446744073709551615 - low)
int64 (negsuc n) =
    let low = n % 18446744073709551616 in
    if ltb low 9223372036854775808 then negsuc low else pos (18446744073709551615 - low)

unfoldable pub cache_size : List (Str × Props) → ℤ
cache_size [] = pos 0
cache_size ((k, p) ∷ m) = int64 (p.size +ℤ cache_size m)

abbrev pub max_int64 : ℤ
max_int64 = pos 9223372036854775807

abbrev pub may_drop : Str → Str → Props → Bool
may_drop cache_key k p = ltb_ℤ p.mtime max_int64 && not (str_eq k cache_key)

-- The inner loop: `lowestModTime` is only set before it, so the last key that may be dropped stays.
unfoldable pub lowest : Str → Str → List (Str × Props) → Str
lowest cache_key found [] = found
lowest cache_key found ((k, p) ∷ m) =
    lowest cache_key (if may_drop cache_key k p then k else found) m

-- Why the outer loop ends.
pub data Ending : Type 0 where
  fits nothing_left not_removed out_of_fuel : Ending

pub record Purge : Type 0 where
  pub info : CacheInfo
  pub ending : Ending

module _ (visit : List (Str × Props) → List (Str × Props)) (removes : Str → Bool)
    (max_size : ℤ) where
  unfoldable pub drop_file : Str → CacheInfo → CacheInfo
  drop_file k info = record {
    stat_file_props = delete k info.stat_file_props;
    target_file_props = delete k info.target_file_props;
  }

  -- The outer loop, with fuel.
  unfoldable pub purge : ℕ → Str → CacheInfo → Purge
  purge zero cache_key info = record { info = info; ending = out_of_fuel }
  purge (suc f) cache_key info =
      let k = lowest cache_key [] (visit info.stat_file_props) in
      let later = purge f cache_key (drop_file k info) in
      if not (ltb_ℤ max_size (cache_size info.stat_file_props))
      then record { info = info; ending = fits }
      else if is_empty k
      then record { info = info; ending = nothing_left }
      else if not (removes k)
      then record { info = info; ending = not_removed }
      else later

  -- The two assignments before the loop.
  unfoldable pub add_props : Str → Props → Props → CacheInfo → CacheInfo
  add_props cache_key stat_props target_props info = record {
    stat_file_props = insert cache_key stat_props info.stat_file_props;
    target_file_props = insert cache_key target_props info.target_file_props;
  }

  unfoldable pub add_and_purge_expired : Str → Props → Props → CacheInfo → Purge
  add_and_purge_expired cache_key stat_props target_props info =
      let added = add_props cache_key stat_props target_props info in
      purge (suc (length added.stat_file_props)) cache_key added
