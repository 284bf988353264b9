-- ===== src/Repo/Refstore.antt =====
-- repo/mem_refstore.go. The store is a list of references; `sort.Slice` is a parameter. Offsets and
-- limits are not negative.
use qri.Base.{
  ℕ, List, [], ◌∷◌, ◌++◌, Bool, ◌&&◌, ◌-◌, Result, ok, err, panic, ◌>>=◌, ◌>>◌, reject, length,
  is_empty, ltb, ◌==◌, if◌then◌else◌, ◌+◌, Option, none, some,
}
use qri.Base.{str_less}
use qri.Repo.Ref.{DatasetRef, ref_match}

pub data RefError : Type 0 where
  peer_id_required peername_required name_required path_required ref_not_found : RefError

module _ {D : Type 0} where
  unfoldable pub check_complete : DatasetRef D → Result RefError (Unit {0})
  check_complete put =
      if is_empty put.profile_id
      then err peer_id_required
      else if is_empty put.peername
      then err peername_required
      else if is_empty put.name
      then err name_required
      else reject (is_empty put.path && is_empty put.fsi_path) path_required

  -- The loop of `PutRef`: the store with the first reference that matches replaced.
  unfoldable pub replace_ref : DatasetRef D → List (DatasetRef D) → Option (List (DatasetRef D))
  replace_ref put [] = none
  replace_ref put (r ∷ rs) =
      let later = replace_ref put rs in
      if ref_match r put
      then some (put ∷ rs)
      else elim later [ none ↦ none | some us ↦ some (r ∷ us) ]

  unfoldable pub get_ref : DatasetRef D → List (DatasetRef D) → Result RefError (DatasetRef D)
  get_ref get [] = err ref_not_found
  get_ref get (r ∷ rs) = let later = get_ref get rs in if ref_match r get then ok r else later

  unfoldable pub delete_ref :
      DatasetRef D → List (DatasetRef D) → Result RefError (List (DatasetRef D))
  delete_ref del [] = err ref_not_found
  delete_ref del (r ∷ rs) =
      let later = delete_ref del rs in
      if ref_match r del then ok rs else (later >>= λ us. ok (r ∷ us))

  -- The loop of `References` at index `i`: `res` is the part of the result that is set.
  unfoldable pub references_from :
      ℕ → ℕ → ℕ → List (DatasetRef D) → List (DatasetRef D) → Result RefError (List (DatasetRef D))
  references_from offset limit i res [] = if ltb i offset then panic else ok res
  references_from offset limit i res (r ∷ rs) =
      let skip = references_from offset limit (i + 1) res rs in
      let more = references_from offset limit (i + 1) (res ++ r ∷ []) rs in
      if ltb i offset then skip else if i - offset == limit then ok res else more

  unfoldable pub refs_page : ℕ → ℕ → List (DatasetRef D) → Result RefError (List (DatasetRef D))
  refs_page offset limit rs = references_from offset limit 0 [] rs

  unfoldable pub ref_count : List (DatasetRef D) → ℕ
  ref_count = length

  module _
      (sort_slice : (DatasetRef D → DatasetRef D → Bool)
        → List (DatasetRef D)
        → List (DatasetRef D)) where
    abbrev pub by_alias : DatasetRef D → DatasetRef D → Bool
    by_alias l r = str_less (l.peername ++ l.name) (r.peername ++ r.name)

    unfoldable pub place :
        DatasetRef D → List (DatasetRef D) → Option (List (DatasetRef D)) → List (DatasetRef D)
    place put rs none = sort_slice by_alias (rs ++ put ∷ [])
    place put rs (some us) = us

    -- `PutRef`
    unfoldable pub put_ref :
        DatasetRef D → List (DatasetRef D) → Result RefError (List (DatasetRef D))
    put_ref put rs = check_complete put >> ok (place put rs (replace_ref put rs))
