-- ===== src/Logbook/History/Paging.antt =====
-- `offset` and `limit` of `branchToVersionInfos`.
use qri.Base.{
  ℕ, zero, ◌≡◌, refl, inl, inr, List, [], ◌∷◌, Bool, take, drop, Result, ok, ◌>>=◌, length, ltb,
  arith, suc, ◌≤◌, Bool-cases, bind_assoc, ap, reverse,
}
use qri.Base.Int.{pos, negsuc}
use qri.Oplog.Op.{Op}
use qri.Dsref.Ref.{Ref, VersionInfo}
use qri.Logbook.Model.{Error}
use qri.Logbook.History.{scan_ops, drop_deleted, skip_offset, apply_limit, branch_to_version_infos}

take_all : (n : ℕ) (xs : List VersionInfo) → length xs ≤ n → take n xs ≡ xs
take_all zero [] h = refl
take_all (suc n) [] h = refl
take_all zero (x ∷ xs) h = absurd (omega arith)
take_all (suc n) (x ∷ xs) h = ap (λ t. x ∷ t) (take_all n xs (omega arith))

apply_limit_lem : (l : ℕ) (xs : List VersionInfo) → apply_limit (pos l) xs ≡ ok (take l xs)
unfolding apply_limit
apply_limit_lem l xs = elim (Bool-cases (ltb l (length xs))) [
  | inl t ↦ ground arith
  | inr f ↦ ground (arith, take_all l xs (ground arith))
]

apply_limit_none : (xs : List VersionInfo) → apply_limit (negsuc 0) xs ≡ ok xs
unfolding apply_limit
apply_limit_none xs = ground arith

-- The versions of a scan, latest first.
abbrev pub newest_first : Bool → Ref → List Op → Result Error (List VersionInfo)
newest_first c ref ops = do
  s ← scan_ops c ref ops (record { refs = []; delete_at_end = pos 0 })
  refs ← drop_deleted s
  ok (reverse refs)

module _ (ops : List Op) (ref : Ref) (c : Bool) where
  infos-page :
      (offset limit : ℕ)
      → branch_to_version_infos ops ref (pos offset) (pos limit) c
        ≡ (newest_first c ref ops >>= λ xs. ok (take limit (drop offset xs)))
  unfolding branch_to_version_infos skip_offset
  infos-page offset limit = simp (apply_limit_lem, bind_assoc)

  pub infos-all : branch_to_version_infos ops ref (pos 0) (negsuc 0) c ≡ newest_first c ref ops
  unfolding branch_to_version_infos skip_offset
  infos-all = simp apply_limit_none

  -- A page of a history is that part of the whole listing, and a listing that fails fails on
  -- every page.
  pub branch_to_version_infos-page :
      (offset limit : ℕ)
      → branch_to_version_infos ops ref (pos offset) (pos limit) c ≡ (
          branch_to_version_infos ops ref (pos 0) (negsuc 0) c >>= λ xs.
          ok (take limit (drop offset xs)))
  branch_to_version_infos-page offset limit = rw infos-all (infos-page offset limit)
