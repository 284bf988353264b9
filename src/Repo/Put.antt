-- ===== src/Repo/Put.antt =====
-- A reference that was put into the store is the one that it gives back.
use qri.Base.{
  ◌≡◌, refl, ◌⊎◌, inl, inr, List, [], ◌∷◌, ◌++◌, Bool, true, false, str_eq_refl, ok, ◌>>=◌, arith,
  Bool-cases, none, some, All,
}
use qri.Base.{Some}
use qri.Base.Reorder.{Reordered, All-Reordered, Some-Reordered}
use qri.Repo.Ref.{DatasetRef, ref_match}
use qri.Repo.Refstore.{check_complete, replace_ref, get_ref, place, put_ref}

module _ {D : Type 0} where
  ref_match_refl : (r : DatasetRef D) → ref_match r r ≡ true
  unfolding ref_match
  ref_match_refl r = ground (arith, str_eq_refl r.profile_id, str_eq_refl r.name)

  -- The reference matches nothing but itself.
  abbrev Alone : DatasetRef D → DatasetRef D → Type 0
  Alone put r = (ref_match r put ≡ false) ⊎ (r ≡ put)

  get_ref_only :
      (put : DatasetRef D) (rs : List (DatasetRef D))
      → All (Alone put) rs
      → Some (λ r. r ≡ put) rs
      → get_ref put rs ≡ ok put
  unfolding get_ref
  get_ref_only put [] w s = absurd s
  get_ref_only put (r ∷ rs) w (inl e) = rw (e, ref_match_refl put) refl
  get_ref_only put (r ∷ rs) w (inr s) = elim w.0 [
    | inl n ↦ rw n (get_ref_only put rs w.1 s)
    | inr e ↦ rw (e, ref_match_refl put) refl
  ]

  -- The store with the reference in it, or no reference of the store matches.
  replace_ref_lem :
      (put : DatasetRef D) (rs : List (DatasetRef D))
      → ((us : List (DatasetRef D)) × (replace_ref put rs ≡ some us) × (get_ref put us ≡ ok put))
        ⊎ ((replace_ref put rs ≡ none) × All (λ r. ref_match r put ≡ false) rs)
  unfolding replace_ref get_ref
  replace_ref_lem put [] = inr (refl, tt)
  replace_ref_lem put (r ∷ rs) = elim (Bool-cases (ref_match r put)) [
    | inl m ↦ inl (put ∷ rs, rw m refl, rw (ref_match_refl put) refl)
    | inr n ↦ elim (replace_ref_lem put rs) [
      | inl (us, e, g) ↦ inl (r ∷ us, rw (n, e) refl, rw n g)
      | inr (e, w) ↦ inr (rw (n, e) refl, (n, w))
    ]
  ]

  Alone-append :
      (put : DatasetRef D) (rs : List (DatasetRef D))
      → All (λ r. ref_match r put ≡ false) rs
      → All (Alone put) (rs ++ put ∷ [])
  Alone-append put [] w = (inr refl, tt)
  Alone-append put (r ∷ rs) w = (inl w.0, Alone-append put rs w.1)

  Some-append :
      (put : DatasetRef D) (rs : List (DatasetRef D)) → Some (λ r. r ≡ put) (rs ++ put ∷ [])
  Some-append put [] = inl refl
  Some-append put (r ∷ rs) = inr (Some-append put rs)

  module _
      (sort_slice : (DatasetRef D → DatasetRef D → Bool)
        → List (DatasetRef D)
        → List (DatasetRef D)) where
    get_ref-place :
        (put : DatasetRef D) (rs : List (DatasetRef D))
        → ((less : DatasetRef D → DatasetRef D → Bool) (us : List (DatasetRef D))
            → Reordered (sort_slice less us) us)
        → get_ref put (place sort_slice put rs (replace_ref put rs)) ≡ ok put
    unfolding place
    get_ref-place put rs sorts = elim (replace_ref_lem put rs) [
      | inl (us, e, g) ↦ rw e g
      | inr (e, w) ↦ rw e (
          get_ref_only put _ (All-Reordered _ (sorts _ _) (Alone-append put rs w))
            (Some-Reordered _ (sorts _ _) (Some-append put rs)))
    ]

    -- If sorting only reorders, a reference that `PutRef` accepts is the one that `GetRef` finds for it
    -- in the new store, whatever the store held before.
    pub get_ref-put_ref :
        ((less : DatasetRef D → DatasetRef D → Bool) (us : List (DatasetRef D))
          → Reordered (sort_slice less us) us)
        → (put : DatasetRef D) (rs : List (DatasetRef D)) → check_complete put ≡ ok tt
        → (put_ref sort_slice put rs >>= get_ref put) ≡ ok put
    unfolding put_ref
    get_ref-put_ref sorts put rs c = rw c (get_ref-place put rs sorts)
