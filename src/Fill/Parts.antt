-- ===== src/Fill/Parts.antt =====
-- base/fill/struct.go: slices, arrays, pointers and fields keep their types if their parts do.
use qri.Base.{
  ℕ, suc, ◌+◌, ◌≡◌, refl, inl, inr, List, ◌∷◌, Bool, true, false, ◌&&◌, ◌||◌, ◌==◌, Str, Option,
  none, some, Bool-cases, arith, ap, subst,
}
use qri.Base.Decimal.{itoa}
use qri.Fill.Types.{
  GoType, FieldTypes, Val, Items, Value, Values, slice_type, ptr_type, array_type, null, list,
  no_items, item, size, count, HasType, AllHave, FieldsHave, of_slice, of_array, of_ptr, all_nil,
  all_cons,
}
use qri.Fill.Errors.{ErrorCollector, push_field, pop_field}
use qri.Fill.Put.{
  Putting, Filled, cons_filled, as_sequence, fill_slice, fill_array, put_slice, put_array,
  as_pointer, put_ptr, put_field,
}
use qri.Fill.Fits.{is_null, all_items, fits_slice, fits_array, fits_field, Settled, Typed, Takes}

abbrev pub FieldTyped : GoType → Value × List Str × ErrorCollector → Type 0
FieldTyped t r = HasType t r.0

abbrev pub FieldsTyped : FieldTypes → Values × List Str × ErrorCollector → Type 0
FieldsTyped fs r = FieldsHave fs r.0

pub used_from :
    (t : GoType) (key : Str) (used : List Str) (b : Bool) (r : Option (Value × ErrorCollector))
    → Settled b (Typed t) r
    → Settled b
        (FieldTyped t)
        (elim r [ none ↦ none | some (place, c) ↦ some (place, key ∷ used, pop_field c) ])
used_from t key used true (some (v, c)) s = s
used_from t key used true none s = s
used_from t key used false (some r) s = s
used_from t key used false none s = s

-- The elements of a slice and of an array.
module _ (t : GoType) (p : Val → Bool) (put : Putting) (takes : Takes t p put) (fresh : Value)
    (fresh-HasType : HasType t fresh) where
  -- An array fills all its elements.
  abbrev Full : ℕ → Values × ErrorCollector → Type 0
  Full n r = AllHave t r.0 × (count r.0 ≡ n)

  pub cons_filled-Settled :
      (b : Bool) (v : Value) (n : ℕ) (r : Filled)
      → HasType t v
      → Settled b (Full n) r
      → Settled b (Full (suc n)) (cons_filled v r)
  cons_filled-Settled true v n (some (vs, c)) h (all, e) = (all_cons v vs h all, ap suc e)
  cons_filled-Settled true v n none h s = s
  cons_filled-Settled false v n (some (vs, c)) h s = s
  cons_filled-Settled false v n none h s = s

  -- One element, and then the others.
  next_filled :
      (b rest : Bool) (n : ℕ) (r : Option (Value × ErrorCollector))
      (next : Value → ErrorCollector → Filled)
      → Settled b (Typed t) r
      → ((v : Value) (c : ErrorCollector) → Settled rest (Full n) (next v c))
      → Settled
          (b && rest)
          (Full (suc n))
          (elim r [ none ↦ none | some (v, c) ↦ cons_filled v (next v c) ])
  next_filled true rest n none next h k = absurd h
  next_filled true rest n (some (v, c)) next h k = cons_filled-Settled rest v n (next v c) h (k v c)
  next_filled false rest n none next h k = tt
  next_filled false rest n (some (v, c)) next h k = absurd h

  pub fill_slice-Settled :
      (i : ℕ) (vs : Items) (c : ErrorCollector)
      → Settled (all_items p vs) (Full (size vs)) (fill_slice put fresh i vs c)
  unfolding fill_slice
  fill_slice-Settled i no_items c = (all_nil, refl)
  fill_slice-Settled i (item v vs) c =
      next_filled (p v) (all_items p vs) (size vs) (put v fresh (push_field (itoa i) c))
        (λ elem c'. fill_slice put fresh (i + 1) vs (pop_field c')) (takes v fresh _ fresh-HasType)
        (λ elem c'. fill_slice-Settled (i + 1) vs (pop_field c'))

  pub fill_array-Settled :
      (vs : Items) (c : ErrorCollector)
      → Settled (all_items p vs) (Full (size vs)) (fill_array put fresh vs c)
  unfolding fill_array
  fill_array-Settled no_items c = (all_nil, refl)
  fill_array-Settled (item v vs) c =
      next_filled (p v) (all_items p vs) (size vs) (put v fresh c)
        (λ elem c'. fill_array put fresh vs c') (takes v fresh _ fresh-HasType)
        (λ elem c'. fill_array-Settled vs c')

  slice_from :
      (b : Bool) (n : ℕ) (r : Filled)
      → Settled b (Full n) r
      → Settled b (Typed (slice_type t)) (as_sequence r)
  slice_from true n (some (vs, c)) (all, e) = of_slice vs all
  slice_from true n none s = s
  slice_from false n (some r) s = s
  slice_from false n none s = s

  array_from :
      (b : Bool) (n : ℕ) (r : Filled)
      → Settled b (Full n) r
      → Settled b (Typed (array_type n t)) (as_sequence r)
  array_from true n (some (vs, c)) (all, e) = of_array vs all e
  array_from true n none s = s
  array_from false n (some r) s = s
  array_from false n none s = s

  pub take_slice : Takes (slice_type t) (fits_slice p) (put_slice put fresh)
  unfolding put_slice
  take_slice null place c h = h
  take_slice (list vs) place c h =
      slice_from (all_items p vs) (size vs) (fill_slice put fresh 0 vs c)
        (fill_slice-Settled 0 vs c)
  take_slice v place c h = h

  pub take_array : (n : ℕ) → Takes (array_type n t) (fits_array n p) (put_array n put fresh)
  unfolding put_array
  take_array n null place c h = h
  take_array n (list vs) place c h = elim (Bool-cases (size vs == n)) [
    | inl e ↦ rw e (
        subst
          (λ k.
            Settled (all_items p vs) (Typed (array_type k t))
              (as_sequence (fill_array put fresh vs c)))
          (ground arith)
          (array_from (all_items p vs) (size vs) (fill_array put fresh vs c)
            (fill_array-Settled vs c)))
    | inr d ↦ rw d h
  ]
  take_array n v place c h = h

  pointer_from :
      (b : Bool) (r : Option (Value × ErrorCollector))
      → Settled b (Typed t) r
      → Settled b (Typed (ptr_type t)) (as_pointer r)
  pointer_from true (some (v, c)) s = of_ptr v s
  pointer_from true none s = s
  pointer_from false (some r) s = s
  pointer_from false none s = s

  pub take_ptr : Takes (ptr_type t) (λ v. is_null v || p v) (put_ptr put fresh)
  unfolding put_ptr
  take_ptr null place c h = h
  take_ptr v place c h = pointer_from (p v) (put v fresh c) (takes v fresh c fresh-HasType)

  -- A field keeps its type.
  pub take_field :
      (name key : Str) (m : Option Val) (place : Value) (used : List Str) (c : ErrorCollector)
      → HasType t place
      → Settled (fits_field p m) (FieldTyped t) (put_field put name key m place used c)
  unfolding put_field
  take_field name key none place used c h = h
  take_field name key (some null) place used c h = h
  take_field name key (some v) place used c h =
      used_from t key used (p v) (put v place (push_field name c)) (takes v place _ h)
