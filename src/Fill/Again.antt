-- ===== src/Fill/Again.antt =====
-- base/fill/path_value.go: a place that a value was put to is found again.
use qri.Base.{
  ℕ, zero, suc, ◌≡◌, refl, ap, List, [], ◌∷◌, Bool, true, Str, Result, ok, err, panic, Option, none,
  some,
}
use qri.Base.Int.{ℤ}
use qri.Fill.Types.{
  GoType, FieldTypes, Val, Value, Values, any_type, time_type, map_type, slice_type, ptr_type,
  struct_type, binary, dynamic, nothing, sequence, pointer, structure, nil, cons, count, zero_value,
}
use qri.Fill.Walk.{
  PathError, Found, stop, within, nth, replace, in_range, or_stop, field_at, element_at, through,
  get_field, slice_step, path_step, find_target_at_path,
}
use qri.Fill.Plain.{is_scalar, not-Plain, byte-Plain, find_in_val-Plain, map_step-Plain}

-- The place of `r`, now with the value `w`.
abbrev pub Same : Found → Found → Value → Type 0
Same now r w = (now.target ≡ r.target) × (now.place ≡ w) × (now.field ≡ r.field)

abbrev pub Again : (GoType → Value → Found) → Type 0
Again find =
    (t : GoType) (v : Value) (s : Str)
    → is_scalar (find t v).target ≡ true
    → (find t v).field ≡ ok s
    → (w : Value) → Same (find t ((find t v).back w)) (find t v) w

nth-replace :
    (n : ℕ) (vs : Values) (v w : Value) → nth n vs ≡ some v → nth n (replace n w vs) ≡ some w
nth-replace n nil v w h = cc
nth-replace zero (cons u vs) v w h = refl
nth-replace (suc n) (cons u vs) v w h = nth-replace n vs v w h

count-replace : (n : ℕ) (w : Value) (vs : Values) → count (replace n w vs) ≡ count vs
count-replace n w nil = refl
count-replace zero w (cons u vs) = refl
count-replace (suc n) w (cons u vs) = ap suc (count-replace n w vs)

pub through-Again : (next : GoType → Value → Found) → Again next → Again (through next)
unfolding through
through-Again next h (ptr_type t) nothing s p f w = through-Again next h t (zero_value t) s p f w
through-Again next h (ptr_type t) (pointer v) s p f w = through-Again next h t v s p f w
through-Again next h (ptr_type t) v s p f w = cc
through-Again next h t v s p f w = h t v s p f w

-- A part of a structure or a slice: the whole with another part.
abbrev part_at :
    (GoType → Value → Found) → GoType → ℕ → (Values → Value) → Found → Values → Option Value → Found
part_at next t i whole f vs = or_stop f (λ v. within (λ w. whole (replace i w vs)) (next t v))

part-Again :
    (next : GoType → Value → Found)
    → Again next
    → (t : GoType) (i : ℕ) (whole : Values → Value) (u : GoType) (x : Value) (vs : Values)
      (o : Option Value)
    → nth i vs ≡ o
    → (s : Str) → is_scalar (part_at next t i whole (stop u x panic) vs o).target ≡ true
    → (part_at next t i whole (stop u x panic) vs o).field ≡ ok s
    → (w : Value)
    → (us : Values) × ((part_at next t i whole (stop u x panic) vs o).back w ≡ whole us)
      × (count us ≡ count vs)
      × ((f : Found)
          → Same
              (part_at next t i whole f us (nth i us))
              (part_at next t i whole (stop u x panic) vs o)
              w)
part-Again next h t i whole u x vs none e s p q w = cc
part-Again next h t i whole u x vs (some v) e s p q w = (
  replace i ((next t v).back w) vs,
  refl,
  count-replace i _ vs,
  λ f. rw (nth-replace i vs v ((next t v).back w) e) (h t v s p q w),
)

module _ (to_lower : Str → Str) (parse_int : (bits : ℕ) → Str → Option ℤ) where
  module _ (next : GoType → Value → Found) (h : Again next) (s : Str) (rest : List Str) where
    element-Again :
        (t : GoType) (vs : Values) (i : Result PathError ℕ) (f : Str)
        → is_scalar (element_at next t vs i).target ≡ true
        → (element_at next t vs i).field ≡ ok f
        → (w : Value)
        → (us : Values) × ((element_at next t vs i).back w ≡ sequence us)
          × (count us ≡ count vs)
          × Same (element_at next t us i) (element_at next t vs i) w
    element-Again t vs (err e) f p q w = cc
    element-Again t vs panic f p q w = cc
    element-Again t vs (ok i) f p q w =
        let (us, b, n, same) =
          part-Again next h t i sequence (slice_type t) (sequence vs) vs (nth i vs) refl f p q w in
        (us, b, n, same _)

    field-Again :
        (sets : Bool) (fs : FieldTypes) (vs : Values) (extra : List (Str × Val))
        (choice : Option (ℕ × GoType)) (f : Str)
        → is_scalar (field_at next fs sets vs extra choice).target ≡ true
        → (field_at next fs sets vs extra choice).field ≡ ok f
        → (w : Value)
        → (us : Values) × ((field_at next fs sets vs extra choice).back w ≡ structure us extra)
          × Same (field_at next fs sets us extra choice) (field_at next fs sets vs extra choice) w
    field-Again sets fs vs extra none f p q w = cc
    field-Again sets fs vs extra (some (i, t)) f p q w =
        let (us, b, n, same) =
          part-Again next h t i (λ us. structure us extra) (struct_type sets fs)
            (structure vs extra) vs (nth i vs) refl f p q w in
        (us, b, same _)

    -- A nil slice has no element.
    no-element :
        (t : GoType) (i : Result PathError ℕ) (f : Str) → (element_at next t nil i).field ≡ ok f → ⊥
    no-element t (ok i) f q = cc
    no-element t (err e) f q = cc
    no-element t panic f q = cc

    slice-Again :
        (t : GoType) (v : Value) (f : Str)
        → is_scalar (slice_step to_lower parse_int next s rest t v).target ≡ true
        → (slice_step to_lower parse_int next s rest t v).field ≡ ok f
        → (w : Value)
        → Same
            (slice_step to_lower parse_int next s rest t
              ((slice_step to_lower parse_int next s rest t v).back w))
            (slice_step to_lower parse_int next s rest t v)
            w
    slice-Again t nothing f p q w = absurd (no-element t (in_range 0 s (parse_int 32 s)) f q)
    slice-Again t (binary b) f p q w = absurd (not-Plain (byte-Plain rest (binary b) b _) p f q)
    slice-Again t (sequence vs) f p q w =
        let (us, b, n, same) =
          element-Again t vs (in_range (count vs) s (parse_int 32 s)) f p q w in
        rw (b, n) same
    slice-Again t v f p q w = cc

  step-Again :
      (s : Str) (rest : List Str)
      → Again (find_target_at_path to_lower parse_int rest)
      → Again (path_step to_lower parse_int s rest (find_target_at_path to_lower parse_int rest))
  unfolding path_step
  step-Again s rest h (struct_type sets fs) (structure vs extra) f p q w =
      let (us, b, same) =
        field-Again (find_target_at_path to_lower parse_int rest) h s rest sets fs vs extra
          (get_field to_lower s fs) f p q w in
      rw b same
  step-Again s rest h (struct_type sets fs) v f p q w = cc
  step-Again s rest h any_type (dynamic v) f p q w =
      absurd (not-Plain (find_in_val-Plain to_lower parse_int (s ∷ rest) v) p f q)
  step-Again s rest h any_type v f p q w = cc
  step-Again s rest h (map_type t) v f p q w =
      absurd (not-Plain (map_step-Plain to_lower parse_int s rest t v) p f q)
  step-Again s rest h (slice_type t) v f p q w =
      slice-Again (find_target_at_path to_lower parse_int rest) h s rest t v f p q w
  step-Again s rest h time_type v f p q w = cc
  step-Again s rest h t v f p q w = cc

  -- A place that a value is assigned to is found again, with the value.
  pub find_target-Again : (steps : List Str) → Again (find_target_at_path to_lower parse_int steps)
  unfolding find_target_at_path
  find_target-Again [] t v s p q w = (refl, refl, refl)
  find_target-Again (s ∷ rest) t v f p q w =
      through-Again
        (path_step to_lower parse_int s rest (find_target_at_path to_lower parse_int rest))
        (step-Again s rest (find_target-Again rest)) t v f p q w
