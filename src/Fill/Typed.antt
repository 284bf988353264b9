-- ===== src/Fill/Typed.antt =====
-- base/fill/struct.go: filling a structure keeps its type.
use qri.Base.{
  ℕ, zero, suc, ◌≡◌, refl, List, [], Bool, true, false, ◌&&◌, ◌||◌, Str, Option, none, some,
  if◌then◌else◌, ap,
}
use qri.Base.Assoc.{lookup}
use qri.Fill.Types.{
  GoType, FieldTypes, Val, Value, Values, bool_type, int_type, int64_type, uint64_type,
  float64_type, string_type, any_type, time_type, byte_type, other_type, map_type, slice_type,
  ptr_type, array_type, struct_type, no_fields, field, null, count, repeat, zero_value, zero_fields,
  HasType, AllHave, FieldsHave, of_bool, of_int, of_int64, of_uint64, of_float64, of_string, of_any,
  of_time, of_byte, of_other, nil_map, nil_slice, nil_ptr, of_array, of_struct, all_nil, all_cons,
  have_nil, have_cons,
}
use qri.Fill.Errors.{ErrorCollector, add_error, not_string_map, new_error_collector}
use qri.Fill.Put.{
  Go, is_byte, of_unit, Putting, put_slice, put_field, FilledFields, cons_field, finish_struct,
  put_to_struct, to_string_map, put_bytes, key_for, put_value, put_fields, fill_struct,
}
use qri.Fill.Fits.{fits_slice, fits_field, fits, fits_fields, Settled, Typed, Takes}
use qri.Fill.Units.{
  take_bool, take_int, take_int64, take_uint64, take_float64, take_string, take_interface,
  take_time, take_map, take_bytes,
}
use qri.Fill.Parts.{FieldTyped, FieldsTyped, take_slice, take_array, take_ptr, take_field}

AllHave-repeat : (t : GoType) (n : ℕ) (v : Value) → HasType t v → AllHave t (repeat n v)
AllHave-repeat t zero v h = all_nil
AllHave-repeat t (suc n) v h = all_cons v (repeat n v) h (AllHave-repeat t n v h)

count-repeat : (n : ℕ) (v : Value) → count (repeat n v) ≡ n
count-repeat zero v = refl
count-repeat (suc n) v = ap suc (count-repeat n v)

mutual
  unfolding zero_value zero_fields

  pub zero_value-HasType : (t : GoType) → HasType t (zero_value t)
  zero_value-HasType bool_type = of_bool false
  zero_value-HasType int_type = of_int _
  zero_value-HasType int64_type = of_int64 _
  zero_value-HasType uint64_type = of_uint64 0
  zero_value-HasType float64_type = of_float64 0
  zero_value-HasType string_type = of_string []
  zero_value-HasType any_type = of_any null
  zero_value-HasType time_type = of_time []
  zero_value-HasType byte_type = of_byte 0
  zero_value-HasType other_type = of_other
  zero_value-HasType (map_type t) = nil_map
  zero_value-HasType (slice_type t) = nil_slice
  zero_value-HasType (ptr_type t) = nil_ptr
  zero_value-HasType (array_type n t) =
      of_array (repeat n (zero_value t)) (AllHave-repeat t n (zero_value t) (zero_value-HasType t))
        (count-repeat n (zero_value t))
  zero_value-HasType (struct_type sets fs) = of_struct (zero_fields fs) [] (zero_fields-Have fs)

  zero_fields-Have : (fs : FieldTypes) → FieldsHave fs (zero_fields fs)
  zero_fields-Have no_fields = have_nil
  zero_fields-Have (field name tag t fs) =
      have_cons (zero_value t) (zero_fields fs) (zero_value-HasType t) (zero_fields-Have fs)

pub cons_field-Settled :
    (name tag : Str) (t : GoType) (fs : FieldTypes) (b : Bool) (v : Value) (r : FilledFields)
    → HasType t v
    → Settled b (FieldsTyped fs) r
    → Settled b (FieldsTyped (field name tag t fs)) (cons_field v r)
cons_field-Settled name tag t fs true v (some (vs, used, c)) h all = have_cons v vs h all
cons_field-Settled name tag t fs true v none h s = s
cons_field-Settled name tag t fs false v (some r) h s = s
cons_field-Settled name tag t fs false v none h s = s

-- One field, and then the others.
pub next_field :
    (name tag : Str) (t : GoType) (fs : FieldTypes) (b rest : Bool)
    (r : Option (Value × List Str × ErrorCollector))
    (next : List Str → ErrorCollector → FilledFields)
    → Settled b (FieldTyped t) r
    → ((used : List Str) (c : ErrorCollector) → Settled rest (FieldsTyped fs) (next used c))
    → Settled
        (b && rest)
        (FieldsTyped (field name tag t fs))
        (elim r [ none ↦ none | some (v, used, c) ↦ cons_field v (next used c) ])
next_field name tag t fs true rest none next h k = absurd h
next_field name tag t fs true rest (some (v, used, c)) next h k =
    cons_field-Settled name tag t fs rest v (next used c) h (k used c)
next_field name tag t fs false rest none next h k = tt
next_field name tag t fs false rest (some r) next h k = absurd h

pub finish_struct-Settled :
    (sets : Bool) (fs : FieldTypes) (m extra : List (Str × Val)) (b : Bool) (r : FilledFields)
    → Settled b (FieldsTyped fs) r
    → Settled b (Typed (struct_type sets fs)) (finish_struct sets m extra r)
finish_struct-Settled sets fs m extra true (some (vs, used, c)) s = of_struct vs _ s
finish_struct-Settled sets fs m extra true none s = s
finish_struct-Settled sets fs m extra false (some r) s = s
finish_struct-Settled sets fs m extra false none s = s

pub put_to_struct-Settled :
    (sets : Bool) (fs : FieldTypes) (m : List (Str × Val)) (b : Bool)
    (put : Values → ErrorCollector → FilledFields) (place : Value) (c : ErrorCollector)
    → ((vs : Values) (c : ErrorCollector)
        → FieldsHave fs vs
        → Settled b (FieldsTyped fs) (put vs c))
    → HasType (struct_type sets fs) place
    → Settled b (Typed (struct_type sets fs)) (put_to_struct sets m put place c)
put_to_struct-Settled sets fs m b put place c k (of_struct vs extra h) =
    finish_struct-Settled sets fs m extra b (put vs c) (k vs c h)

-- Where the data is no map, it is an error; where it is, the fields take it.
pub take_struct :
    (sets : Bool) (fs : FieldTypes) (p : List (Str × Val) → Bool)
    (put : List (Str × Val) → Option (Value × ErrorCollector)) (m : Option (List (Str × Val)))
    (place : Value) (c' c : ErrorCollector)
    → ((m : List (Str × Val)) → Settled (p m) (Typed (struct_type sets fs)) (put m))
    → HasType (struct_type sets fs) place
    → Settled
        (elim m [ none ↦ true | some m ↦ p m ])
        (Typed (struct_type sets fs))
        (elim m [ none ↦ some (place, c') | some m ↦ put m ])
take_struct sets fs p put none place c' c k h = h
take_struct sets fs p put (some m) place c' c k h = k m

pub take_slice_or_bytes :
    (go : Go) (t : GoType) (p : Val → Bool) (put : Putting)
    → Takes t p put
    → (v : Val) (place : Value) (c : ErrorCollector) → HasType (slice_type t) place
    → Settled (is_byte t || fits_slice p v) (Typed (slice_type t)) (
        if is_byte t
        then of_unit (put_bytes go v place) place c
        else put_slice put (zero_value t) v place c)
take_slice_or_bytes go byte_type p put k v place c h = take_bytes go v place c h
take_slice_or_bytes go t p put k v place c h =
    take_slice t p put k (zero_value t) (zero_value-HasType t) v place c h

module _ (go : Go) where
  mutual
    unfolding put_value put_fields fits fits_fields

    settle : (t : GoType) → Takes t (fits go t) (put_value go t)
    settle bool_type v place c h = take_bool go v place c h
    settle int_type v place c h = take_int go v place c h
    settle int64_type v place c h = take_int64 go v place c h
    settle uint64_type v place c h = take_uint64 go v place c h
    settle float64_type v place c h = take_float64 go v place c h
    settle string_type v place c h = take_string go v place c h
    settle any_type v place c h = take_interface go v place c h
    settle time_type v place c h = take_time go v place c h
    settle byte_type v place c h = h
    settle other_type v place c h = h
    settle (map_type t) v place c h = take_map go t v place c h
    settle (slice_type t) v place c h =
        take_slice_or_bytes go t (fits go t) (put_value go t) (settle t) v place c h
    settle (ptr_type t) v place c h =
        take_ptr t (fits go t) (put_value go t) (settle t) (zero_value t) (zero_value-HasType t) v
          place c h
    settle (array_type n t) v place c h =
        take_array t (fits go t) (put_value go t) (settle t) (zero_value t) (zero_value-HasType t) n
          v place c h
    settle (struct_type sets fs) v place c h =
        take_struct sets fs (fits_fields go fs)
          (λ m. put_to_struct sets m (λ vs c. put_fields go fs m vs [] c) place c)
          (to_string_map go v) place (add_error not_string_map c) c
          (λ m.
            put_to_struct-Settled sets fs m (fits_fields go fs m) _ place c
              (λ vs c. settle_fields fs m vs [] c) h)
          h

    settle_fields :
        (fs : FieldTypes) (m : List (Str × Val)) (vs : Values) (used : List Str)
        (c : ErrorCollector)
        → FieldsHave fs vs
        → Settled (fits_fields go fs m) (FieldsTyped fs) (put_fields go fs m vs used c)
    settle_fields no_fields m vs used c h = h
    settle_fields (field name tag t fs) m _ used c (have_cons v vs h hs) =
        next_field name tag t fs (fits_field (fits go t) (lookup (key_for go name tag m) m))
          (fits_fields go fs m)
          (put_field (put_value go t) name (key_for go name tag m)
            (lookup (key_for go name tag m) m) v used c)
          (λ used' c'. put_fields go fs m vs used' c')
          (take_field t (fits go t) (put_value go t) (settle t) (zero_value t)
            (zero_value-HasType t) name (key_for go name tag m) (lookup (key_for go name tag m) m) v
            used c h)
          (λ used' c'. settle_fields fs m vs used' c' hs)

  -- Filling a structure, all of whose fields and those of structures in it are exported, keeps the
  -- types of all places in it and does not panic, if the data fits the types, and panics if it does
  -- not. Data does not fit in two cases: a null is an element of a list for a slice, or for an array of
  -- that length, of Booleans, numbers other than bytes, texts, times or `interface{}`; or a map is
  -- given for a map whose values are neither texts nor `interface{}`.
  pub fill_struct-HasType :
      (sets : Bool) (fs : FieldTypes) (m : List (Str × Val)) (place : Value)
      → HasType (struct_type sets fs) place
      → Settled
          (fits_fields go fs m)
          (Typed (struct_type sets fs))
          (fill_struct go m (struct_type sets fs) place)
  unfolding fill_struct
  fill_struct-HasType sets fs m place h =
      put_to_struct-Settled sets fs m (fits_fields go fs m) _ place new_error_collector
        (λ vs c. settle_fields fs m vs [] c) h
