-- ===== src/Fill/Paths.antt =====
-- base/fill/path_value.go: setting and getting the value at a path of dot-separated fields.
use qri.Base.{
  ℕ, [], ◌∷◌, true, false, Str, str, str_eq, is_empty, split, Result, ok, err, panic, Option, none,
  some, if◌then◌else◌,
}
use qri.Base.Int.{ℤ}
use qri.Base.Assoc.{insert, delete}
use qri.Fill.Types.{
  GoType, Val, AnyEntries, Value, bool_type, int_type, int64_type, string_type, ptr_type, null,
  boolean, int, int64, float, text, string_map, any_map, no_any, any_entry, words, dynamic, texts,
  table, listed, packed,
}
use qri.Fill.Errors.{FillError, need, unknown_kind, ErrorCollector}
use qri.Fill.Put.{Go, put_value}
use qri.Fill.Walk.{
  PathError, not_found, coercion, filling, Found, is_text, map_lookup, any_map_lookup,
  find_target_at_path,
}

-- `&FieldError{..., Got: reflect.TypeOf(val).Name()}`
abbrev pub refused : Str → Val → Result FillError Val
refused want null = panic
refused want v = err (need want v)

abbrev pub parsed : Str → Str → (ℤ → Val) → Option ℤ → Result FillError Val
parsed want s value none = err (need want (text s))
parsed want s value (some n) = ok (value n)

abbrev pub set_any : Str → Val → AnyEntries → AnyEntries
set_any k v no_any = any_entry (text k) v no_any
set_any k v (any_entry j w m) =
    let later = set_any k v m in if is_text k j then any_entry j v m else any_entry j w later

abbrev pub delete_any : Str → AnyEntries → AnyEntries
delete_any k no_any = no_any
delete_any k (any_entry j w m) =
    let later = delete_any k m in if is_text k j then later else any_entry j w later

-- `SetMapIndex`: the zero value deletes the entry, a value of another type panics.
unfoldable pub set_map_index : Value → Str → Val → Option Value
set_map_index (texts m) k null = some (texts (delete k m))
set_map_index (texts m) k (text s) = some (texts (insert k s m))
set_map_index (table m) k null = some (table (delete k m))
set_map_index (table m) k v = some (table (insert k v m))
set_map_index (dynamic (string_map m)) k null =
    some (dynamic (string_map (packed (delete k (listed m)))))
set_map_index (dynamic (string_map m)) k v =
    some (dynamic (string_map (packed (insert k v (listed m)))))
set_map_index (dynamic (any_map m)) k null = some (dynamic (any_map (delete_any k m)))
set_map_index (dynamic (any_map m)) k v = some (dynamic (any_map (set_any k v m)))
set_map_index place k v = none

-- The whole after the call, and what the call returns.
abbrev pub Outcome : Type 0
Outcome = Value × Result PathError (Unit {0})

abbrev pub set_entry : Found → Option Value → Outcome
set_entry r none = (r.back r.place, panic)
set_entry r (some m) = (r.back m, ok tt)

abbrev pub put_done : Found → Option (Value × ErrorCollector) → Outcome
put_done r none = (r.back r.place, panic)
put_done r (some (v, c)) = (r.back v, if is_empty c.errs then ok tt else err (filling c))

module _ (go : Go) (parse_int : (bits : ℕ) → Str → Option ℤ) where
  -- `coerceToTargetType`
  unfoldable pub coerce : GoType → Val → Result FillError Val
  coerce bool_type (boolean b) = ok (boolean b)
  coerce bool_type (text s) =
      if str_eq (go.to_lower s) (str "true")
      then ok (boolean true)
      else if str_eq (go.to_lower s) (str "false")
      then ok (boolean false)
      else err (need (str "bool") (text s))
  coerce bool_type v = refused (str "bool") v
  coerce int_type (int n) = ok (int n)
  coerce int_type (text s) = parsed (str "int") s int (parse_int 32 s)
  coerce int_type v = refused (str "int") v
  coerce int64_type (int n) = ok (int n)
  coerce int64_type (int64 n) = ok (int64 n)
  coerce int64_type (float f) = ok (float f)
  coerce int64_type (text s) = parsed (str "int64") s int64 (parse_int 64 s)
  coerce int64_type v = refused (str "int64") v
  coerce (ptr_type t) v = coerce t v
  coerce string_type (text s) = ok (text s)
  coerce string_type v = refused (str "string") v
  coerce t v = err unknown_kind

  abbrev pub put_coerced : ErrorCollector → Found → Result FillError Val → Outcome
  put_coerced c r (err e) = (r.back r.place, err (coercion e))
  put_coerced c r panic = (r.back r.place, panic)
  put_coerced c r (ok w) = put_done r (put_value go r.target w r.place c)

  -- A place that is not a map's entry.
  unfoldable pub assign : Val → ErrorCollector → Found → Outcome
  assign v c r = put_coerced c r (coerce r.target v)

  abbrev pub set_at : Val → ErrorCollector → Found → Result PathError Str → Outcome
  set_at v c r (err e) = (r.back r.place, err e)
  set_at v c r panic = (r.back r.place, panic)
  set_at v c r (ok []) = assign v c r
  set_at v c r (ok (b ∷ s)) = set_entry r (set_map_index r.place (b ∷ s) v)

  abbrev pub set_found : Val → ErrorCollector → Found → Outcome
  set_found v c r = set_at v c r r.field

  -- `output` is a pointer, of the type and with the value.
  unfoldable pub set_path_value : Str → Val → GoType → Value → Outcome
  set_path_value path v t output =
      let steps = split b'.' path in
      set_found v (record { errs = []; fields = steps })
        (find_target_at_path go.to_lower parse_int steps t output)

  abbrev pub entry_or_not_found : Option Value → Result PathError Value
  entry_or_not_found none = err not_found
  entry_or_not_found (some v) = ok v

  abbrev pub value_of {ℓ} : {A : Type ℓ} → (A → Value) → Option (Str × A) → Option Value
  value_of value none = none
  value_of value (some (k, a)) = some (value a)

  unfoldable pub look_up : Str → Value → Result PathError Value
  look_up k (texts m) = entry_or_not_found (value_of words (map_lookup go.to_lower k m))
  look_up k (table m) = entry_or_not_found (value_of dynamic (map_lookup go.to_lower k m))
  look_up k (dynamic (string_map m)) =
      entry_or_not_found (value_of dynamic (map_lookup go.to_lower k (listed m)))
  look_up k (dynamic (any_map m)) = elim (any_map_lookup go.to_lower k m) [
    | none ↦ err not_found
    | some (w, put) ↦ ok (dynamic w)
  ]
  look_up k v = panic

  abbrev pub get_at : Found → Result PathError Str → Result PathError Value
  get_at r (err e) = err e
  get_at r panic = panic
  get_at r (ok []) = ok r.place
  get_at r (ok (b ∷ s)) = look_up (b ∷ s) r.place

  abbrev pub get_found : Found → Result PathError Value
  get_found r = get_at r r.field

  -- The input is a pointer too; nil pointers on the way are allocated.
  unfoldable pub get_path_value : Str → GoType → Value → Value × Result PathError Value
  get_path_value path t input =
      let r = find_target_at_path go.to_lower parse_int (split b'.' path) t input in
      (r.back r.place, get_found r)
