-- ===== src/Fill/Put.antt =====
-- base/fill/struct.go: `Struct` and the functions below it. `none` is a run-time panic: `reflect`
-- refuses the name of the type of nil, setting a value to nil, and a value of another type.
use qri.Base.{
  ℕ, ◌+◌, List, [], ◌∷◌, ◌++◌, Bool, true, false, ◌==◌, Str, str, str_eq, any, is_empty, split,
  Result, ok, err, panic, Option, none, some, if◌then◌else◌,
}
use qri.Base.Int.{ℤ}
use qri.Base.Assoc.{lookup, insert}
use qri.Base.Decimal.{itoa}
use qri.Fill.Types.{
  GoType, FieldTypes, Val, Items, AnyEntries, Value, Values, bool_type, int_type, int64_type,
  uint64_type, float64_type, string_type, any_type, time_type, byte_type, other_type, map_type,
  slice_type, ptr_type, array_type, struct_type, no_fields, field, null, boolean, int, int64, uint,
  uint64, float, text, bytes, list, string_map, any_map, no_items, item, no_any, any_entry, flag,
  integer, natural, real, words, binary, moment, dynamic, texts, table, sequence, pointer,
  structure, nil, cons, size, listed, packed, zero_value,
}
use qri.Fill.Errors.{
  FillError, not_struct, not_string_map, bad_time, unknown_field, need, need_bytes, need_slice,
  need_array, bad_size, unknown_kind, ErrorCollector, add_error, push_field, pop_field,
  new_error_collector,
}

-- What is called of Go's library: `strings.ToLower`, `fmt.Sprintf("%s", v)`, the conversions between
-- integers and floats, and `time.Parse`.
pub record Go : Type 0 where
  pub to_lower : Str → Str
  pub sprint : Val → Str
  pub int_of_float : ℕ → ℤ
  pub uint_of_float : ℕ → ℕ
  pub float_of_int : ℤ → ℕ
  pub parse_time : Str → Option Str

-- `&FieldError{..., Got: reflect.TypeOf(val).Name()}`
abbrev pub wrong : Str → Val → Result FillError Value
wrong want null = panic
wrong want v = err (need want v)

abbrev pub parsed_time : Str → Option Str → Result FillError Value
parsed_time s none = err (bad_time s)
parsed_time s (some m) = ok (moment m)

-- The name by which a field is looked up.
abbrev pub up_to_comma : List Str → Str
up_to_comma [] = []
up_to_comma (s ∷ ss) = s

-- `place.Type().Elem() == reflect.TypeOf(...)`
abbrev pub is_string : GoType → Bool
is_string string_type = true
is_string t = false

abbrev pub is_any : GoType → Bool
is_any any_type = true
is_any t = false

abbrev pub is_byte : GoType → Bool
is_byte byte_type = true
is_byte t = false

abbrev pub of_unit :
    Result FillError Value → Value → ErrorCollector → Option (Value × ErrorCollector)
of_unit (ok v) place c = some (v, c)
of_unit (err e) place c = some (place, add_error e c)
of_unit panic place c = none

-- How a value of the element's type is put.
abbrev pub Putting : Type 0
Putting = Val → Value → ErrorCollector → Option (Value × ErrorCollector)

abbrev pub Filled : Type 0
Filled = Option (Values × ErrorCollector)

abbrev pub cons_filled : Value → Filled → Filled
cons_filled v none = none
cons_filled v (some (vs, c)) = some (cons v vs, c)

abbrev pub as_sequence : Filled → Option (Value × ErrorCollector)
as_sequence none = none
as_sequence (some (vs, c)) = some (sequence vs, c)

-- The loops over a slice, which notes the index, and over an array, which does not.
unfoldable pub fill_slice : Putting → Value → ℕ → Items → ErrorCollector → Filled
fill_slice put fresh i no_items c = some (nil, c)
fill_slice put fresh i (item v vs) c = elim (put v fresh (push_field (itoa i) c)) [
  | none ↦ none
  | some (elem, c') ↦ cons_filled elem (fill_slice put fresh (i + 1) vs (pop_field c'))
]

unfoldable pub fill_array : Putting → Value → Items → ErrorCollector → Filled
fill_array put fresh no_items c = some (nil, c)
fill_array put fresh (item v vs) c = elim (put v fresh c) [
  | none ↦ none
  | some (elem, c') ↦ cons_filled elem (fill_array put fresh vs c')
]

unfoldable pub put_slice : Putting → Value → Putting
put_slice put fresh null place c = some (place, c)
put_slice put fresh (list vs) place c = as_sequence (fill_slice put fresh 0 vs c)
put_slice put fresh v place c = some (place, add_error (need_slice v) c)

unfoldable pub put_array : ℕ → Putting → Value → Putting
put_array n put fresh null place c = some (place, c)
put_array n put fresh (list vs) place c =
    if size vs == n
    then as_sequence (fill_array put fresh vs c)
    else some (place, add_error (bad_size n (size vs)) c)
put_array n put fresh v place c = some (place, add_error (need_array v) c)

abbrev pub as_pointer : Option (Value × ErrorCollector) → Option (Value × ErrorCollector)
as_pointer none = none
as_pointer (some (v, c)) = some (pointer v, c)

unfoldable pub put_ptr : Putting → Value → Putting
put_ptr put fresh null place c = some (place, c)
put_ptr put fresh v place c = as_pointer (put v fresh c)

-- One field: its value, the keys used so far, and the errors. A nil value uses its key.
unfoldable pub put_field :
    Putting
    → (name : Str) (key : Str) → Option Val
    → Value
    → List Str
    → ErrorCollector
    → Option (Value × List Str × ErrorCollector)
put_field put name key none place used c = some (place, used, c)
put_field put name key (some null) place used c = some (place, key ∷ used, c)
put_field put name key (some v) place used c = elim (put v place (push_field name c)) [
  | none ↦ none
  | some (place', c') ↦ some (place', key ∷ used, pop_field c')
]

abbrev pub FilledFields : Type 0
FilledFields = Option (Values × List Str × ErrorCollector)

abbrev pub cons_field : Value → FilledFields → FilledFields
cons_field v none = none
cons_field v (some (vs, used, c)) = some (cons v vs, used, c)

-- The loop over the keys that no field used: they go to `SetArbitrary`, or are errors.
unfoldable pub put_unknown :
    Bool
    → List Str
    → List (Str × Val)
    → List (Str × Val)
    → ErrorCollector
    → List (Str × Val) × ErrorCollector
put_unknown sets used [] extra c = (extra, c)
put_unknown sets used ((k, v) ∷ m) extra c =
    let known = any (str_eq k) used in
    put_unknown sets used m (if known then extra else if sets then extra ++ (k, v) ∷ [] else extra)
      (if known then c else if sets then c else add_error (unknown_field k) c)

-- `putFieldsToTargetStruct` behind the loop over the fields.
abbrev pub finish_struct :
    Bool → List (Str × Val) → List (Str × Val) → FilledFields → Option (Value × ErrorCollector)
finish_struct sets m extra none = none
finish_struct sets m extra (some (vs, used, c)) =
    let (extra', c') = put_unknown sets used m extra c in some (structure vs extra', c')

-- Only a structure has fields.
abbrev pub put_to_struct :
    Bool
    → List (Str × Val)
    → (Values → ErrorCollector → FilledFields)
    → Value
    → ErrorCollector
    → Option (Value × ErrorCollector)
put_to_struct sets m put (structure vs extra) c = finish_struct sets m extra (put vs c)
put_to_struct sets m put v c = none

module _ (go : Go) where
  -- `ensureMapsHaveStringKeys`: of the elements of a list only those that are maps are converted.
  unfoldable mutual
    pub string_keys : AnyEntries → List (Str × Val)
    string_keys no_any = []
    string_keys (any_entry k v m) = insert (go.sprint k) (with_string_keys v) (string_keys m)

    pub with_string_keys : Val → Val
    with_string_keys (any_map m) = string_map (packed (string_keys m))
    with_string_keys (list vs) = list (items_with_string_keys vs)
    with_string_keys v = v

    pub items_with_string_keys : Items → Items
    items_with_string_keys no_items = no_items
    items_with_string_keys (item (any_map m) vs) =
        item (string_map (packed (string_keys m))) (items_with_string_keys vs)
    items_with_string_keys (item v vs) = item v (items_with_string_keys vs)

  unfoldable pub to_string_map : Val → Option (List (Str × Val))
  to_string_map (string_map m) = some (listed m)
  to_string_map (any_map m) = some (string_keys m)
  to_string_map v = none

  unfoldable pub put_int : Val → Result FillError Value
  put_int (int n) = ok (integer n)
  put_int (float f) = ok (integer (go.int_of_float f))
  put_int v = wrong (str "int") v

  unfoldable pub put_int64 : Val → Result FillError Value
  put_int64 (int n) = ok (integer n)
  put_int64 (int64 n) = ok (integer n)
  put_int64 (float f) = ok (integer (go.int_of_float f))
  put_int64 v = wrong (str "int64") v

  unfoldable pub put_uint64 : Val → Result FillError Value
  put_uint64 (uint n) = ok (natural n)
  put_uint64 (uint64 n) = ok (natural n)
  put_uint64 (float f) = ok (natural (go.uint_of_float f))
  put_uint64 v = wrong (str "uint64") v

  unfoldable pub put_float64 : Val → Result FillError Value
  put_float64 (int n) = ok (real (go.float_of_int n))
  put_float64 (float f) = ok (real f)
  put_float64 v = wrong (str "float64") v

  unfoldable pub put_string : Val → Result FillError Value
  put_string (text s) = ok (words s)
  put_string v = wrong (str "string") v

  unfoldable pub put_bool : Val → Result FillError Value
  put_bool (boolean b) = ok (flag b)
  put_bool v = wrong (str "bool") v

  unfoldable pub put_interface : Val → Result FillError Value
  put_interface null = panic
  put_interface (any_map m) = ok (dynamic (string_map (packed (string_keys m))))
  put_interface v = ok (dynamic v)

  unfoldable pub put_time : Val → Result FillError Value
  put_time (text s) = parsed_time s (go.parse_time s)
  put_time v = wrong (str "time") v

  -- `strmap[k] = fmt.Sprintf("%s", v)`
  abbrev pub printed : List (Str × Val) → List (Str × Str)
  printed [] = []
  printed ((k, v) ∷ m) = (k, go.sprint v) ∷ printed m

  abbrev pub printed_any : AnyEntries → List (Str × Str)
  printed_any no_any = []
  printed_any (any_entry k v m) = insert (go.sprint k) (go.sprint v) (printed_any m)

  -- A map of another type than the decoded one cannot be set. `place.CanSet()` holds: a place is an
  -- exported field of a structure behind a pointer, or was made by `reflect.New`.
  abbrev pub set_map : GoType → List (Str × Str) → List (Str × Val) → Result FillError Value
  set_map t strings m =
      if is_string t then ok (texts strings) else if is_any t then ok (table m) else panic

  unfoldable pub put_map : GoType → Val → Value → Result FillError Value
  put_map t null place = ok place
  put_map t (string_map m) place = set_map t (printed (listed m)) (listed m)
  put_map t (any_map m) place = set_map t (printed_any m) (string_keys m)
  put_map t v place = err (need (str "map") v)

  unfoldable pub put_bytes : Val → Value → Result FillError Value
  put_bytes null place = ok place
  put_bytes (bytes s) place = ok (binary s)
  put_bytes (text s) place = ok (binary s)
  put_bytes v place = err (need_bytes v)

  -- The name by which a field is known: that of its tag, if it has one.
  unfoldable pub lower_name : Str → Str → Str
  lower_name name tag =
      if is_empty tag then go.to_lower name else go.to_lower (up_to_comma (split b',' tag))

  -- `caseMap`: the last of the keys that are spelled alike.
  abbrev pub case_map : List (Str × Val) → List (Str × Str)
  case_map [] = []
  case_map ((k, v) ∷ m) = case_map m ++ (go.to_lower k, k) ∷ []

  -- `caseMap[lowerName]`, which is empty for a name that is not there.
  abbrev pub real_key : Option Str → Str
  real_key none = []
  real_key (some k) = k

  unfoldable pub key_for : Str → Str → List (Str × Val) → Str
  key_for name tag m = real_key (lookup (lower_name name tag) (case_map m))

  unfoldable mutual
    pub put_value : GoType → Val → Value → ErrorCollector → Option (Value × ErrorCollector)
    put_value bool_type v place c = of_unit (put_bool v) place c
    put_value int_type v place c = of_unit (put_int v) place c
    put_value int64_type v place c = of_unit (put_int64 v) place c
    put_value uint64_type v place c = of_unit (put_uint64 v) place c
    put_value float64_type v place c = of_unit (put_float64 v) place c
    put_value string_type v place c = of_unit (put_string v) place c
    put_value any_type v place c = of_unit (put_interface v) place c
    put_value time_type v place c = of_unit (put_time v) place c
    put_value byte_type v place c = some (place, add_error unknown_kind c)
    put_value other_type v place c = some (place, add_error unknown_kind c)
    put_value (map_type t) v place c = of_unit (put_map t v place) place c
    put_value (slice_type t) v place c =
        if is_byte t
        then of_unit (put_bytes v place) place c
        else put_slice (put_value t) (zero_value t) v place c
    put_value (ptr_type t) v place c = put_ptr (put_value t) (zero_value t) v place c
    put_value (array_type n t) v place c = put_array n (put_value t) (zero_value t) v place c
    put_value (struct_type sets fs) v place c = elim (to_string_map v) [
      | none ↦ some (place, add_error not_string_map c)
      | some m ↦ put_to_struct sets m (λ vs c. put_fields fs m vs [] c) place c
    ]

    -- The loop over the fields.
    pub put_fields :
        FieldTypes → List (Str × Val) → Values → List Str → ErrorCollector → FilledFields
    put_fields no_fields m vs used c = some (vs, used, c)
    put_fields (field name tag t fs) m nil used c = none
    put_fields (field name tag t fs) m (cons place vs) used c =
        elim (put_field (put_value t) name (key_for name tag m) (lookup (key_for name tag m) m)
          place used c) [
            | none ↦ none
            | some (place', used', c') ↦ cons_field place' (put_fields fs m vs used' c')
          ]

  -- `Struct`: the structure behind the pointer, and the errors.
  unfoldable pub fill_struct : List (Str × Val) → GoType → Value → Option (Value × ErrorCollector)
  fill_struct m (struct_type sets fs) place =
      put_to_struct sets m (λ vs c. put_fields fs m vs [] c) place new_error_collector
  fill_struct m t place = some (place, add_error not_struct new_error_collector)
