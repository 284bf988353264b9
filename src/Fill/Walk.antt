-- ===== src/Fill/Walk.antt =====
-- base/fill/path_value.go: following a path of fields, keys and indices to the place that it names.
use qri.Base.{
  ℕ, zero, suc, List, [], ◌∷◌, Bool, false, Str, str, str_eq, is_empty, length, leb, Result, ok,
  err, panic, Option, none, some, if◌then◌else◌,
}
use qri.Base.Int.{ℤ, pos, negsuc}
use qri.Base.Assoc.{lookup, insert}
use qri.Fill.Types.{
  GoType, FieldTypes, Val, Items, AnyEntries, Value, Values, string_type, any_type, time_type,
  byte_type, map_type, slice_type, ptr_type, struct_type, no_fields, field, null, bytes, text, list,
  string_map, any_map, no_items, item, no_any, any_entry, natural, words, binary, dynamic, nothing,
  texts, table, sequence, pointer, structure, nil, cons, count, size, listed, packed, zero_value,
}
use qri.Fill.Errors.{FillError, ErrorCollector}

-- `beyond` stands for what is not modelled: the private fields of a time, and the entries of maps
-- other than those of texts and of `interface{}`.
pub data PathError : Type 0 where
  not_found cannot_set beyond : PathError
  not_index : Str → PathError
  outside : (num : ℕ) (len : ℕ) → PathError
  coercion : FillError → PathError
  filling : ErrorCollector → PathError

-- What `findTargetAtPath` returns: the type and value of the place and the field. `back` is the
-- whole as it is once the place holds a value, with the pointers allocated on the way.
pub record Found : Type 0 where
  pub target : GoType
  pub place : Value
  pub back : Value → Value
  pub field : Result PathError Str

abbrev pub stop : GoType → Value → Result PathError Str → Found
stop t v r = record { target = t; place = v; back = λ x. x; field = r }

abbrev pub within : (Value → Value) → Found → Found
within f r = record r { back = λ v. f (r.back v) }

-- The text that reflection shows for a key of type `interface{}`.
abbrev any_key_string : Str
any_key_string = str "<interface {} Value>"

abbrev pub nth : ℕ → Values → Option Value
nth n nil = none
nth zero (cons v vs) = some v
nth (suc n) (cons v vs) = nth n vs

abbrev pub replace : ℕ → Value → Values → Values
replace n w nil = nil
replace zero w (cons v vs) = cons w vs
replace (suc n) w (cons v vs) = cons v (replace n w vs)

abbrev pub nth_item : ℕ → Items → Option Val
nth_item n no_items = none
nth_item zero (item v vs) = some v
nth_item (suc n) (item v vs) = nth_item n vs

abbrev pub replace_item : ℕ → Val → Items → Items
replace_item n w no_items = no_items
replace_item zero w (item v vs) = item w vs
replace_item (suc n) w (item v vs) = item v (replace_item n w vs)

abbrev pub nth_byte : ℕ → Str → Option ℕ
nth_byte n [] = none
nth_byte zero (b ∷ s) = some b
nth_byte (suc n) (b ∷ s) = nth_byte n s

abbrev pub as_val : Value → Val
as_val (dynamic v) = v
as_val v = null

-- The only one of the fields with a name, as `FieldByNameFunc` gives it.
abbrev pub only_one : List (ℕ × GoType) → Option (ℕ × GoType)
only_one [] = none
only_one (f ∷ []) = some f
only_one (f ∷ g ∷ fs) = none

-- An index of a slice: a negative one passes the test against the length and panics.
abbrev pub in_range : ℕ → Str → Option ℤ → Result PathError ℕ
in_range len s none = err (not_index s)
in_range len s (some (negsuc n)) = panic
in_range len s (some (pos n)) = if leb len n then err (outside n len) else ok n

-- The first entry with such a key, of a map with `interface{}` as keys: its value, and the map
-- once the value is another.
abbrev pub any_entry_with : (Val → Bool) → AnyEntries → Option (Val × (Val → AnyEntries))
any_entry_with p no_any = none
any_entry_with p (any_entry k v m) =
    let later = any_entry_with p m in
    if p k
    then some (v, λ w. any_entry k w m)
    else elim later [ none ↦ none | some (u, put) ↦ some (u, λ w. any_entry k v (put w)) ]

abbrev pub is_text : Str → Val → Bool
is_text k (text j) = str_eq j k
is_text k v = false

abbrev pub first_some {ℓ} : {A : Type ℓ} → Option A → Option A → Option A
first_some none b = b
first_some (some a) b = some a

abbrev pub keyed {ℓ} : {A : Type ℓ} → Str → Option A → Option (Str × A) → Option (Str × A)
keyed k none other = other
keyed k (some a) other = some (k, a)

-- `strings.ToLower`
module _ (to_lower : Str → Str) where
  unfoldable pub named_fields : Str → FieldTypes → ℕ → List (ℕ × GoType)
  named_fields name no_fields i = []
  named_fields name (field n tag t fs) i =
      let later = named_fields name fs (suc i) in
      if str_eq (to_lower n) name then (i, t) ∷ later else later

  abbrev pub get_field : Str → FieldTypes → Option (ℕ × GoType)
  get_field s fs = only_one (named_fields (to_lower s) fs 0)

  -- The first key with the spelling, of a map with texts as keys.
  abbrev pub fold_key {ℓ} : {A : Type ℓ} → Str → List (Str × A) → Option (Str × A)
  fold_key low [] = none
  fold_key low ((j, a) ∷ m) =
      let later = fold_key low m in if str_eq (to_lower j) low then some (j, a) else later

  unfoldable pub map_lookup {ℓ} : {A : Type ℓ} → Str → List (Str × A) → Option (Str × A)
  map_lookup k m =
      keyed k (lookup k m) (keyed (to_lower k) (lookup (to_lower k) m) (fold_key (to_lower k) m))

  unfoldable pub any_map_lookup : Str → AnyEntries → Option (Val × (Val → AnyEntries))
  any_map_lookup k m = first_some (any_entry_with (is_text k) m) (
      first_some (any_entry_with (is_text (to_lower k)) m)
        (any_entry_with (λ key. str_eq (to_lower any_key_string) (to_lower k)) m))

abbrev pub or_stop {ℓ} : {A : Type ℓ} → Found → (A → Found) → Option A → Found
or_stop f next none = f
or_stop f next (some a) = next a

abbrev pub indexed : GoType → Value → (ℕ → Found) → Result PathError ℕ → Found
indexed t v next (err e) = stop t v (err e)
indexed t v next panic = stop t v panic
indexed t v next (ok i) = next i

-- An element of a slice of bytes.
abbrev pub byte_at : List Str → Value → Str → Result PathError ℕ → Found
byte_at rest whole s = indexed byte_type whole (λ i.
    or_stop (stop byte_type whole panic)
      (λ b. record {
        target = byte_type;
        place = natural b;
        back = λ v. whole;
        field = if is_empty rest then ok [] else err cannot_set;
      })
      (nth_byte i s))

abbrev pub item_at : (Val → Found) → Items → Result PathError ℕ → Found
item_at next vs = indexed any_type (dynamic (list vs)) (λ i.
    or_stop (stop any_type (dynamic (list vs)) panic)
      (λ u. within (λ v. dynamic (list (replace_item i (as_val v) vs))) (next u)) (nth_item i vs))

-- Through the pointers before a step: nil ones are allocated.
unfoldable pub through : (GoType → Value → Found) → GoType → Value → Found
through next (ptr_type t) nothing = within pointer (through next t (zero_value t))
through next (ptr_type t) (pointer v) = within pointer (through next t v)
through next (ptr_type t) v = stop (ptr_type t) v panic
through next t v = next t v

abbrev pub field_at :
    (GoType → Value → Found)
    → FieldTypes
    → Bool
    → Values
    → List (Str × Val)
    → Option (ℕ × GoType)
    → Found
field_at next fs sets vs extra none =
    stop (struct_type sets fs) (structure vs extra) (err not_found)
field_at next fs sets vs extra (some (i, t)) =
    or_stop (stop (struct_type sets fs) (structure vs extra) panic)
      (λ v. within (λ w. structure (replace i w vs) extra) (next t v)) (nth i vs)

abbrev pub element_at : (GoType → Value → Found) → GoType → Values → Result PathError ℕ → Found
element_at next t vs = indexed (slice_type t) (sequence vs) (λ i.
    or_stop (stop (slice_type t) (sequence vs) panic)
      (λ v. within (λ w. sequence (replace i w vs)) (next t v)) (nth i vs))

-- `strings.ToLower` and `strconv.ParseInt(s, 10, bits)`
module _ (to_lower : Str → Str) (parse_int : (bits : ℕ) → Str → Option ℤ) where
  -- One step into what an `interface{}` holds. A map is found itself if the step is the last.
  unfoldable pub val_step : Str → List Str → (Val → Found) → Val → Found
  val_step s rest next null = stop any_type (dynamic null) panic
  val_step s [] next (string_map m) = stop any_type (dynamic (string_map m)) (ok s)
  val_step s rest next (string_map m) =
      or_stop (stop any_type (dynamic (string_map m)) (err not_found))
        (λ e.
          within (λ v. dynamic (string_map (packed (insert e.0 (as_val v) (listed m))))) (next e.1))
        (map_lookup to_lower s (listed m))
  val_step s [] next (any_map m) = stop any_type (dynamic (any_map m)) (ok s)
  val_step s rest next (any_map m) =
      or_stop (stop any_type (dynamic (any_map m)) (err not_found))
        (λ e. within (λ v. dynamic (any_map (e.1 (as_val v)))) (next e.0))
        (any_map_lookup to_lower s m)
  val_step s rest next (list vs) = item_at next vs (in_range (size vs) s (parse_int 32 s))
  val_step s rest next (bytes b) =
      byte_at rest (dynamic (bytes b)) b (in_range (length b) s (parse_int 32 s))
  val_step s rest next v = stop any_type (dynamic v) (err cannot_set)

  unfoldable pub find_in_val : List Str → Val → Found
  find_in_val [] v = stop any_type (dynamic v) (ok [])
  find_in_val (s ∷ rest) v = val_step s rest (find_in_val rest) v

  abbrev pub slice_step : (GoType → Value → Found) → Str → List Str → GoType → Value → Found
  slice_step next s rest t nothing =
      within (λ w. nothing) (element_at next t nil (in_range 0 s (parse_int 32 s)))
  slice_step next s rest t (binary b) =
      byte_at rest (binary b) b (in_range (length b) s (parse_int 32 s))
  slice_step next s rest t (sequence vs) =
      element_at next t vs (in_range (count vs) s (parse_int 32 s))
  slice_step next s rest t v = stop (slice_type t) v panic

  -- A nil map is made. Its entries are found by key, unless the step is the last.
  abbrev pub text_step : (GoType → Value → Found) → Str → List Str → List (Str × Str) → Found
  text_step next s [] m = stop (map_type string_type) (texts m) (ok s)
  text_step next s rest m =
      or_stop (stop (map_type string_type) (texts m) (err not_found))
        (λ e. within (λ v. texts m) (next string_type (words e.1))) (map_lookup to_lower s m)

  abbrev pub table_step : Str → List Str → List (Str × Val) → Found
  table_step s [] m = stop (map_type any_type) (table m) (ok s)
  table_step s rest m =
      or_stop (stop (map_type any_type) (table m) (err not_found))
        (λ e. within (λ v. table (insert e.0 (as_val v) m)) (find_in_val rest e.1))
        (map_lookup to_lower s m)

  unfoldable pub map_step : (GoType → Value → Found) → Str → List Str → GoType → Value → Found
  map_step next s rest string_type nothing = text_step next s rest []
  map_step next s rest string_type (texts m) = text_step next s rest m
  map_step next s rest any_type nothing = table_step s rest []
  map_step next s rest any_type (table m) = table_step s rest m
  map_step next s rest t v = stop (map_type t) v (err beyond)

  -- One step into a place that is not a pointer.
  unfoldable pub path_step : Str → List Str → (GoType → Value → Found) → GoType → Value → Found
  path_step s rest next (struct_type sets fs) (structure vs extra) =
      field_at next fs sets vs extra (get_field to_lower s fs)
  path_step s rest next (struct_type sets fs) v = stop (struct_type sets fs) v panic
  path_step s rest next any_type (dynamic v) = find_in_val (s ∷ rest) v
  path_step s rest next any_type v = stop any_type v panic
  path_step s rest next (map_type t) v = map_step next s rest t v
  path_step s rest next (slice_type t) v = slice_step next s rest t v
  path_step s rest next time_type v = stop time_type v (err beyond)
  path_step s rest next t v = stop t v (err cannot_set)

  unfoldable pub find_target_at_path : List Str → GoType → Value → Found
  find_target_at_path [] t v = stop t v (ok [])
  find_target_at_path (s ∷ rest) t v = through (path_step s rest (find_target_at_path rest)) t v
