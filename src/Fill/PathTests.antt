-- ===== src/Fill/PathTests.antt =====
-- Paths into small structures.
use qri.Base.{
  ℕ, ◌≡◌, refl, [], ◌∷◌, false, Str, str, str_eq, split, Option, ok, err, panic, none, some,
  if◌then◌else◌,
}
use qri.Base.Int.{ℤ, pos, negsuc}
use qri.Fill.Types.{
  FieldTypes, GoType, Val, Value, int_type, string_type, any_type, map_type, slice_type, ptr_type,
  struct_type, no_fields, field, text, boolean, int, string_map, no_entries, entry, integer, words,
  dynamic, texts, table, sequence, nothing, pointer, structure, nil, cons, zero_value,
}
use qri.Fill.Errors.{need, ErrorCollector}
use qri.Fill.Put.{put_value, put_int, put_ptr}
use qri.Fill.Walk.{
  coercion, named_fields, map_lookup, val_step, find_in_val, through, map_step, path_step,
  find_target_at_path,
}
use qri.Fill.Paths.{coerce, assign, set_map_index, set_path_value, look_up, get_path_value}
use qri.Fill.Reading.{get-set_path_value}
use qri.Fill.Tests.{sample_go}

-- Enough of `strconv.ParseInt` for the texts below.
abbrev sample_int : ℕ → Str → Option ℤ
sample_int bits s =
    if str_eq s (str "-1")
    then some (negsuc 0)
    else if str_eq s (str "1")
    then some (pos 1)
    else none

abbrev sub_fields : FieldTypes
sub_fields = field (str "num") [] (ptr_type int_type) no_fields

abbrev fields : FieldTypes
fields = field (str "list") [] (slice_type string_type) (
    field (str "sub") [] (ptr_type (struct_type false sub_fields)) (
      field (str "dict") [] (map_type string_type)
        (field (str "meta") [] (map_type any_type) no_fields)))

abbrev output_type : GoType
output_type = ptr_type (struct_type false fields)

abbrev made : Value → Value → Value → Value
made sub dict meta = pointer (
    structure
      (cons (sequence (cons (words []) (cons (words (str "b")) nil)))
        (cons sub (cons dict (cons meta nil))))
      [])

abbrev blank : Value
blank = made nothing nothing nothing

abbrev with_num : Value
with_num = made (pointer (structure (cons (pointer (integer (pos 1))) nil) [])) nothing nothing

-- The pointers on the way are allocated, and the text is parsed.
sets_num :
    set_path_value sample_go sample_int (str "sub.num") (text (str "1")) output_type blank
    ≡ (with_num, ok tt)
unfolding set_path_value split find_target_at_path through path_step named_fields assign coerce
    put_value put_ptr put_int zero_value
sets_num = refl

num_at :
    (find_target_at_path (λ s. s) sample_int (split b'.' (str "sub.num")) output_type blank).field
    ≡ ok []
unfolding split find_target_at_path through path_step named_fields zero_value
num_at = refl

refuses_type :
    set_path_value sample_go sample_int (str "list.1") (int (pos 3)) output_type blank
    ≡ (blank, err (coercion (need (str "string") (int (pos 3)))))
unfolding set_path_value split find_target_at_path through path_step named_fields assign coerce
refuses_type = refl

-- A map is made where there is none, its entry is set to any text.
sets_entry :
    set_path_value sample_go sample_int (str "dict.k") (text (str "v")) output_type blank
    ≡ (made nothing (texts ((str "k", str "v") ∷ [])) nothing, ok tt)
unfolding set_path_value split find_target_at_path through path_step map_step named_fields
    set_map_index
sets_entry = refl

abbrev nested : Value
nested =
    made nothing nothing
      (table ((str "a", string_map (entry (str "b") (boolean false) no_entries)) ∷ []))

gets_nested :
    get_path_value sample_go sample_int (str "meta.a.b") output_type nested
    ≡ (nested, ok (dynamic (boolean false)))
unfolding get_path_value split find_target_at_path through path_step map_step named_fields
    map_lookup find_in_val val_step look_up
gets_nested = refl

-- An index below zero passes the test of the range and panics.
negative_index : (get_path_value sample_go sample_int (str "list.-1") output_type blank).1 ≡ panic
unfolding get_path_value split find_target_at_path through path_step named_fields
negative_index = refl

-- A path that ends with a dot names the map itself.
trailing_dot :
    (get_path_value sample_go sample_int (str "meta.") output_type nested).1
    ≡ ok (table ((str "a", string_map (entry (str "b") (boolean false) no_entries)) ∷ []))
unfolding get_path_value split find_target_at_path through path_step map_step named_fields
trailing_dot = refl

get-set_path_value_example :
    (w : Val) × (placed : Value) × (c : ErrorCollector) × (coerce sample_go sample_int
        (find_target_at_path
          (λ s. s)
          sample_int
          (split b'.' (str "sub.num"))
          output_type
          blank).target
        (text (str "1"))
      ≡ ok w)
    × (put_value sample_go
          (find_target_at_path
            (λ s. s)
            sample_int
            (split b'.' (str "sub.num"))
            output_type
            blank).target
          w
          (find_target_at_path
            (λ s. s)
            sample_int
            (split b'.' (str "sub.num"))
            output_type
            blank).place
          (record { errs = []; fields = split b'.' (str "sub.num") })
        ≡ some (placed, c))
    × ((get_path_value sample_go sample_int (str "sub.num") output_type with_num).1 ≡ ok placed)
get-set_path_value_example =
    get-set_path_value sample_go sample_int (str "sub.num") (text (str "1")) output_type blank
      with_num num_at sets_num
