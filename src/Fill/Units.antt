-- ===== src/Fill/Units.antt =====
-- base/fill/struct.go: places of one value, of a map and of bytes keep their types.
use qri.Base.{List, true, not, ◌||◌, Str, Option, none, some}
use qri.Fill.Types.{
  GoType, Val, Value, bool_type, int_type, int64_type, uint64_type, float64_type, string_type,
  any_type, time_type, byte_type, map_type, slice_type, null, boolean, int, int64, uint, uint64,
  float, text, bytes, string_map, any_map, HasType, of_bool, of_int, of_int64, of_uint64,
  of_float64, of_string, of_any, of_time, of_texts, of_table, of_bytes,
}
use qri.Fill.Errors.{ErrorCollector}
use qri.Fill.Put.{
  Go, is_string, is_any, of_unit, put_int, put_int64, put_uint64, put_float64, put_string, put_bool,
  put_interface, put_time, parsed_time, set_map, put_map, put_bytes,
}
use qri.Fill.Fits.{is_null, is_map, Settled, Typed, Takes}

module _ (go : Go) where
  pub take_bool :
      Takes bool_type (λ v. not (is_null v)) (λ v place c. of_unit (put_bool go v) place c)
  unfolding put_bool
  take_bool null place c h = tt
  take_bool (boolean b) place c h = of_bool b
  take_bool v place c h = h

  pub take_int : Takes int_type (λ v. not (is_null v)) (λ v place c. of_unit (put_int go v) place c)
  unfolding put_int
  take_int null place c h = tt
  take_int (int n) place c h = of_int n
  take_int (float f) place c h = of_int _
  take_int v place c h = h

  pub take_int64 :
      Takes int64_type (λ v. not (is_null v)) (λ v place c. of_unit (put_int64 go v) place c)
  unfolding put_int64
  take_int64 null place c h = tt
  take_int64 (int n) place c h = of_int64 n
  take_int64 (int64 n) place c h = of_int64 n
  take_int64 (float f) place c h = of_int64 _
  take_int64 v place c h = h

  pub take_uint64 :
      Takes uint64_type (λ v. not (is_null v)) (λ v place c. of_unit (put_uint64 go v) place c)
  unfolding put_uint64
  take_uint64 null place c h = tt
  take_uint64 (uint n) place c h = of_uint64 n
  take_uint64 (uint64 n) place c h = of_uint64 n
  take_uint64 (float f) place c h = of_uint64 _
  take_uint64 v place c h = h

  pub take_float64 :
      Takes float64_type (λ v. not (is_null v)) (λ v place c. of_unit (put_float64 go v) place c)
  unfolding put_float64
  take_float64 null place c h = tt
  take_float64 (int n) place c h = of_float64 _
  take_float64 (float f) place c h = of_float64 f
  take_float64 v place c h = h

  pub take_string :
      Takes string_type (λ v. not (is_null v)) (λ v place c. of_unit (put_string go v) place c)
  unfolding put_string
  take_string null place c h = tt
  take_string (text s) place c h = of_string s
  take_string v place c h = h

  pub take_interface :
      Takes any_type (λ v. not (is_null v)) (λ v place c. of_unit (put_interface go v) place c)
  unfolding put_interface
  take_interface null place c h = tt
  take_interface (any_map m) place c h = of_any _
  take_interface v place c h = of_any v

  pub parsed_time-Settled :
      (s : Str) (m : Option Str) (place : Value) (c : ErrorCollector)
      → HasType time_type place
      → Settled true (Typed time_type) (of_unit (parsed_time s m) place c)
  parsed_time-Settled s none place c h = h
  parsed_time-Settled s (some m) place c h = of_time m

  pub take_time :
      Takes time_type (λ v. not (is_null v)) (λ v place c. of_unit (put_time go v) place c)
  unfolding put_time
  take_time null place c h = tt
  take_time (text s) place c h = parsed_time-Settled s (go.parse_time s) place c h
  take_time v place c h = h

  pub set_map-Settled :
      (t : GoType) (strings : List (Str × Str)) (m : List (Str × Val)) (place : Value)
      (c : ErrorCollector)
      → Settled
          (is_string t || is_any t)
          (Typed (map_type t))
          (of_unit (set_map go t strings m) place c)
  set_map-Settled string_type strings m place c = of_texts strings
  set_map-Settled any_type strings m place c = of_table m
  set_map-Settled t strings m place c = tt

  pub take_map :
      (t : GoType)
      → Takes
          (map_type t)
          (λ v. not (is_map v) || is_string t || is_any t)
          (λ v place c. of_unit (put_map go t v place) place c)
  unfolding put_map
  take_map t null place c h = h
  take_map t (string_map m) place c h = set_map-Settled t _ _ place c
  take_map t (any_map m) place c h = set_map-Settled t _ _ place c
  take_map t v place c h = h

  pub take_bytes :
      Takes (slice_type byte_type) (λ v. true) (λ v place c. of_unit (put_bytes go v place) place c)
  unfolding put_bytes
  take_bytes null place c h = h
  take_bytes (bytes s) place c h = of_bytes s
  take_bytes (text s) place c h = of_bytes s
  take_bytes v place c h = h
