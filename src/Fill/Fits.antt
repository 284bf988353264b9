-- ===== src/Fill/Fits.antt =====
-- base/fill/struct.go: which data a type takes without a panic.
use qri.Base.{
  ℕ, List, Bool, true, false, not, ◌&&◌, ◌||◌, ◌==◌, Str, Option, none, some, if◌then◌else◌,
}
use qri.Base.Assoc.{lookup}
use qri.Fill.Types.{
  GoType, FieldTypes, Val, Items, Value, byte_type, other_type, map_type, slice_type, ptr_type,
  array_type, struct_type, no_fields, field, null, list, string_map, any_map, no_items, item, size,
  HasType,
}
use qri.Fill.Errors.{ErrorCollector}
use qri.Fill.Put.{Go, is_string, is_any, is_byte, Putting, to_string_map, key_for}

-- Data that is nil: a field is not looked into for it, and a map, slice, array, pointer or structure takes
-- it without a panic, but a place of one value does not.
abbrev pub is_null : Val → Bool
is_null null = true
is_null v = false

abbrev pub is_map : Val → Bool
is_map (string_map m) = true
is_map (any_map m) = true
is_map v = false

abbrev pub all_items : (Val → Bool) → Items → Bool
all_items p no_items = true
all_items p (item v vs) = p v && all_items p vs

abbrev pub fits_slice : (Val → Bool) → Val → Bool
fits_slice p (list vs) = all_items p vs
fits_slice p v = true

abbrev pub fits_array : ℕ → (Val → Bool) → Val → Bool
fits_array n p (list vs) = if size vs == n then all_items p vs else true
fits_array n p v = true

abbrev pub fits_field : (Val → Bool) → Option Val → Bool
fits_field p none = true
fits_field p (some v) = is_null v || p v

-- What a type takes without a panic: a map only of texts or of `interface{}`, and nil only where a
-- field, map, slice, array, pointer or structure stands.
module _ (go : Go) where
  unfoldable mutual
    pub fits : GoType → Val → Bool
    fits byte_type v = true
    fits other_type v = true
    fits (map_type t) v = not (is_map v) || is_string t || is_any t
    fits (slice_type t) v = is_byte t || fits_slice (fits t) v
    fits (ptr_type t) v = is_null v || fits t v
    fits (array_type n t) v = fits_array n (fits t) v
    fits (struct_type sets fs) v = elim (to_string_map go v) [
      | none ↦ true
      | some m ↦ fits_fields fs m
    ]
    fits t v = not (is_null v)

    pub fits_fields : FieldTypes → List (Str × Val) → Bool
    fits_fields no_fields m = true
    fits_fields (field name tag t fs) m =
        fits_field (fits t) (lookup (key_for go name tag m) m) && fits_fields fs m

-- A result as foretold: one with the property, or a panic.
abbrev pub Settled {ℓ} : {A : Type ℓ} → Bool → (A → Type 0) → Option A → Type 0
Settled true P (some a) = P a
Settled true P none = ⊥
Settled false P (some a) = ⊥
Settled false P none = Unit

abbrev pub Typed : GoType → Value × ErrorCollector → Type 0
Typed t r = HasType t r.0

-- A slot for one value: it takes what fits, and then has the type.
abbrev pub Takes : GoType → (Val → Bool) → Putting → Type 0
Takes t p put =
    (v : Val) (place : Value) (c : ErrorCollector)
    → HasType t place
    → Settled (p v) (Typed t) (put v place c)
