-- ===== src/Fill/Named.antt =====
-- base/fill/struct.go: without an error, no key of the data was dropped.
use qri.Base.{
  ◌≡◌, ◌≢◌, refl, inl, inr, List, [], ◌∷◌, ◌++◌, Bool, true, false, Str, str_eq, any, All, Option,
  none, some, if◌then◌else◌, Bool-cases, arith, ap, ◌∙◌, str_eq_refl, str_eq_iff, ◌⊎◌, subst,
}
use qri.Base.Assoc.{lookup}
use qri.Fill.Types.{
  FieldTypes, Val, Value, Values, no_fields, field, struct_type, null, nil, cons, structure,
}
use qri.Fill.Errors.{
  ErrorCollector, add_error, unknown_field, new_error_collector, push_field, pop_field,
}
use qri.Fill.Put.{
  Go, Putting, FilledFields, cons_field, put_field, put_unknown, put_fields, put_value,
  finish_struct, key_for, fill_struct,
}

abbrev pub Known : List Str → Str × Val → Type 0
Known used e = any (str_eq e.0) used ≡ true

append-eq-nil {ℓ} : {A : Type ℓ} (xs : List A) (x : A) → xs ++ x ∷ [] ≢ []
append-eq-nil [] x e = cc
append-eq-nil (y ∷ ys) x e = cc

Known-from :
    (used : List Str) (k : Str) (v : Val) (m : List (Str × Val)) (c : ErrorCollector) (b : Bool)
    → any (str_eq k) used ≡ b
    → ((if b then c else add_error (unknown_field k) c).errs ≡ []) × All (Known used) m
    → (c.errs ≡ []) × All (Known used) ((k, v) ∷ m)
unfolding add_error
Known-from used k v m c true known (e, all) = (e, (known, all))
Known-from used k v m c false new (e, all) =
    absurd (append-eq-nil c.errs (c.fields, unknown_field k) e)

-- Without new errors all keys were used.
put_unknown-Known :
    (used : List Str) (m extra : List (Str × Val)) (c : ErrorCollector)
    → (put_unknown false used m extra c).1.errs ≡ []
    → (c.errs ≡ []) × All (Known used) m
unfolding put_unknown add_error
put_unknown-Known used [] extra c e = (e, tt)
put_unknown-Known used ((k, v) ∷ m) extra c e = Known-from used k v m c (any (str_eq k) used) refl (
    put_unknown-Known used m _ (if any (str_eq k) used then c else add_error (unknown_field k) c) e)

abbrev IsAmong : List Str → List Str → Type 0
IsAmong used keys = (k : Str) → any (str_eq k) used ≡ true → any (str_eq k) keys ≡ true

key_used :
    (key : Str) (used : List Str) (r : Option (Value × ErrorCollector))
    {out : Value × List Str × ErrorCollector}
    → ◌≡◌ {A = Option (Value × List Str × ErrorCollector)}
        (elim r [ none ↦ none | some (place, c) ↦ some (place, key ∷ used, pop_field c) ])
        (some out)
    → out.1 ≡ key ∷ used
key_used key used none e = cc
key_used key used (some (place, c)) e = cc

-- A field uses no key but its own.
put_field-used :
    (put : Putting) (name key : Str) (m : Option Val) (place : Value) (used : List Str)
    (c : ErrorCollector) {out : Value × List Str × ErrorCollector}
    → put_field put name key m place used c ≡ some out
    → (out.1 ≡ used) ⊎ (out.1 ≡ key ∷ used)
unfolding put_field
put_field-used put name key none place used c e = inl (cc)
put_field-used put name key (some null) place used c e = inr (cc)
put_field-used put name key (some v) place used c e =
    inr (key_used key used (put v place (push_field name c)) e)

IsAmong-field :
    (key : Str) (used used' keys : List Str)
    → (used' ≡ used) ⊎ (used' ≡ key ∷ used)
    → any (str_eq key) keys ≡ true
    → IsAmong used keys
    → IsAmong used' keys
IsAmong-field key used used' keys (inl e) h w k u = w k (rw (← e) u)
IsAmong-field key used used' keys (inr e) h w k u = elim (Bool-cases (str_eq k key)) [
  | inl same ↦ rw ((str_eq_iff k key).0 same) h
  | inr other ↦ w k (rw (e, other) at u)
]

module _ (go : Go) where
  -- The keys of the data that the fields look at.
  abbrev pub field_keys : FieldTypes → List (Str × Val) → List Str
  field_keys no_fields m = []
  field_keys (field name tag t fs) m = key_for go name tag m ∷ field_keys fs m

  cons_field-some :
      (v : Value) (r : FilledFields) (out : Values × List Str × ErrorCollector)
      → cons_field v r ≡ some out
      → (vs : Values) × (r ≡ some (vs, out.1, out.2))
  cons_field-some v none out e = cc
  cons_field-some v (some (vs, used, c)) out e = (vs, cc)

  -- One field, and then the others.
  field_then :
      (r : Option (Value × List Str × ErrorCollector))
      (next : List Str → ErrorCollector → FilledFields) (key : Str) (used keys : List Str)
      (out : Values × List Str × ErrorCollector)
      → ((got : Value × List Str × ErrorCollector)
          → r ≡ some got
          → (got.1 ≡ used) ⊎ (got.1 ≡ key ∷ used))
      → any (str_eq key) keys ≡ true
      → IsAmong used keys
      → ((used' : List Str) (c : ErrorCollector) (vs : Values)
          → next used' c ≡ some (vs, out.1, out.2)
          → IsAmong used' keys
          → IsAmong out.1 keys)
      → ◌≡◌ {A = FilledFields}
          (elim r [ none ↦ none | some (v, used', c) ↦ cons_field v (next used' c) ])
          (some out)
      → IsAmong out.1 keys
  field_then none next key used keys out one h w rest e = cc
  field_then (some (v, used', c)) next key used keys out one h w rest e =
      let (vs, f) = cons_field-some v (next used' c) out e in
      rest used' c vs f (IsAmong-field key used used' keys (one (v, used', c) refl) h w)

  put_fields-IsAmong :
      (fs : FieldTypes) (m : List (Str × Val)) (vs : Values) (used keys : List Str)
      (c : ErrorCollector) (out : Values × List Str × ErrorCollector)
      → put_fields go fs m vs used c ≡ some out
      → IsAmong (field_keys fs m) keys
      → IsAmong used keys
      → IsAmong out.1 keys
  unfolding put_fields
  put_fields-IsAmong no_fields m vs used keys c out e h w =
      let q : used ≡ out.1 = cc in subst (λ (u : List Str). IsAmong u keys) q w
  put_fields-IsAmong (field name tag t fs) m nil used keys c out e h w = cc
  put_fields-IsAmong (field name tag t fs) m (cons v vs) used keys c out e h w =
      field_then
        (put_field (put_value go t) name (key_for go name tag m) (lookup (key_for go name tag m) m)
          v used c)
        (λ used' c'. put_fields go fs m vs used' c') (key_for go name tag m) used keys out
        (λ got g.
          put_field-used (put_value go t) name (key_for go name tag m)
            (lookup (key_for go name tag m) m) v used c g)
        (h (key_for go name tag m) (ground (arith, str_eq_refl (key_for go name tag m)))) w
        (λ used' c' vs' f w'.
          put_fields-IsAmong fs m vs used' keys c' (vs', out.1, out.2) f (λ k u. h k (ground arith))
            w')
        e

  All-Known :
      (used keys : List Str) (m : List (Str × Val))
      → IsAmong used keys
      → All (Known used) m
      → All (Known keys) m
  All-Known used keys [] w all = tt
  All-Known used keys ((k, v) ∷ m) w (known, all) = (w k known, All-Known used keys m w all)

  finish_struct-Known :
      (m extra : List (Str × Val)) (keys : List Str) (r : FilledFields)
      → ((out : Values × List Str × ErrorCollector) → r ≡ some out → IsAmong out.1 keys)
      → (out : Value × ErrorCollector) → finish_struct false m extra r ≡ some out
      → out.1.errs ≡ []
      → All (Known keys) m
  finish_struct-Known m extra keys none w out e clean = cc
  finish_struct-Known m extra keys (some (vs, used, c)) w out e clean =
      let q : (put_unknown false used m extra c).1 ≡ out.1 = cc in
      All-Known used keys m (w (vs, used, c) refl)
        (put_unknown-Known used m extra c (ap (λ (d : ErrorCollector). d.errs) q ∙ clean)).1

  -- Where a structure without `SetArbitrary` is filled without an error, each key of the data is one
  -- that a field of the structure looks at, by its name or its tag: nothing was dropped.
  pub fill_struct-Known :
      (fs : FieldTypes) (m : List (Str × Val)) (vs : Values) (extra : List (Str × Val))
      {place : Value} {c : ErrorCollector}
      → fill_struct go m (struct_type false fs) (structure vs extra) ≡ some (place, c)
      → c.errs ≡ []
      → All (Known (field_keys fs m)) m
  unfolding fill_struct
  fill_struct-Known fs m vs extra {place} {c} e clean =
      finish_struct-Known m extra (field_keys fs m) (put_fields go fs m vs [] new_error_collector)
        (λ out f.
          put_fields-IsAmong fs m vs [] (field_keys fs m) new_error_collector out f (λ k u. u)
            (λ k u. cc))
        (place, c) e clean
