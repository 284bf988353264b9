-- ===== src/Registry/Names.antt =====
-- Who may take which name from whom: registry/profiles.go.
use qri.Base.{
  ◌≡◌, refl, ◌⊎◌, inl, inr, List, [], ◌∷◌, Bool, true, false, Str, str_eq, str_eq_iff, str_eq_refl,
  Result, ok, err, panic, is_empty, if◌then◌else◌, Option, none, some, Bool-cases, ap, ◌∙◌, ◌↔◌,
  ◌≢◌, Result-cases, reject, ◌>>◌, >>=-eq-ok,
}
use qri.Base.Int.{ℤ}
use qri.Base.Assoc.{lookup, insert, delete, lookup-insert, lookup-delete}
use qri.Registry.Profiles.{
  Profile, RegistryError, username_required, profile_id_required, signature_required,
  public_key_required, MemProfiles, go_on, range, look_for, previous_name, check, checked, verified,
  validate, create, delete_profile, update, replace_name, register_free, register_profile,
  update_profile, deregister_profile,
}

module _ {A : Type 0} where
  lookup-delete_self : (k : Str) (m : List (Str × A)) → lookup k (delete k m) ≡ none
  lookup-delete_self k [] = refl
  lookup-delete_self k ((j, a) ∷ m) = elim (Bool-cases (str_eq j k)) [
    | inl e ↦ rw e (lookup-delete_self k m)
    | inr d ↦ rw (d, d) (lookup-delete_self k m)
  ]

  lookup-insert_ne :
      (i k : Str) (a : A) (m : List (Str × A))
      → str_eq i k ≡ false
      → lookup k (insert i a m) ≡ lookup k m
  lookup-insert_ne i k a [] d = rw d refl
  lookup-insert_ne i k a ((j, b) ∷ m) d = elim (Bool-cases (str_eq j i)) [
    | inl e ↦ rw e (rw (d, (str_eq_iff j i).0 e, d) refl)
    | inr n ↦ elim (Bool-cases (str_eq j k)) [
      | inl f ↦ rw (n, f) refl
      | inr g ↦ rw (n, g) (lookup-insert_ne i k a m d)
    ]
  ]

-- The name that is deleted, if there is one, is the profile's.
abbrev Own : Str → MemProfiles → Str → Type 0
Own id ps key = (p : Profile) × (lookup key ps ≡ some p) × (p.profile_id ≡ id)

Own-cons :
    (id key : Str) (p : Profile) (ps : MemProfiles) (name : Str)
    → p.profile_id ≡ id
    → (name ≡ key) ⊎ Own id ps name
    → Own id ((key, p) ∷ ps) name
Own-cons id key p ps name mine h = elim (Bool-cases (str_eq key name)) [
  | inl same ↦ (p, rw same refl, mine)
  | inr other ↦ elim h [
    | inl e ↦ absurd (cc (other, ap (str_eq key) e, str_eq_refl key))
    | inr (q, l, o) ↦ (q, rw other l, o)
  ]
]

Own-round :
    (id key : Str) (p : Profile) (ps : MemProfiles) (prev : Str)
    → (((range (look_for id) ps key).1 ≡ key) ⊎ Own id ps (range (look_for id) ps key).1)
    → (b : Bool) → str_eq p.profile_id id ≡ b
    → ((go_on (range (look_for id) ps) (if b then (ok true, key) else (ok false, prev))).1 ≡ prev)
      ⊎ Own id
          ((key, p) ∷ ps)
          (go_on (range (look_for id) ps) (if b then (ok true, key) else (ok false, prev))).1
Own-round id key p ps prev h true mine =
    inr (Own-cons id key p ps _ ((str_eq_iff p.profile_id id).0 mine) h)
Own-round id key p ps prev h false other = inl refl

range-Own :
    (id : Str) (ps : MemProfiles) (prev : Str)
    → ((range (look_for id) ps prev).1 ≡ prev) ⊎ Own id ps (range (look_for id) ps prev).1
unfolding range
range-Own id [] prev = inl refl
range-Own id ((key, p) ∷ ps) prev =
    Own-round id key p ps prev (range-Own id ps key) (str_eq p.profile_id id) refl

-- The name stays with its holder, or was the profile's own.
abbrev pub Kept : Str → Str → Profile → MemProfiles → Type 0
Kept id k q after = (lookup k after ≡ some q) ⊎ (q.profile_id ≡ id)

deleted-Kept :
    (id prev k : Str) (q : Profile) (ps : MemProfiles)
    → lookup k ps ≡ some q
    → (prev ≡ []) ⊎ Own id ps prev
    → Kept id k q (if is_empty prev then ps else delete prev ps)
deleted-Kept id [] k q ps l h = inl l
deleted-Kept id (c ∷ cs) k q ps l h = elim (Bool-cases (str_eq (c ∷ cs) k)) [
  | inl same ↦ elim h [
    | inl e ↦ cc
    | inr (o, found, mine) ↦ let e : c ∷ cs ≡ k = (str_eq_iff (c ∷ cs) k).0 same in inr (cc)
  ]
  | inr other ↦ inl (lookup-delete (c ∷ cs) k ps other ∙ l)
]

reject_iff : (b : Bool) (e : RegistryError) → (reject b e ≡ ok tt) ↔ (b ≡ false)
reject_iff true e = ((λ h. cc), (λ h. cc))
reject_iff false e = ((λ h. refl), (λ h. refl))

then_iff :
    {m k : Result RegistryError (Unit {0})} {A B : Type 0}
    → (m ≡ ok tt) ↔ A
    → (k ≡ ok tt) ↔ B
    → ((m >> k) ≡ ok tt) ↔ (A × B)
then_iff {m = m} {k = k} (f, g) (h, l) = (
  λ e. let (u, first, rest) = >>=-eq-ok m (λ u. k) e in (f first, h rest),
  λ w. rw (g w.0) (l w.1),
)

module _ (verify : (public_key signature data' : Str) → Result Str (Unit {0})) where
  checked-cases :
      (r : Result RegistryError (Unit {0})) (ps : MemProfiles) (P : MemProfiles → Type 0)
      (done : Result RegistryError (Unit {0}) × MemProfiles)
      → P ps
      → P done.1
      → P (checked verify r ps done).1
  checked-cases (ok u) ps P done h k = k
  checked-cases (err e) ps P done h k = h
  checked-cases panic ps P done h k = h

  free_name :
      (name k : Str) (q : Profile) (ps : MemProfiles)
      → lookup name ps ≡ none
      → lookup k ps ≡ some q
      → str_eq name k ≡ false
  free_name name k q ps free l = elim (Bool-cases (str_eq name k)) [
    | inl same ↦ let e : name ≡ k = (str_eq_iff name k).0 same in absurd (cc)
    | inr other ↦ other
  ]

  register_free-Kept :
      (now : ℤ) (p q : Profile) (ps : MemProfiles) (k : Str) (m : Option Profile)
      → lookup p.username ps ≡ m
      → lookup k ps ≡ some q
      → Kept p.profile_id k q (register_free verify now p ps m).1
  unfolding create delete_profile
  register_free-Kept now p q ps k (some pro) taken l = inl l
  register_free-Kept now p q ps k none free l =
      elim (deleted-Kept p.profile_id (previous_name p.profile_id ps) k q ps l
        (range-Own p.profile_id ps [])) [
          | inl kept ↦ inl (
              lookup-insert_ne p.username k (record p { created = now }) _
                (free_name p.username k q ps free l)
              ∙ kept)
          | inr own ↦ inr own
        ]

  -- Registering a profile takes no name from another profile: whoever held a name holds it after, with
  -- the same data, unless it is the profile that registers.
  pub register_profile-Kept :
      (now : ℤ) (p q : Profile) (ps : MemProfiles) (k : Str)
      → lookup k ps ≡ some q
      → Kept p.profile_id k q (register_profile verify now p ps).1
  unfolding register_profile
  register_profile-Kept now p q ps k l =
      checked-cases (check verify p) ps (Kept p.profile_id k q) _ (inl l)
        (register_free-Kept now p q ps k (lookup p.username ps) refl l)

  replace_name-other :
      (now : ℤ) (p first : Profile) (key : Str) (ps : MemProfiles)
      → str_eq first.profile_id p.profile_id ≡ false
      → register_free verify now p ((key, first) ∷ ps) none
        ≡ (ok tt, insert p.username (record p { created = now }) ((key, first) ∷ ps))
  unfolding create range
  replace_name-other now p first key ps other =
      ap (λ (prev : Str). (ok tt, replace_name verify now p prev ((key, first) ∷ ps)))
        (ap
          (λ (b : Bool).
            (go_on (range (look_for p.profile_id) ps)
              (if b then (ok true, key) else (ok false, []))).1)
          other)

  registered_first :
      (now : ℤ) (p first : Profile) (key : Str) (ps : MemProfiles)
      → check verify p ≡ ok tt
      → str_eq first.profile_id p.profile_id ≡ false
      → lookup p.username ((key, first) ∷ ps) ≡ none
      → register_profile verify now p ((key, first) ∷ ps)
        ≡ (ok tt, insert p.username (record p { created = now }) ((key, first) ∷ ps))
  unfolding register_profile
  registered_first now p first key ps valid other free =
      rw (valid, free) (replace_name-other now p first key ps other)

  -- Where the entry that Go visits first is another profile's, a profile that registers a free name gets
  -- it and keeps all names that it had: none of the entries changes.
  pub register_profile-keeps_old :
      (now : ℤ) (p first : Profile) (key : Str) (ps : MemProfiles)
      → check verify p ≡ ok tt
      → str_eq first.profile_id p.profile_id ≡ false
      → lookup p.username ((key, first) ∷ ps) ≡ none
      → (lookup p.username (register_profile verify now p ((key, first) ∷ ps)).1
          ≡ some (record p { created = now }))
        × ((j : Str) (q : Profile)
            → lookup j ((key, first) ∷ ps) ≡ some q
            → lookup j (register_profile verify now p ((key, first) ∷ ps)).1 ≡ some q)
  register_profile-keeps_old now p first key ps valid other free = (
    rw (registered_first now p first key ps valid other free)
        (lookup-insert p.username (record p { created = now }) ((key, first) ∷ ps)),
    λ j q l. rw (registered_first now p first key ps valid other free) (
        lookup-insert_ne p.username j (record p { created = now }) ((key, first) ∷ ps)
          (free_name p.username j q ((key, first) ∷ ps) free l)
        ∙ l),
  )

  -- The profile has its four values, and a signature of its name by the key that it shows itself.
  abbrev pub IsSigned : Profile → Type 0
  IsSigned p =
      (is_empty p.username ≡ false)
      × (is_empty p.profile_id ≡ false)
      × (is_empty p.signature ≡ false)
      × (is_empty p.public_key ≡ false)
      × (verify p.public_key p.signature p.username ≡ ok tt)

  verified_iff : (r : Result Str (Unit {0})) → (verified verify r ≡ ok tt) ↔ (r ≡ ok tt)
  verified_iff (ok u) = ((λ e. refl), (λ e. refl))
  verified_iff (err e) = ((λ h. cc), (λ h. cc))
  verified_iff panic = ((λ h. cc), (λ h. cc))

  validate_iff :
      (p : Profile)
      → (validate p ≡ ok tt) ↔ (
          (is_empty p.username ≡ false)
          × ((is_empty p.profile_id ≡ false)
              × ((is_empty p.signature ≡ false) × (is_empty p.public_key ≡ false))))
  unfolding validate
  validate_iff p = then_iff (reject_iff (is_empty p.username) username_required) (
      then_iff (reject_iff (is_empty p.profile_id) profile_id_required) (
        then_iff (reject_iff (is_empty p.signature) signature_required)
          (reject_iff (is_empty p.public_key) public_key_required)))

  check_iff : (p : Profile) → (check verify p ≡ ok tt) ↔ IsSigned p
  check_iff p =
      let (there, back) =
        then_iff (validate_iff p) (verified_iff (verify p.public_key p.signature p.username)) in
      (
        λ e. let ((u, (i, (s, k))), v) = there e in (u, i, s, k, v),
        λ w. let (u, i, s, k, v) = w in back ((u, (i, (s, k))), v),
      )

  -- All other entries are the same.
  abbrev pub OthersKept : Str → MemProfiles → MemProfiles → Type 0
  OthersKept name before after =
      (k : Str) → str_eq name k ≡ false → lookup k after ≡ lookup k before

  -- Whoever holds a name: a profile with that name, whose four required values are there and whose
  -- signature of the name is one by the key that the profile shows itself, overwrites the entry by
  -- an update and deletes it by deregistering, and all other entries are kept. For a profile that is
  -- not so signed neither call succeeds, and both leave the store as it was.
  pub deregister_any :
      (p : Profile) (ps : MemProfiles)
      → IsSigned p
          × ((update_profile verify p ps).0 ≡ ok tt)
          × (lookup p.username (update_profile verify p ps).1 ≡ some p)
          × OthersKept p.username ps (update_profile verify p ps).1
          × ((deregister_profile verify p ps).0 ≡ ok tt)
          × (lookup p.username (deregister_profile verify p ps).1 ≡ none)
          × OthersKept p.username ps (deregister_profile verify p ps).1
        ⊎ (¬ IsSigned p)
          × ((update_profile verify p ps).0 ≢ ok tt)
          × ((update_profile verify p ps).1 ≡ ps)
          × ((deregister_profile verify p ps).0 ≢ ok tt)
          × ((deregister_profile verify p ps).1 ≡ ps)
  unfolding update_profile deregister_profile update delete_profile
  deregister_any p ps = elim (Result-cases (check verify p)) [
    | inl (u, valid) ↦ inl (
      (check_iff p).0 valid,
      rw valid refl,
      rw valid (lookup-insert p.username p ps),
      rw valid (λ k d. lookup-insert_ne p.username k p ps d),
      rw valid refl,
      rw valid (lookup-delete_self p.username ps),
      rw valid (λ k d. lookup-delete p.username k ps d),
    )
    | inr (inl (e, bad)) ↦ inr (
      (λ s. cc (bad, (check_iff p).1 s)),
      rw bad (λ h. cc),
      rw bad refl,
      rw bad (λ h. cc),
      rw bad refl,
    )
    | inr (inr bad) ↦ inr (
      (λ s. cc (bad, (check_iff p).1 s)),
      rw bad (λ h. cc),
      rw bad refl,
      rw bad (λ h. cc),
      rw bad refl,
    )
  ]
