-- ===== src/Registry/Profiles.antt =====
-- registry/profile.go and registry/profiles.go: registered profiles and the store in memory. The check of a
-- signature is the parameter `verify`, `sort` is that of strings. A map is a list of its entries
-- in the order in which Go visits it.
use qri.Base.{
  List, [], ◌∷◌, Bool, true, false, Str, str_eq, map, Result, ok, err, panic, ◌>>◌, reject,
  is_empty, if◌then◌else◌, Option, none, some,
}
use qri.Base.Int.{ℤ}
use qri.Base.Assoc.{lookup, insert, delete}

pub record Profile : Type 0 where
  pub created : ℤ
  pub username : Str
  pub peername : Str
  pub email : Str
  pub password : Str
  pub photo : Str
  pub thumb : Str
  pub name : Str
  pub description : Str
  pub home_url : Str
  pub twitter : Str
  pub profile_id : Str
  pub public_key : Str
  pub signature : Str

pub data RegistryError : Type 0 where
  username_required profile_id_required signature_required public_key_required not_found :
      RegistryError
  unverified : Str → RegistryError
  username_taken : Str → RegistryError

unfoldable pub validate : Profile → Result RegistryError (Unit {0})
validate p = do
  reject (is_empty p.username) username_required
  reject (is_empty p.profile_id) profile_id_required
  reject (is_empty p.signature) signature_required
  reject (is_empty p.public_key) public_key_required

abbrev pub MemProfiles : Type 0
MemProfiles = List (Str × Profile)

abbrev pub found : Option Profile → Result RegistryError Profile
found none = err not_found
found (some p) = ok p

unfoldable pub load : Str → MemProfiles → Result RegistryError Profile
load key ps = found (lookup key ps)

unfoldable pub create : Str → Profile → MemProfiles → MemProfiles
create key p ps = insert key p ps

unfoldable pub update : Str → Profile → MemProfiles → MemProfiles
update key p ps = insert key p ps

unfoldable pub delete_profile : Str → MemProfiles → MemProfiles
delete_profile key ps = delete key ps

-- One round of `Range`: whether to go on.
abbrev pub go_on :
    {S : Type 0}
    → (S → Result RegistryError (Unit {0}) × S)
    → Result RegistryError Bool × S
    → Result RegistryError (Unit {0}) × S
go_on rest (ok true, s) = rest s
go_on rest (ok false, s) = (ok tt, s)
go_on rest (err e, s) = (err e, s)
go_on rest (panic, s) = (panic, s)

-- `Range`: an iteration changes what it closes over.
unfoldable pub range :
    {S : Type 0}
    → (Str → Profile → S → Result RegistryError Bool × S)
    → MemProfiles
    → S
    → Result RegistryError (Unit {0}) × S
range iter [] s = (ok tt, s)
range iter ((key, p) ∷ ps) s = go_on (range iter ps) (iter key p s)

-- `SortedRange`: the keys were read from the map, so each is there.
unfoldable pub range_keys :
    {S : Type 0}
    → (Str → Profile → S → Result RegistryError Bool × S)
    → MemProfiles
    → List Str
    → S
    → Result RegistryError (Unit {0}) × S
range_keys iter ps [] s = (ok tt, s)
range_keys iter ps (key ∷ keys) s = elim (lookup key ps) [
  | none ↦ (panic, s)
  | some p ↦ go_on (range_keys iter ps keys) (iter key p s)
]

unfoldable pub sorted_range :
    {S : Type 0}
    → (sort : List Str → List Str) → (Str → Profile → S → Result RegistryError Bool × S)
    → MemProfiles
    → S
    → Result RegistryError (Unit {0}) × S
sorted_range sort iter ps s = range_keys iter ps (sort (map (λ (e : Str × Profile). e.0) ps)) s

-- The iteration that looks for the name that the profile has: it goes on where the entry is the
-- profile's, and stops at the first that is not.
abbrev pub look_for : Str → Str → Profile → Str → Result RegistryError Bool × Str
look_for id key p prev = if str_eq p.profile_id id then (ok true, key) else (ok false, prev)

abbrev pub previous_name : Str → MemProfiles → Str
previous_name id ps = (range (look_for id) ps []).1

module _ (verify : (public_key signature data' : Str) → Result Str (Unit {0})) where
  abbrev pub verified : Result Str (Unit {0}) → Result RegistryError (Unit {0})
  verified (ok u) = ok tt
  verified (err e) = err (unverified e)
  verified panic = panic

  -- `Validate` and `Verify`, with which all three begin.
  abbrev pub check : Profile → Result RegistryError (Unit {0})
  check p = do validate p; verified (verify p.public_key p.signature p.username)

  -- The profile is created under its name, and its previous name deleted, if it was found.
  abbrev pub replace_name : (now : ℤ) → Profile → Str → MemProfiles → MemProfiles
  replace_name now p prev ps =
      create p.username (record p { created = now })
        (if is_empty prev then ps else delete_profile prev ps)

  abbrev pub register_free :
      (now : ℤ)
      → Profile
      → MemProfiles
      → Option Profile
      → Result RegistryError (Unit {0}) × MemProfiles
  register_free now p ps (some pro) =
      (if str_eq pro.profile_id p.profile_id then ok tt else err (username_taken p.username), ps)
  register_free now p ps none = (ok tt, replace_name now p (previous_name p.profile_id ps) ps)

  abbrev pub checked :
      Result RegistryError (Unit {0})
      → MemProfiles
      → Result RegistryError (Unit {0}) × MemProfiles
      → Result RegistryError (Unit {0}) × MemProfiles
  checked (ok u) ps done = done
  checked (err e) ps done = (err e, ps)
  checked panic ps done = (panic, ps)

  unfoldable pub register_profile :
      (now : ℤ) → Profile → MemProfiles → Result RegistryError (Unit {0}) × MemProfiles
  register_profile now p ps = checked (check p) ps (register_free now p ps (lookup p.username ps))

  unfoldable pub update_profile :
      Profile → MemProfiles → Result RegistryError (Unit {0}) × MemProfiles
  update_profile p ps = checked (check p) ps (ok tt, update p.username p ps)

  unfoldable pub deregister_profile :
      Profile → MemProfiles → Result RegistryError (Unit {0}) × MemProfiles
  deregister_profile p ps = checked (check p) ps (ok tt, delete_profile p.username ps)
