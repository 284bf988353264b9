-- ===== src/Registry/Tests.antt =====
-- Registrations on small stores.
use qri.Base.{◌≡◌, ◌≢◌, ◌⊎◌, refl, [], ◌∷◌, Str, str, Result, ok, err, none, some}
use qri.Base.Int.{pos}
use qri.Base.Assoc.{lookup}
use qri.Registry.Profiles.{
  Profile, MemProfiles, check, validate, username_taken, register_profile, update_profile,
  deregister_profile,
}
use qri.Registry.Names.{
  Kept, register_profile-Kept, register_profile-keeps_old, IsSigned, OthersKept, deregister_any,
}

abbrev profile : Str → Str → Str → Profile
profile username id key = record {
  created = pos 0;
  username = username;
  peername = [];
  email = [];
  password = [];
  photo = [];
  thumb = [];
  name = [];
  description = [];
  home_url = [];
  twitter = [];
  profile_id = id;
  public_key = key;
  signature = str "signed";
}

abbrev lena : Profile
lena = profile (str "lena") (str "QmLena") (str "key")

abbrev mia : Profile
mia = profile (str "mia") (str "QmMia") (str "key")

abbrev any_key : Str → Str → Str → Result Str (Unit {0})
any_key key signature data' = ok tt

abbrev two : MemProfiles
two = (str "mia", mia) ∷ (str "lena", lena) ∷ []

refuses_taken :
    (register_profile any_key (pos 7) (profile (str "mia") (str "QmLena") (str "key")) two).0
    ≡ err (username_taken (str "mia"))
unfolding register_profile validate
refuses_taken = refl

register_profile-Kept_example :
    Kept
      (str "QmLena")
      (str "mia")
      mia
      (register_profile any_key (pos 7) (profile (str "lena2") (str "QmLena") (str "key")) two).1
register_profile-Kept_example =
    register_profile-Kept any_key (pos 7) (profile (str "lena2") (str "QmLena") (str "key")) mia two
      (str "mia") refl

valid_lena : check any_key (profile (str "lena2") (str "QmLena") (str "key")) ≡ ok tt
unfolding validate
valid_lena = refl

register_profile-keeps_old_example :
    (lookup
        (str "lena2")
        (register_profile any_key (pos 7) (profile (str "lena2") (str "QmLena") (str "key")) two).1
      ≡ some (record (profile (str "lena2") (str "QmLena") (str "key")) { created = pos 7 }))
    × ((j : Str) (q : Profile)
        → lookup j two ≡ some q
        → lookup j
            (register_profile any_key
              (pos 7)
              (profile (str "lena2") (str "QmLena") (str "key"))
              two).1
          ≡ some q)
register_profile-keeps_old_example =
    register_profile-keeps_old any_key (pos 7) (profile (str "lena2") (str "QmLena") (str "key"))
      mia (str "mia") ((str "lena", lena) ∷ []) valid_lena refl refl

abbrev thief : Profile
thief = profile (str "mia") (str "QmThief") (str "other")

deregister_any_example :
    IsSigned any_key thief
      × ((update_profile any_key thief two).0 ≡ ok tt)
      × (lookup (str "mia") (update_profile any_key thief two).1 ≡ some thief)
      × OthersKept any_key (str "mia") two (update_profile any_key thief two).1
      × ((deregister_profile any_key thief two).0 ≡ ok tt)
      × (lookup (str "mia") (deregister_profile any_key thief two).1 ≡ none)
      × OthersKept any_key (str "mia") two (deregister_profile any_key thief two).1
    ⊎ (¬ IsSigned any_key thief)
      × ((update_profile any_key thief two).0 ≢ ok tt)
      × ((update_profile any_key thief two).1 ≡ two)
      × ((deregister_profile any_key thief two).0 ≢ ok tt)
      × ((deregister_profile any_key thief two).1 ≡ two)
deregister_any_example = deregister_any any_key thief two
