-- ===== src/Profile/Tests.antt =====
-- Runs of the store on small data.
use qri.Base.{ℕ, ◌≡◌, refl, [], ◌∷◌, Str, str, ok, err, none}
use qri.Profile.Store.{
  Profile, not_found, ambiguous_username, KeyStore, MemStore, put_profile, get_profile, with_keys,
  key_id_of, stored_profile, delete_profile, profiles_for_username, resolve_username, peername_id,
}

-- A key store that holds nothing.
abbrev no_keys : KeyStore ℕ (Unit {0})
no_keys = record {
  add_pub_key = λ id k s. (s, none);
  add_priv_key = λ id k s. (s, none);
  pub_key_of = λ id s. none;
  priv_key_of = λ id s. none;
}

abbrev user : Str → Profile ℕ
user id = record {
  id = id;
  peername = str "me";
  peer_ids = [];
  key_id = [];
  pub_key = none;
  priv_key = none;
}

abbrev start : MemStore ℕ (Unit {0})
start = record { owner = user (str "i"); store = (str "i", user (str "i")) ∷ []; keys = tt }

abbrev put : Profile ℕ → MemStore ℕ (Unit {0}) → MemStore ℕ (Unit {0})
put p m = (put_profile no_keys (λ id. id) p m).0

gets_put :
    (get_profile no_keys (λ id. id) (str "j") (put (user (str "j")) start)).0
    ≡ ok (record (user (str "j")) { key_id = str "j" })
unfolding get_profile put_profile with_keys key_id_of stored_profile
gets_put = refl

ambiguous_name :
    resolve_username (profiles_for_username (str "me") (put (user (str "j")) start).store)
    ≡ err (ambiguous_username (str "i" ∷ str "j" ∷ []))
unfolding resolve_username profiles_for_username put_profile stored_profile
ambiguous_name = refl

deletes :
    peername_id (str "me") (delete_profile no_keys (λ id. id) (str "i") start).store ≡ err not_found
unfolding peername_id delete_profile
deletes = refl
