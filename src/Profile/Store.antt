-- ===== src/Profile/Store.antt =====
-- profile/store.go: the store in memory, and the resolution of user names over it. Of a profile what
-- the store reads is kept. The key store and the printing of an id are parameters. A map is
-- a list of its entries in the order in which Go visits it.
use qri.Base.{
  List, [], ◌∷◌, Str, str_eq, map, Result, ok, err, is_empty, any, if◌then◌else◌, Option, none,
  some,
}
use qri.Base.Assoc.{lookup, insert, delete}

pub record Profile (K : Type 0) : Type 0 where
  pub id : Str
  pub peername : Str
  pub peer_ids : List Str
  pub key_id : Str
  pub pub_key : Option K
  pub priv_key : Option K

pub data ProfileError : Type 0 where
  id_required not_found : ProfileError
  ambiguous_username : List Str → ProfileError
  from_key_store : Str → ProfileError

-- What the store calls of a `key.Store` with state `S`: adding a key may give an error.
pub record KeyStore (K : Type 0) (S : Type 0) : Type 0 where
  pub add_pub_key : Str → K → S → S × Option Str
  pub add_priv_key : Str → K → S → S × Option Str
  pub pub_key_of : Str → S → Option K
  pub priv_key_of : Str → S → Option K

pub record MemStore (K : Type 0) (S : Type 0) : Type 0 where
  pub owner : Profile K
  pub store : List (Str × Profile K)
  pub keys : S

module _ {K : Type 0} where
  unfoldable pub peername_id : Str → List (Str × Profile K) → Result ProfileError Str
  peername_id name [] = err not_found
  peername_id name ((id, p) ∷ ps) =
      let later = peername_id name ps in if str_eq p.peername name then ok id else later

  unfoldable pub peer_profile : Str → List (Str × Profile K) → Result ProfileError (Profile K)
  peer_profile peer_id [] = err not_found
  peer_profile peer_id ((id, p) ∷ ps) =
      let later = peer_profile peer_id ps in if any (str_eq peer_id) p.peer_ids then ok p else later

  -- `PeerIDs`
  unfoldable pub peer_ids_of : Str → List (Str × Profile K) → Result ProfileError (List Str)
  peer_ids_of id [] = err not_found
  peer_ids_of id ((k, p) ∷ ps) =
      let later = peer_ids_of id ps in if str_eq id k then ok p.peer_ids else later

  unfoldable pub profiles_for_username : Str → List (Str × Profile K) → List (Profile K)
  profiles_for_username name [] = []
  profiles_for_username name ((id, p) ∷ ps) =
      let later = profiles_for_username name ps in
      if str_eq p.peername name then p ∷ later else later

  -- `ResolveUsername`, on the profiles that the store has for the name.
  unfoldable pub resolve_username : List (Profile K) → Result ProfileError (Profile K)
  resolve_username [] = err not_found
  resolve_username (p ∷ []) = ok p
  resolve_username (p ∷ q ∷ ps) = err (ambiguous_username (map (λ r. r.id) (p ∷ q ∷ ps)))

module _ {K : Type 0} {S : Type 0} (key_store : KeyStore K S) (pretty : Str → Str) where
  -- `GetKeyID`, which also sets the field.
  unfoldable pub key_id_of : Profile K → Str
  key_id_of p = if is_empty p.key_id then pretty p.id else p.key_id

  -- What `PutProfile` leaves behind the pointer: the key id is set when there is a key to add.
  unfoldable pub stored_profile : Profile K → Profile K
  stored_profile p = elim p.pub_key [
    | some k ↦ record p { key_id = key_id_of p }
    | none ↦ elim p.priv_key [ some k ↦ record p { key_id = key_id_of p } | none ↦ p ]
  ]

  unfoldable pub set_owner : Profile K → MemStore K S → MemStore K S
  set_owner own m = record m { owner = own }

  -- `if key != nil { if err := add(...); err != nil { return err } }`
  abbrev pub add_key : (Str → K → S → S × Option Str) → Str → Option K → S → S × Option Str
  add_key add id none s = (s, none)
  add_key add id (some k) s = add id k s

  -- The second key is added if the first one gave no error.
  abbrev pub then_add : S × Option Str → (S → S × Option Str) → S × Option Str
  then_add (s, none) next = next s
  then_add (s, some e) next = (s, some e)

  abbrev pub key_error : Option Str → Option ProfileError
  key_error none = none
  key_error (some e) = some (from_key_store e)

  -- `PutProfile`: the profile is stored even if a key is refused.
  unfoldable pub put_profile : Profile K → MemStore K S → MemStore K S × Option ProfileError
  put_profile p m =
      let (keys, e) =
        then_add (add_key key_store.add_pub_key (key_id_of p) p.pub_key m.keys)
          (add_key key_store.add_priv_key (key_id_of p) p.priv_key) in
      if is_empty (pretty p.id)
      then (m, some id_required)
      else (record m { store = insert p.id (stored_profile p) m.store; keys = keys }, key_error e)

  -- The stored profile gets its keys from the key store.
  unfoldable pub with_keys : Profile K → S → Profile K
  with_keys p keys =
      let named : Profile K = record p { key_id = key_id_of p } in
      record named {
        pub_key = key_store.pub_key_of (key_id_of named) keys;
        priv_key = key_store.priv_key_of (key_id_of named) keys;
      }

  -- `GetProfile`, which changes the profile that the store holds.
  unfoldable pub get_profile : Str → MemStore K S → Result ProfileError (Profile K) × MemStore K S
  get_profile id m = elim (lookup id m.store) [
    | none ↦ (err not_found, m)
    | some p ↦ let pro = with_keys p m.keys in (ok pro, record m { store = insert id pro m.store })
  ]

  unfoldable pub delete_profile : Str → MemStore K S → MemStore K S
  delete_profile id m = record m { store = delete id m.store }
