-- ===== src/Repo/Ref.antt =====
-- repo/ref/dataset_ref.go, and the conversions of repo/ref/convert.go that read no dataset. The dataset
-- that a reference points to is of a type `D`. `Pretty` of a peer id and the decoding of its text are
-- the parameters `pretty` and `decode_or_empty`.
use qri.Base.{
  [], ◌∷◌, ◌++◌, Bool, true, false, ◌&&◌, ◌||◌, Str, str_eq, is_empty, if◌then◌else◌, Option, none,
  some,
}
use qri.Dsref.Ref as Dsref
use qri.Dsref.Ref.{VersionInfo, present}

pub record DatasetRef (D : Type 0) : Type 0 where
  pub peername : Str
  pub profile_id : Str
  pub name : Str
  pub path : Str
  pub fsi_path : Str
  pub dataset : Option D
  pub published : Bool
  pub foreign : Bool

module _ {D : Type 0} where
  unfoldable pub alias_string : DatasetRef D → Str
  alias_string r = if present r.name then r.peername ++ b'/' ∷ r.name else r.peername

  -- `String`
  unfoldable pub dataset_ref_string : DatasetRef D → Str
  dataset_ref_string r = if present r.path then alias_string r ++ b'@' ∷ r.path else alias_string r

  -- `Complete`
  unfoldable pub is_complete : DatasetRef D → Bool
  is_complete r = present r.peername && present r.profile_id && present r.name && present r.path

  -- `Match`
  unfoldable pub ref_match : DatasetRef D → DatasetRef D → Bool
  ref_match r b =
      (present r.path && present b.path && str_eq r.path b.path)
      || ((str_eq r.profile_id b.profile_id || str_eq r.peername b.peername)
          && str_eq r.name b.name)

  -- `Equal`
  unfoldable pub dataset_ref_equal : DatasetRef D → DatasetRef D → Bool
  dataset_ref_equal r b =
      str_eq r.peername b.peername
      && str_eq r.profile_id b.profile_id
      && str_eq r.name b.name
      && str_eq r.path b.path

  -- `IsPeerRef`
  unfoldable pub is_peer_dataset_ref : DatasetRef D → Bool
  is_peer_dataset_ref r =
      (present r.peername || present r.profile_id)
      && is_empty r.name
      && is_empty r.path
      && elim r.dataset [ none ↦ true | some d ↦ false ]

  abbrev pub empty_dataset_ref : DatasetRef D
  empty_dataset_ref = record {
    peername = [];
    profile_id = [];
    name = [];
    path = [];
    fsi_path = [];
    dataset = none;
    published = false;
    foreign = false;
  }

  -- `IsEmpty`
  unfoldable pub dataset_ref_is_empty : DatasetRef D → Bool
  dataset_ref_is_empty r = dataset_ref_equal r empty_dataset_ref

  module _ (pretty : Str → Str) where
    unfoldable pub absolute : DatasetRef D → Str
    absolute r =
        alias_string r
        ++ ((if present (pretty r.profile_id) || present r.path then b'@' ∷ [] else [])
            ++ (pretty r.profile_id ++ r.path))

    unfoldable pub convert_to_dsref : DatasetRef D → Dsref.Ref
    convert_to_dsref r = record {
      init_id = [];
      username = r.peername;
      profile_id = pretty r.profile_id;
      name = r.name;
      path = r.path;
    }

  module _ (decode_or_empty : Str → Str) where
    unfoldable pub ref_from_dsref : Dsref.Ref → DatasetRef D
    ref_from_dsref r = record empty_dataset_ref {
      peername = r.username;
      profile_id = decode_or_empty r.profile_id;
      name = r.name;
      path = r.path;
    }
