-- ===== src/Dsref/Ref.antt =====
-- dsref/ref.go and dsref/version_info.go: `Ref` and `VersionInfo`.
use qri.Base.{
  ◌≡◌, [], ◌∷◌, ◌++◌, Bool, true, false, not, ◌&&◌, ◌||◌, Str, str_eq, str_eq_iff, is_empty,
  if◌then◌else◌, arith, Option, none, ◌↔◌,
}
use qri.Base.Int.{ℤ, pos}

pub record Ref : Type 0 where
  pub init_id : Str
  pub username : Str
  pub profile_id : Str
  pub name : Str
  pub path : Str

abbrev pub empty_ref : Ref
empty_ref = record { init_id = []; username = []; profile_id = []; name = []; path = [] }

-- `s != ""`
abbrev pub present : Str → Bool
present s = not (is_empty s)

-- `Human`, and `Alias`, which calls it.
unfoldable pub human : Ref → Str
human r = if present r.name then r.username ++ b'/' ∷ r.name else r.username

-- `String`
unfoldable pub ref_string : Ref → Str
ref_string r =
    human r
    ++ ((if present r.init_id || present r.path then b'@' ∷ [] else []) ++ (r.init_id ++ r.path))

unfoldable pub legacy_profile_id_string : Ref → Str
legacy_profile_id_string r =
    human r
    ++ ((if present r.init_id || present r.path then b'@' ∷ [] else []) ++ (r.profile_id ++ r.path))

-- `IsEmpty`
unfoldable pub ref_is_empty : Ref → Bool
ref_is_empty r =
    is_empty r.init_id
    && is_empty r.username
    && is_empty r.profile_id
    && is_empty r.name
    && is_empty r.path

unfoldable pub is_peer_ref : Ref → Bool
is_peer_ref r =
    (present r.username || present r.profile_id)
    && is_empty r.name
    && is_empty r.path
    && is_empty r.init_id

unfoldable pub complete : Ref → Bool
complete r =
    present r.init_id
    && present r.username
    && present r.profile_id
    && present r.name
    && present r.path

-- `Equals`
unfoldable pub ref_equals : Ref → Ref → Bool
ref_equals r t =
    str_eq r.init_id t.init_id
    && str_eq r.username t.username
    && str_eq r.profile_id t.profile_id
    && str_eq r.name t.name
    && str_eq r.path t.path

-- A time is its nanoseconds since 1970; `none` is Go's zero time.
pub record VersionInfo : Type 0 where
  pub init_id : Str
  pub username : Str
  pub profile_id : Str
  pub name : Str
  pub path : Str
  pub published : Bool
  pub foreign : Bool
  pub meta_title : Str
  pub theme_list : Str
  pub body_size : ℤ
  pub body_rows : ℤ
  pub body_format : Str
  pub num_errors : ℤ
  pub commit_time : Option ℤ
  pub commit_title : Str
  pub commit_message : Str
  pub num_versions : ℤ
  pub fsi_path : Str
  pub run_id : Str
  pub run_status : Str
  pub run_duration : ℤ

-- `VersionInfo{}`
abbrev pub empty_info : VersionInfo
empty_info = record {
  init_id = [];
  username = [];
  profile_id = [];
  name = [];
  path = [];
  published = false;
  foreign = false;
  meta_title = [];
  theme_list = [];
  body_size = pos 0;
  body_rows = pos 0;
  body_format = [];
  num_errors = pos 0;
  commit_time = none;
  commit_title = [];
  commit_message = [];
  num_versions = pos 0;
  fsi_path = [];
  run_id = [];
  run_status = [];
  run_duration = pos 0;
}

-- `Ref.VersionInfo`, and `NewVersionInfoFromRef`, which does the same.
unfoldable pub version_info : Ref → VersionInfo
version_info r = record empty_info {
  init_id = r.init_id;
  username = r.username;
  profile_id = r.profile_id;
  name = r.name;
  path = r.path;
}

unfoldable pub simple_ref : VersionInfo → Ref
simple_ref v = record {
  init_id = v.init_id;
  username = v.username;
  profile_id = v.profile_id;
  name = v.name;
  path = v.path;
}

-- `Equals` decides equality of references, and a reference survives as a sparse `VersionInfo`.
pub ref_equals_iff : (r t : Ref) → (ref_equals r t ≡ true) ↔ (simple_ref (version_info r) ≡ t)
unfolding ref_equals simple_ref version_info
ref_equals_iff r t = ground (
  arith,
  str_eq_iff r.init_id t.init_id,
  str_eq_iff r.username t.username,
  str_eq_iff r.profile_id t.profile_id,
  str_eq_iff r.name t.name,
  str_eq_iff r.path t.path,
)
