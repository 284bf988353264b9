-- ===== src/Access/Defs.antt =====
-- remote/access/access.go: rules, resources, actions, their parsing and matching, `Enforce`.
-- `json.Unmarshal` is the parameter `decode`; `subject.ID.String()` is the field `id`.
use qri.Base.{
  ℕ, List, [], ◌∷◌, Bool, true, false, not, ◌&&◌, ◌||◌, Str, str, str_eq, Result, ok, err, ◌>>=◌,
  ◌>>◌, reject, length, is_empty, any, ltb, ◌==◌, if◌then◌else◌, split, join,
}

pub data Error : Type 0 where
  access_denied subject_required bad_effect resources_required actions_required : Error
  empty_string star_twice star_not_last bad_json : Error

abbrev pub match_all : Str
match_all = str "*"

abbrev pub match_subject : Str
match_subject = str "_subject"

abbrev pub effect_allow : Str
effect_allow = str "allow"

abbrev pub effect_deny : Str
effect_deny = str "deny"

-- the byte ':'
abbrev pub colon : ℕ
colon = b':'

abbrev pub Resource : Type 0
Resource = List Str

abbrev pub Action : Type 0
Action = List Str

pub record Rule : Type 0 where
  pub title : Str
  pub subject : Str
  pub resources : List Resource
  pub actions : List Action
  pub effect : Str

abbrev pub AccessPolicy : Type 0
AccessPolicy = List Rule

-- What `Enforce` reads of a `profile.Profile`.
pub record Subject : Type 0 where
  pub id : Str
  pub peername : Str

unfoldable pub validate : Rule → Result Error (Unit {0})
validate r = do
  reject (str_eq r.subject []) subject_required
  reject (not (str_eq r.effect effect_allow) && not (str_eq r.effect effect_deny)) bad_effect
  reject (is_empty r.resources) resources_required
  reject (is_empty r.actions) actions_required

-- `Rule.UnmarshalJSON`: the new value of the receiver.
unfoldable pub unmarshal_rule : (decode : Str → Result Error Rule) → Str → Result Error Rule
unmarshal_rule decode d = do r ← decode d; validate r; ok r

-- The loop over the names in `ParseResource` and `ParseAction`.
unfoldable pub check_stars : Bool → List Str → Result Error (Unit {0})
check_stars found_star [] = ok tt
check_stars found_star (name ∷ names) =
    let seen = check_stars true names in
    let rest = check_stars found_star names in
    if str_eq name match_all
    then (if found_star then err star_twice else seen)
    else if found_star
    then err star_not_last
    else rest

unfoldable pub parse_resource : Str → Result Error Resource
parse_resource s = do
  reject (str_eq s []) empty_string
  let rsc = split colon s
  check_stars false rsc
  ok rsc

unfoldable pub parse_action : Str → Result Error Action
parse_action s = do
  reject (str_eq s []) empty_string
  let rsc = split colon s
  check_stars false rsc
  ok rsc

-- `Resource.MarshalJSON`, `Action.MarshalJSON`
unfoldable pub marshal_resource : Resource → Str
marshal_resource r = join colon r

unfoldable pub marshal_action : Action → Str
marshal_action a = join colon a

-- `Resource.UnmarshalJSON`, `Action.UnmarshalJSON`
unfoldable pub unmarshal_resource : (decode : Str → Result Error Str) → Str → Result Error Resource
unmarshal_resource decode d = do s ← decode d; parse_resource s

unfoldable pub unmarshal_action : (decode : Str → Result Error Str) → Str → Result Error Action
unmarshal_action decode d = do s ← decode d; parse_action s

-- The loop of `Resource.Contains`; `same_length` is the result behind the loop. The receiver is
-- not longer than `b`, so the third clause is not reached.
unfoldable pub resource_loop : Str → Bool → Resource → Resource → Bool
resource_loop user same_length [] bs = same_length
resource_loop user same_length (a ∷ as') (b ∷ bs) =
    let rest = resource_loop user same_length as' bs in
    if str_eq a match_all
    then true
    else if str_eq a match_subject && str_eq b user
    then rest
    else if not (str_eq b a)
    then false
    else rest
resource_loop user same_length (a ∷ as') [] = false

unfoldable pub resource_contains : Resource → Resource → Str → Bool
resource_contains r b user =
    if ltb (length b) (length r) then false else resource_loop user (length r == length b) r b

unfoldable pub resources_contain : List Resource → Resource → Str → Bool
resources_contain rs b user = any (λ r. resource_contains r b user) rs

-- The loop of `Action.Contains`, as above.
unfoldable pub action_loop : Bool → Action → Action → Bool
action_loop same_length [] bs = same_length
action_loop same_length (a ∷ as') (b ∷ bs) =
    let rest = action_loop same_length as' bs in
    if str_eq a match_all then true else if not (str_eq b a) then false else rest
action_loop same_length (a ∷ as') [] = false

unfoldable pub action_contains : Action → Action → Bool
action_contains a b =
    if ltb (length b) (length a) then false else action_loop (length a == length b) a b

unfoldable pub actions_contain : List Action → Action → Bool
actions_contain as' b = any (λ a. action_contains a b) as'

-- The test of one rule in `Enforce`.
unfoldable pub rule_allows : Subject → Resource → Action → Rule → Bool
rule_allows subject rsc act rule =
    str_eq rule.effect effect_allow
    && (str_eq rule.subject subject.id || str_eq rule.subject match_all)
    && resources_contain rule.resources rsc subject.peername
    && actions_contain rule.actions act

unfoldable pub enforce : AccessPolicy → Subject → Str → Str → Result Error (Unit {0})
enforce pol subject resource action = do
  rsc ← parse_resource resource
  act ← parse_action action
  if any (rule_allows subject rsc act) pol then ok tt else err access_denied

-- `ResourceStrFromRef`, on the two fields of the reference that it reads.
unfoldable pub resource_str_from_ref : (username name : Str) → Str
resource_str_from_ref username name = join colon (str "dataset" ∷ username ∷ name ∷ [])
