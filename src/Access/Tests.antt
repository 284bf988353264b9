-- ===== src/Access/Tests.antt =====
-- The access theorems at concrete policies.
use qri.Base.{◌≡◌, refl, ◌↔◌, [], ◌∷◌, str, ok, err, arith, All, Some, split, ◌≢◌, str_eq_iff, true}
use qri.Access.Defs.{
  Resource, Action, Rule, Subject, match_all, match_subject, effect_allow, effect_deny, check_stars,
  parse_resource, parse_action, marshal_resource, resource_contains, resource_loop, action_contains,
  action_loop, resources_contain, actions_contain, rule_allows, enforce, access_denied,
}
use qri.Access.Pattern.{StarLast, Covers, resource_contains_iff, parse_resource-marshal}
use qri.Access.Policy.{IsWellFormed, Grants, enforce_iff}

abbrev owners : Rule
owners = record {
  title = str "owners push";
  subject = match_all;
  resources = (str "dataset" ∷ match_subject ∷ match_all ∷ []) ∷ [];
  actions = (str "remote" ∷ str "push" ∷ []) ∷ [];
  effect = effect_allow;
}

abbrev no_pushes : Rule
no_pushes = record owners { effect = effect_deny }

abbrev lena : Subject
lena = record { id = str "QmLena"; peername = str "lena" }

lena_pushes : enforce (owners ∷ []) lena (str "dataset:lena:cities") (str "remote:push") ≡ ok tt
unfolding enforce parse_resource parse_action check_stars split rule_allows resources_contain
    resource_contains resource_loop actions_contain action_contains action_loop
lena_pushes = refl

-- A rule that denies is skipped.
denial_skipped :
    enforce (owners ∷ no_pushes ∷ []) lena (str "dataset:lena:cities") (str "remote:push") ≡ ok tt
unfolding enforce parse_resource parse_action check_stars split rule_allows resources_contain
    resource_contains resource_loop actions_contain action_contains action_loop
denial_skipped = refl

lena_pushes_other :
    enforce (owners ∷ []) lena (str "dataset:omar:cities") (str "remote:push") ≡ err access_denied
unfolding enforce parse_resource parse_action check_stars split rule_allows resources_contain
    resource_contains resource_loop actions_contain action_contains action_loop
lena_pushes_other = refl

owners-IsWellFormed : All IsWellFormed (owners ∷ [])
owners-IsWellFormed = ground (
  arith,
  str_eq_iff (str "dataset") match_all,
  str_eq_iff match_subject match_all,
  str_eq_iff (str "remote") match_all,
)

enforce_iff_example :
    (enforce (owners ∷ []) lena (str "dataset:lena:cities") (str "remote:push") ≡ ok tt) ↔ (
      (rsc : Resource) × (act : Action) × (parse_resource (str "dataset:lena:cities") ≡ ok rsc)
      × (parse_action (str "remote:push") ≡ ok act)
      × Some (Grants lena rsc act) (owners ∷ []))
enforce_iff_example =
    enforce_iff (owners ∷ []) lena (str "dataset:lena:cities") (str "remote:push")
      owners-IsWellFormed

resource_contains_iff_example :
    (resource_contains
        (str "dataset" ∷ match_all ∷ [])
        (str "dataset" ∷ str "a" ∷ str "b" ∷ [])
        (str "u")
      ≡ true)
    ↔ Covers (str "u") (str "dataset" ∷ match_all ∷ []) (str "dataset" ∷ str "a" ∷ str "b" ∷ [])
resource_contains_iff_example =
    resource_contains_iff (str "u") (str "dataset" ∷ match_all ∷ [])
      (str "dataset" ∷ str "a" ∷ str "b" ∷ [])
      (ground (arith, str_eq_iff (str "dataset") match_all))

parse_resource-marshal_example :
    (marshal_resource (str "a" ∷ match_all ∷ []) ≡ str "a:*")
    × StarLast (str "a" ∷ match_all ∷ [])
    × (str "a:*" ≢ [])
unfolding parse_resource check_stars split
parse_resource-marshal_example =
    parse_resource-marshal (str "a:*") {r = str "a" ∷ match_all ∷ []} refl
