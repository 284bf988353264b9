-- ===== src/Access/Policy.antt =====
-- What `Policy.Enforce` grants, in terms of what patterns cover.
use qri.Base.{
  ◌≡◌, refl, ◌≢◌, ◌↔◌, ◌⊎◌, inl, inr, List, [], ◌∷◌, ◌++◌, true, false, Str, str, str_eq_iff, ok,
  arith, All, Some, any, any_iff, any-append, sym, ◌∙◌, ok_injective, Result-cases,
}
use qri.Access.Defs.{
  Error, Resource, Action, Rule, AccessPolicy, Subject, match_all, match_subject, effect_allow,
  effect_deny, parse_resource, parse_action, resource_contains, resource_loop, action_contains,
  resources_contain, actions_contain, rule_allows, enforce, validate,
}
use qri.Access.Pattern.{StarLast, Covers, CoversAction, resource_contains_iff, action_contains_iff}

-- What `UnmarshalJSON` of a resource and of an action lets through.
abbrev pub IsWellFormed : Rule → Type 0
IsWellFormed rule = All StarLast rule.resources × All StarLast rule.actions

-- The rule gives the subject the action on the resource.
abbrev pub Grants : Subject → Resource → Action → Rule → Type 0
Grants subject rsc act rule =
    (rule.effect ≡ effect_allow)
    × ((rule.subject ≡ subject.id) ⊎ (rule.subject ≡ match_all))
    × Some (λ r. Covers subject.peername r rsc) rule.resources
    × Some (λ a. CoversAction a act) rule.actions

resources_contain_iff :
    (user : Str) (b : Resource) (rs : List Resource)
    → All StarLast rs
    → (resources_contain rs b user ≡ true) ↔ Some (λ r. Covers user r b) rs
unfolding resources_contain
resources_contain_iff user b rs w =
    any_iff (λ r. resource_contains r b user) (λ r. Covers user r b) StarLast
      (λ r s. resource_contains_iff user r b s) rs w

actions_contain_iff :
    (b : Action) (as' : List Action)
    → All StarLast as'
    → (actions_contain as' b ≡ true) ↔ Some (λ a. CoversAction a b) as'
unfolding actions_contain
actions_contain_iff b as' w =
    any_iff (λ a. action_contains a b) (λ a. CoversAction a b) StarLast
      (λ a s. action_contains_iff a b s) as' w

rule_allows_iff :
    (subject : Subject) (rsc : Resource) (act : Action) (rule : Rule)
    → IsWellFormed rule
    → (rule_allows subject rsc act rule ≡ true) ↔ Grants subject rsc act rule
unfolding rule_allows
rule_allows_iff subject rsc act rule w = ground (
  arith,
  str_eq_iff rule.effect effect_allow,
  str_eq_iff rule.subject subject.id,
  str_eq_iff rule.subject match_all,
  resources_contain_iff subject.peername rsc rule.resources w.0,
  actions_contain_iff act rule.actions w.1,
)

allowed_iff :
    (pol : AccessPolicy) (subject : Subject) (rsc : Resource) (act : Action)
    → All IsWellFormed pol
    → (any (rule_allows subject rsc act) pol ≡ true) ↔ Some (Grants subject rsc act) pol
allowed_iff pol subject rsc act w =
    any_iff (rule_allows subject rsc act) (Grants subject rsc act) IsWellFormed
      (rule_allows_iff subject rsc act) pol w

-- A request is allowed exactly when both of its texts parse and some rule of the policy grants
-- it. The policy's patterns are those that the parsers accept.
pub enforce_iff :
    (pol : AccessPolicy) (subject : Subject) (resource action : Str)
    → All IsWellFormed pol
    → (enforce pol subject resource action ≡ ok tt) ↔ (
        (rsc : Resource) × (act : Action) × (parse_resource resource ≡ ok rsc)
        × (parse_action action ≡ ok act)
        × Some (Grants subject rsc act) pol)
unfolding enforce
enforce_iff pol subject resource action w = elim (Result-cases (parse_resource resource)) [
  | inl (rsc, p) ↦ elim (Result-cases (parse_action action)) [
    | inl (act, q) ↦
        let (sound, complete) = allowed_iff pol subject rsc act w in
        (
          λ h. (rsc, act, p, q, sound (ground arith)),
          λ g.
              rw
                (
                  p,
                  q,
                  complete (
                      rw
                        (
                          ok_injective {E = Error} (sym p ∙ g.2),
                          ok_injective {E = Error} (sym q ∙ g.3),
                        )
                        g.4),
                )
                refl,
        )
    | inr e ↦ (λ h. ground arith, λ g. ground (arith, g.3))
  ]
  | inr e ↦ (λ h. ground arith, λ g. ground (arith, g.2))
]

deny_allows :
    (subject : Subject) (d : Rule)
    → d.effect ≡ effect_deny
    → (rsc : Resource) (act : Action) → rule_allows subject rsc act d ≡ false
unfolding rule_allows
deny_allows subject d h rsc act = rw h

-- A rule that denies changes no answer, wherever it stands in the policy.
pub enforce-append_deny :
    (before after : AccessPolicy) (d : Rule) (subject : Subject) (resource action : Str)
    → d.effect ≡ effect_deny
    → enforce (before ++ d ∷ after) subject resource action
      ≡ enforce (before ++ after) subject resource action
unfolding enforce
enforce-append_deny before after d subject resource action h =
    simp (any-append, deny_allows subject d h)

-- Adding rules, before or behind, takes nothing away.
pub enforce-append_mono :
    (before pol after : AccessPolicy) (subject : Subject) (resource action : Str)
    → enforce pol subject resource action ≡ ok tt
    → enforce (before ++ (pol ++ after)) subject resource action ≡ ok tt
unfolding enforce
enforce-append_mono before pol after subject resource action h =
    elim (Result-cases (parse_resource resource)) [
      | inl (rsc, p) ↦ elim (Result-cases (parse_action action)) [
        | inl (act, q) ↦
            rw (p, q)
              (ground (
                arith,
                any-append (rule_allows subject rsc act) before (pol ++ after),
                any-append (rule_allows subject rsc act) pol after,
              ))
        | inr e ↦ ground arith
      ]
      | inr e ↦ ground arith
    ]

-- `Validate` accepts a rule exactly when it has a subject, one of the two effects, at least one
-- resource and at least one action.
pub validate_iff :
    (r : Rule)
    → (validate r ≡ ok tt) ↔ (
        (r.subject ≢ [])
        × ((r.effect ≡ effect_allow) ⊎ (r.effect ≡ effect_deny))
        × (r.resources ≢ [])
        × (r.actions ≢ []))
unfolding validate
validate_iff r = ground (
  arith,
  str_eq_iff r.subject [],
  str_eq_iff r.effect effect_allow,
  str_eq_iff r.effect effect_deny,
)

-- The rule "dataset:_subject:*" lets a subject at the datasets of its own name, and at no
-- other user's, but for a user that is called "_subject".
pub owner_rule_iff :
    (user username name : Str)
    → (resource_contains
          (str "dataset" ∷ match_subject ∷ match_all ∷ [])
          (str "dataset" ∷ username ∷ name ∷ [])
          user
        ≡ true)
      ↔ ((username ≡ user) ⊎ (username ≡ match_subject))
unfolding resource_contains resource_loop
owner_rule_iff user username name =
    ground (arith, str_eq_iff username user, str_eq_iff username match_subject)
