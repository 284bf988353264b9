-- ===== src/Access/Pattern.antt =====
-- Resource and action patterns: what the parsers accept, and what a pattern covers.
use qri.Base.{
  suc, ◌≡◌, refl, ◌≢◌, ◌↔◌, ◌⊎◌, List, [], ◌∷◌, ◌≤◌, ap, Bool, true, false, Str, str_eq_iff, ok,
  length, arith, split, join, join-split, split-join, All, Without, ◌==◌,
}
use qri.Access.Defs.{
  Resource, Action, match_all, match_subject, colon, check_stars, parse_resource, marshal_resource,
  resource_loop, resource_contains, action_loop, action_contains,
}

-- A '*' stands at the end or nowhere.
abbrev pub StarLast : List Str → Type 0
StarLast [] = Unit
StarLast (a ∷ []) = Unit
StarLast (a ∷ b ∷ r) = (a ≢ match_all) × StarLast (b ∷ r)

check_stars_found : (r : List Str) → check_stars true r ≡ ok tt → r ≡ []
unfolding check_stars
check_stars_found [] h = refl
check_stars_found (a ∷ r) h = ground (arith, str_eq_iff a match_all)

pub check_stars-StarLast : (r : List Str) → check_stars false r ≡ ok tt → StarLast r
unfolding check_stars
check_stars-StarLast [] h = tt
check_stars-StarLast (a ∷ []) h = tt
check_stars-StarLast (a ∷ b ∷ r) h =
    ground (arith, str_eq_iff a match_all, str_eq_iff b match_all, check_stars-StarLast (b ∷ r))

pub StarLast-check_stars : (r : List Str) → StarLast r → check_stars false r ≡ ok tt
unfolding check_stars
StarLast-check_stars [] h = refl
StarLast-check_stars (a ∷ []) h = ground arith
StarLast-check_stars (a ∷ b ∷ r) h =
    ground (arith, str_eq_iff a match_all, StarLast-check_stars (b ∷ r))

-- The names that a request may have, place by place: '*' covers all that is left, at least one
-- name; '_subject' covers the name of the subject; every name covers itself.
abbrev pub Covers : Str → Resource → Resource → Type 0
Covers user [] [] = Unit
Covers user [] (b ∷ bs) = ⊥
Covers user (a ∷ r) [] = ⊥
Covers user (a ∷ r) (b ∷ bs) =
    ((a ≡ match_all) × (r ≡ []))
    ⊎ (((a ≡ b) ⊎ ((a ≡ match_subject) × (b ≡ user))) × Covers user r bs)

-- `same` is the test behind the loop, which says whether the lengths are equal.
module _ (user : Str) (same : Bool) where
  resource_loop_sound :
      (r bs : Resource)
      → (same ≡ true → length r ≡ length bs)
      → resource_loop user same r bs ≡ true
      → StarLast r
      → Covers user r bs
  unfolding resource_loop
  resource_loop_sound [] [] e h s = tt
  resource_loop_sound [] (b ∷ bs) e h s = absurd (omega (arith, e h))
  resource_loop_sound (a ∷ r) [] e h s = cc
  resource_loop_sound (a ∷ []) (b ∷ bs) e h s = ground (
    arith,
    str_eq_iff a match_all,
    str_eq_iff a match_subject,
    str_eq_iff b user,
    str_eq_iff b a,
    resource_loop_sound [] bs (λ p. omega (arith, e p)),
  )
  resource_loop_sound (a ∷ c ∷ r) (b ∷ bs) e h s = ground (
    arith,
    str_eq_iff a match_all,
    str_eq_iff a match_subject,
    str_eq_iff b user,
    str_eq_iff b a,
    resource_loop_sound (c ∷ r) bs (λ p. omega (arith, e p)),
  )

  resource_loop_complete :
      (r bs : Resource)
      → (length r ≡ length bs → same ≡ true)
      → Covers user r bs
      → resource_loop user same r bs ≡ true
  unfolding resource_loop
  resource_loop_complete [] [] e h = e refl
  resource_loop_complete [] (b ∷ bs) e h = absurd h
  resource_loop_complete (a ∷ r) [] e h = absurd h
  resource_loop_complete (a ∷ r) (b ∷ bs) e h = ground (
    arith,
    str_eq_iff a match_all,
    str_eq_iff a match_subject,
    str_eq_iff b user,
    str_eq_iff b a,
    resource_loop_complete r bs (λ p. e (ap suc p)),
  )

length-le_of_Covers : (user : Str) (r bs : Resource) → Covers user r bs → length r ≤ length bs
length-le_of_Covers user [] bs h = omega arith
length-le_of_Covers user (a ∷ r) [] h = absurd h
length-le_of_Covers user (a ∷ []) (b ∷ bs) h = omega arith
length-le_of_Covers user (a ∷ c ∷ r) (b ∷ bs) h =
    ground (arith, length-le_of_Covers user (c ∷ r) bs)

-- On a resource whose only '*' is its last name, `Contains` decides exactly `Covers`.
pub resource_contains_iff :
    (user : Str) (r b : Resource)
    → StarLast r
    → (resource_contains r b user ≡ true) ↔ Covers user r b
unfolding resource_contains
resource_contains_iff user r b s = (
  λ h. resource_loop_sound user (length r == length b) r b (λ e. ground arith) (ground arith) s,
  λ h. ground (
    arith,
    length-le_of_Covers user r b h,
    resource_loop_complete user (length r == length b) r b (λ e. ground arith) h,
  ),
)

-- The same for `Action.Contains`, whose patterns have no '_subject'.
abbrev pub CoversAction : Action → Action → Type 0
CoversAction [] [] = Unit
CoversAction [] (b ∷ bs) = ⊥
CoversAction (a ∷ r) [] = ⊥
CoversAction (a ∷ r) (b ∷ bs) = ((a ≡ match_all) × (r ≡ [])) ⊎ ((a ≡ b) × CoversAction r bs)

module _ (same : Bool) where
  action_loop_sound :
      (r bs : Action)
      → (same ≡ true → length r ≡ length bs)
      → action_loop same r bs ≡ true
      → StarLast r
      → CoversAction r bs
  unfolding action_loop
  action_loop_sound [] [] e h s = tt
  action_loop_sound [] (b ∷ bs) e h s = absurd (omega (arith, e h))
  action_loop_sound (a ∷ r) [] e h s = cc
  action_loop_sound (a ∷ []) (b ∷ bs) e h s = ground (
    arith,
    str_eq_iff a match_all,
    str_eq_iff b a,
    action_loop_sound [] bs (λ p. omega (arith, e p)),
  )
  action_loop_sound (a ∷ c ∷ r) (b ∷ bs) e h s = ground (
    arith,
    str_eq_iff a match_all,
    str_eq_iff b a,
    action_loop_sound (c ∷ r) bs (λ p. omega (arith, e p)),
  )

  action_loop_complete :
      (r bs : Action)
      → (length r ≡ length bs → same ≡ true)
      → CoversAction r bs
      → action_loop same r bs ≡ true
  unfolding action_loop
  action_loop_complete [] [] e h = e refl
  action_loop_complete [] (b ∷ bs) e h = absurd h
  action_loop_complete (a ∷ r) [] e h = absurd h
  action_loop_complete (a ∷ r) (b ∷ bs) e h =
      ground (
        arith,
        str_eq_iff a match_all,
        str_eq_iff b a,
        action_loop_complete r bs (λ p. e (ap suc p)),
      )

length-le_of_CoversAction : (r bs : Action) → CoversAction r bs → length r ≤ length bs
length-le_of_CoversAction [] bs h = omega arith
length-le_of_CoversAction (a ∷ r) [] h = absurd h
length-le_of_CoversAction (a ∷ []) (b ∷ bs) h = omega arith
length-le_of_CoversAction (a ∷ c ∷ r) (b ∷ bs) h =
    ground (arith, length-le_of_CoversAction (c ∷ r) bs)

-- On an action whose only '*' is its last name, `Contains` decides exactly `CoversAction`.
pub action_contains_iff :
    (a b : Action) → StarLast a → (action_contains a b ≡ true) ↔ CoversAction a b
unfolding action_contains
action_contains_iff a b s = (
  λ h. action_loop_sound (length a == length b) a b (λ e. ground arith) (ground arith) s,
  λ h. ground (
    arith,
    length-le_of_CoversAction a b h,
    action_loop_complete (length a == length b) a b (λ e. ground arith) h,
  ),
)

parse_resource_parts :
    (s : Str) {r : Resource}
    → parse_resource s ≡ ok r
    → (s ≢ []) × (check_stars false (split colon s) ≡ ok tt) × (split colon s ≡ r)
unfolding parse_resource
parse_resource_parts s h = ground (arith, str_eq_iff s [])

-- What `ParseResource` accepts is the text split at its colons, with '*' only at the end, and it
-- marshals back to the text.
pub parse_resource-marshal :
    (s : Str) {r : Resource}
    → parse_resource s ≡ ok r
    → (marshal_resource r ≡ s) × StarLast r × (s ≢ [])
unfolding parse_resource marshal_resource
parse_resource-marshal s {r} h =
    let (ne, stars, parts) = parse_resource_parts s h in
    rw (← parts) (join-split colon s, check_stars-StarLast (split colon s) stars, ne)

-- A resource of at least one name, not all of it the empty text, whose names hold no colon and
-- whose only '*' is its last name, is read back from its text.
pub marshal-parse_resource :
    (a : Str) (r : Resource)
    → All (Without colon) (a ∷ r)
    → StarLast (a ∷ r)
    → marshal_resource (a ∷ r) ≢ []
    → parse_resource (marshal_resource (a ∷ r)) ≡ ok (a ∷ r)
unfolding parse_resource marshal_resource
marshal-parse_resource a r w s ne =
    rw (split-join colon a r w, StarLast-check_stars (a ∷ r) s)
      (ground (arith, str_eq_iff (join colon (a ∷ r)) []))
