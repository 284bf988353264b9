-- ===== src/Fsi/Clean.antt =====
-- fsi/status.go: when a working directory is clean.
use qri.Base.{
  ◌≡◌, refl, ◌≢◌, ◌↔◌, List, [], ◌∷◌, ◌++◌, Bool, true, false, not, ◌&&◌, all, All, Str, str,
  str_eq, str_eq_iff, ok, reject, is_empty, if◌then◌else◌, Option, none, some, arith,
}
use qri.Base.Assoc.{lookup}
use qri.Fsi.Status.{
  Component, StatusItem, Subcomponents, st_unmodified, st_add, item_of, compared, unmodified,
  dataset_problem, name_status, name_statuses, all_subcomponent_names, calculate_state_transition,
  status, is_working_directory_clean,
}

all-append :
    (p : StatusItem → Bool) (xs ys : List StatusItem)
    → (all p (xs ++ ys) ≡ true) ↔ ((all p xs ≡ true) × (all p ys ≡ true))
all-append p [] ys = (λ h. (refl, h), λ h. h.1)
all-append p (x ∷ xs) ys = ground (arith, all-append p xs ys)

compared-unmodified :
    (r : Option Bool) → (str_eq (compared r) st_unmodified ≡ true) ↔ (r ≡ some true)
compared-unmodified none = ground arith
compared-unmodified (some true) = ground arith
compared-unmodified (some false) = ground arith

reject-ok : (b : Bool) (e : Str) → (reject (not b) e ≡ ok tt) ↔ (b ≡ true)
reject-ok true e = (λ h. refl, λ h. refl)
reject-ok false e = (λ h. cc, λ h. cc)

module _ {V : Type 0} (compare : Component V → Component V → Option Bool) where
  -- A component is the same in both: absent, or present, without a problem and equal.
  abbrev pub Same : Option (Component V) → Option (Component V) → Type 0
  Same none none = Unit
  Same (some p) none = ⊥
  Same none (some c) = ⊥
  Same (some p) (some c) = (c.problem_kind ≡ []) × (compare p c ≡ some true)

  -- The kind of a problem is not the text for an unmodified component.
  abbrev pub ProblemIsNamed : Option (Component V) → Type 0
  ProblemIsNamed none = Unit
  ProblemIsNamed (some c) = c.problem_kind ≢ st_unmodified

  abbrev pub NoProblem : Option (Component V) → Type 0
  NoProblem none = Unit
  NoProblem (some c) = c.problem_kind ≡ []

  item-unmodified :
      (k : Str) (c : Component V) (name kind : Str)
      → k ≢ st_unmodified
      → ((unmodified (if is_empty k then item_of name kind c else item_of name k c) && true) ≡ true)
        ↔ ((k ≡ []) × (str_eq kind st_unmodified ≡ true))
  item-unmodified [] c name kind w = (λ h. (refl, ground arith), λ h. ground arith)
  item-unmodified (x ∷ xs) c name kind w =
      (λ h. absurd (w ((str_eq_iff (x ∷ xs) st_unmodified).0 (ground arith))), λ h. cc)

  name_status-Same :
      (name : Str) (before next : Option (Component V))
      → ProblemIsNamed next
      → (all unmodified (name_status compare name before next) ≡ true) ↔ Same before next
  unfolding name_status
  name_status-Same name none none w = (λ h. tt, λ h. refl)
  name_status-Same name (some p) none w = (λ h. cc, λ h. absurd h)
  name_status-Same name none (some c) w =
      let kind = item-unmodified c.problem_kind c name st_add w in
      (λ h. cc ((kind.0 h).1), λ h. absurd h)
  name_status-Same name (some p) (some c) w =
      let kind = item-unmodified c.problem_kind c name (compared (compare p c)) w in
      let same = compared-unmodified (compare p c) in
      (λ h. ((kind.0 h).0, same.0 (kind.0 h).1), λ h. kind.1 (h.0, same.1 h.1))

  name_statuses-Same :
      (names : List Str) (prev next : Subcomponents V)
      → ((name : Str) → ProblemIsNamed (lookup name next))
      → (all unmodified (name_statuses compare names prev next) ≡ true)
        ↔ All (λ name. Same (lookup name prev) (lookup name next)) names
  unfolding name_statuses
  name_statuses-Same [] prev next w = (λ h. tt, λ h. refl)
  name_statuses-Same (name ∷ names) prev next w =
      let split =
        all-append unmodified (name_status compare name (lookup name prev) (lookup name next))
          (name_statuses compare names prev next) in
      let here = name_status-Same name (lookup name prev) (lookup name next) (w name) in
      let later = name_statuses-Same names prev next w in
      (λ h. (here.0 (split.0 h).0, later.0 (split.0 h).1), λ h. split.1 (here.1 h.0, later.1 h.1))

  problem-unmodified :
      (k : Str) (c : Component V) (name : Str)
      → k ≢ st_unmodified
      → (all unmodified (if is_empty k then [] else item_of name k c ∷ []) ≡ true) ↔ (k ≡ [])
  problem-unmodified [] c name w = (λ h. refl, λ h. refl)
  problem-unmodified (x ∷ xs) c name w =
      (λ h. absurd (w ((str_eq_iff (x ∷ xs) st_unmodified).0 (ground arith))), λ h. cc)

  dataset_problem-NoProblem :
      (c : Option (Component V))
      → ProblemIsNamed c
      → (all unmodified (dataset_problem c) ≡ true) ↔ NoProblem c
  dataset_problem-NoProblem none w = (λ h. tt, λ h. refl)
  dataset_problem-NoProblem (some c) w = problem-unmodified c.problem_kind c (str "dataset") w

  -- A linked directory whose version and components could be read is clean exactly when the dataset
  -- file has no problem and each component is the same in both: absent from both, or present in both,
  -- without a problem and equal. No kind of problem may be called "unmodified".
  pub clean_iff :
      (prev next : Subcomponents V)
      → ((name : Str) → ProblemIsNamed (lookup name next))
      → (is_working_directory_clean (status compare true (ok prev) (ok next)) ≡ ok tt) ↔ (
          NoProblem (lookup (str "dataset") next)
          × All (λ name. Same (lookup name prev) (lookup name next)) all_subcomponent_names)
  unfolding is_working_directory_clean status calculate_state_transition
  clean_iff prev next w =
      let items = calculate_state_transition compare prev next in
      let clean = reject-ok (all unmodified items) (str "working directory is dirty") in
      let split =
        all-append unmodified (dataset_problem (lookup (str "dataset") next))
          (name_statuses compare all_subcomponent_names prev next) in
      let problem = dataset_problem-NoProblem (lookup (str "dataset") next) (w (str "dataset")) in
      let names = name_statuses-Same all_subcomponent_names prev next w in
      (
        λ h. (problem.0 (split.0 (clean.0 h)).0, names.0 (split.0 (clean.0 h)).1),
        λ h. clean.1 (split.1 (problem.1 h.0, names.1 h.1)),
      )
