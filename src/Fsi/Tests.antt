-- ===== src/Fsi/Tests.antt =====
-- The status of small directories.
use qri.Base.{
  ◌≡◌, refl, ◌↔◌, [], ◌∷◌, Bool, All, Str, str, str_eq, ok, Option, some, map, true, Bool-cases,
  inl, inr,
}
use qri.Base.Int.{pos}
use qri.Base.Assoc.{lookup}
use qri.Fsi.Status.{
  Component, StatusItem, Subcomponents, all_subcomponent_names, name_status, name_statuses,
  calculate_state_transition, status, is_working_directory_clean,
}
use qri.Fsi.Clean.{Same, NoProblem, ProblemIsNamed, clean_iff}

abbrev holding : Str → Component Str
holding s = record { value = s; problem_kind = []; source_file = str "f"; mod_time = pos 1 }

abbrev texts_equal : Component Str → Component Str → Option Bool
texts_equal p c = some (str_eq p.value c.value)

abbrev stored : Subcomponents Str
stored = (str "meta", holding (str "a")) ∷ (str "body", holding (str "b")) ∷ []

abbrev edited : Subcomponents Str
edited = (str "meta", holding (str "c")) ∷ (str "readme", holding (str "d")) ∷ []

sees_changes :
    map {B = Str × Str}
      (λ (i : StatusItem). (i.component, i.item_type))
      (calculate_state_transition texts_equal stored edited)
    ≡ (str "meta", str "modified") ∷ (str "readme", str "add") ∷ (str "body", str "removed") ∷ []
unfolding calculate_state_transition name_statuses name_status
sees_changes = refl

abbrev only_meta : Subcomponents Str
only_meta = (str "meta", holding (str "a")) ∷ []

no_problems : (name : Str) → ProblemIsNamed texts_equal (lookup name only_meta)
no_problems name = elim (Bool-cases (str_eq (str "meta") name)) [
  | inl e ↦ rw e (λ h. cc)
  | inr d ↦ rw d tt
]

clean_iff_example :
    (is_working_directory_clean (status texts_equal true (ok only_meta) (ok only_meta)) ≡ ok tt) ↔ (
      NoProblem texts_equal (lookup (str "dataset") only_meta)
      × All
          (λ name. Same texts_equal (lookup name only_meta) (lookup name only_meta))
          all_subcomponent_names)
clean_iff_example = clean_iff texts_equal only_meta only_meta no_problems
