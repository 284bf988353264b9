-- ===== src/Friendly/Tests.antt =====
-- Runs on small differences.
use qri.Base.{◌≡◌, refl, ◌∷◌, ◌++◌, false, Str, str, ok, none, some}
use qri.Base.Decimal.{digits, itoa}
use qri.Friendly.Changes.{
  Deltas, delta, no_deltas, more_deltas, context_op, delete_op, insert_op, update_op, preprocess,
  processed_all, combined, build_component_changes, head_changes, component_changes_of,
  build_changes, join_path, past_tense, build_body_changes, count_change,
}
use qri.Friendly.Message.{diff_descriptions, tell, words_of, on_lines, listed, join_and}

-- A title is removed and added again, and a header row changes.
abbrev meta_and_structure : Deltas
meta_and_structure =
    more_deltas
      (delta context_op (str "meta") none (
        more_deltas (delta delete_op (str "title") none no_deltas)
          (more_deltas (delta insert_op (str "title") none no_deltas) no_deltas)))
      (more_deltas
        (delta context_op (str "structure") none (
          more_deltas
            (delta context_op (str "formatConfig") none
              (more_deltas (delta update_op (str "headerRow") none no_deltas) no_deltas))
            no_deltas))
        no_deltas)

tells_two_components :
    diff_descriptions meta_and_structure no_deltas none false
    ≡ ok (
      str "updated meta and structure",
      str "meta:"
          ++ (10 ∷ 9 ∷ str "updated title"
              ++ (10 ∷ str "structure:" ++ (10 ∷ 9 ∷ str "updated formatConfig.headerRow"))),
    )
unfolding diff_descriptions build_component_changes preprocess processed_all combined head_changes
    component_changes_of build_changes join_path past_tense build_body_changes count_change tell
    words_of on_lines listed join_and itoa digits
tells_two_components = refl

-- Four rows that change are told as a percentage.
abbrev row : Str → Deltas → Deltas
row n = more_deltas (delta update_op n (some 4) no_deltas)

tells_percentage :
    diff_descriptions no_deltas
      (row (str "0") (row (str "1") (row (str "2") (row (str "3") no_deltas))))
      (some (record { left = 40; right = 30 }))
      false
    ≡ ok (str "body changed by 50%", str "body:" ++ (10 ∷ 9 ∷ str "changed by 50%"))
unfolding diff_descriptions build_component_changes preprocess processed_all combined head_changes
    component_changes_of build_changes join_path past_tense build_body_changes count_change tell
    words_of on_lines listed join_and itoa digits
tells_percentage = refl
