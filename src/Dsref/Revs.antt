-- ===== src/Dsref/Revs.antt =====
-- Runs of the parser of revisions.
use qri.Base.{◌≡◌, refl, [], ◌∷◌, str, ok, err}
use qri.Base.{split}
use qri.Base.Int.{pos}
use qri.Base.Decimal.{value_from}
use qri.Dsref.Rev.{natural, atoi, new_all_revisions, parse_rev, parse_each, parse_revs}

parses_list :
    parse_revs (str "all,12,meta")
    ≡ ok (
        new_all_revisions
        ∷ record { field = str "ds"; gen = pos 12 }
        ∷ record { field = str "md"; gen = pos 1 }
        ∷ [])
unfolding parse_revs parse_each parse_rev atoi natural value_from split new_all_revisions
parses_list = refl

minus_one_is_all : parse_rev (str "-1") ≡ ok new_all_revisions
unfolding parse_rev atoi natural value_from new_all_revisions
minus_one_is_all = refl

refuses_unknown : parse_revs (str "ds,x") ≡ err (str "x")
unfolding parse_revs parse_each parse_rev atoi natural value_from split
refuses_unknown = refl
