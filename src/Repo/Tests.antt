-- ===== src/Repo/Tests.antt =====
-- Runs of the store on small data.
use qri.Repo.Ref.{absolute}
use qri.Repo.Parse.{
  malformed, parse_dataset_ref, cut_at, parts, parse_alias, parse_identifiers, identifiers,
}
use qri.Repo.Absolute.{full_ref, parse-absolute}
use qri.Base.{
  ℕ, Option, none, some, str_eq, split, if◌then◌else◌, arith, ◌≡◌, refl, List, [], ◌∷◌, Bool, Str,
  str, ok, panic, ◌>>=◌,
}
use qri.Base.Reorder.{Reordered-refl}
use qri.Repo.Ref.{DatasetRef, empty_dataset_ref}
use qri.Repo.Refstore.{check_complete, get_ref, put_ref, refs_page, references_from}
use qri.Repo.Put.{get_ref-put_ref}

abbrev in_order : (DatasetRef ℕ → DatasetRef ℕ → Bool) → List (DatasetRef ℕ) → List (DatasetRef ℕ)
in_order less rs = rs

abbrev ref_to : Str → Str → DatasetRef ℕ
ref_to name path = record empty_dataset_ref {
  peername = str "me";
  profile_id = str "p";
  name = name;
  path = path;
}

abbrev store : List (DatasetRef ℕ)
store = ref_to (str "a") (str "/x") ∷ ref_to (str "b") (str "/y") ∷ []

check_new : check_complete (ref_to (str "b") (str "/z")) ≡ ok tt
unfolding check_complete
check_new = refl

second_page : refs_page 1 5 store ≡ ok (ref_to (str "b") (str "/y") ∷ [])
unfolding refs_page references_from
second_page = refl

panics_behind_end : refs_page 3 5 store ≡ panic
unfolding refs_page references_from
panics_behind_end = refl

get_ref-put_ref_example :
    (put_ref in_order (ref_to (str "b") (str "/z")) store >>= get_ref (ref_to (str "b") (str "/z")))
    ≡ ok (ref_to (str "b") (str "/z"))
get_ref-put_ref_example =
    get_ref-put_ref in_order (λ less us. Reordered-refl us) (ref_to (str "b") (str "/z")) store
      check_new

abbrev known_id : Str → Option Str
known_id s = if str_eq s (str "QmMe") then some (str "p") else none

abbrev looks_hashed : Str → Bool
looks_hashed s = str_eq s (str "QmMe")

reads_alias :
    parse_dataset_ref known_id looks_hashed {D = ℕ} (str "me/a")
    ≡ (record empty_dataset_ref { peername = str "me"; name = str "a" }, none)
unfolding parse_dataset_ref cut_at parts split
reads_alias = refl

reads_lone_id :
    parse_dataset_ref known_id looks_hashed {D = ℕ} (str "@QmMe")
    ≡ (record empty_dataset_ref { profile_id = str "p" }, none)
unfolding parse_dataset_ref cut_at parse_alias parse_identifiers identifiers split
reads_lone_id = refl

refuses_slash : (parse_dataset_ref known_id looks_hashed {D = ℕ} (str "/")).1 ≡ some malformed
unfolding parse_dataset_ref cut_at parts split
refuses_slash = refl

parse-absolute_example :
    parse_dataset_ref known_id looks_hashed {D = ℕ} (
      absolute {D = ℕ}
        (λ id. str "QmMe")
        (full_ref (str "me") (str "a") (str "p") (str "ipfs") (str "h")))
    ≡ (full_ref (str "me") (str "a") (str "p") (str "ipfs") (str "h"), none)
parse-absolute_example =
    parse-absolute known_id looks_hashed (λ id. str "QmMe") (str "me") (str "a") (str "p")
      (str "ipfs") (str "h") (ground arith) (ground arith) (ground arith) (ground arith)
      (ground arith) (ground arith) (λ e. cc) (λ e. cc) refl
