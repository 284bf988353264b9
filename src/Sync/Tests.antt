-- ===== src/Sync/Tests.antt =====
-- Runs of the remote on small data.
use qri.Base.{ℕ, ◌≡◌, refl, [], ◌∷◌, true, Str, str, split, join, List, Result, ok, err, none, some}
use qri.Oplog.Op.{Op, op_init, empty_op}
use qri.Oplog.Log
use qri.Oplog.Log.{nil, cons, node, model, name_of, first_op_author_id, last_field}
use qri.Dsref.Ref.{Ref, empty_ref}
use qri.Access.Defs as Access
use qri.Access.Defs.{
  Rule, Subject, match_all, match_subject, effect_allow, enforce, resource_str_from_ref,
  parse_resource, parse_action, check_stars, rule_allows, resources_contain, resource_contains,
  resource_loop, actions_contain, action_contains, action_loop,
}
use qri.Logbook.Book.Defs.{Book}
use qri.Sync.Checks.{check_size, total_size, subj_and_ref_from_meta, ds_push_pre_check}
use qri.Base.Int.{pos, negsuc}
use qri.Logbook.Model.{author_model, dataset_model}
use qri.Sync.Remote.{SyncError, refused, no_data, log_mismatch, Hook, accept, dsref_alias_for_log}

abbrev first : ℕ → Str → Op
first m name = record empty_op {
  op_type = op_init;
  model = m;
  name = name;
  author_id = str "QmLena";
}

abbrev log_of : Op → Log.Logs → Log.Log
log_of o = node (record { name = []; author_id = []; parent_id = []; signature = []; ops = o ∷ [] })

abbrev lena : Log.Log
lena =
    log_of (first author_model (str "lena"))
      (cons (log_of (first dataset_model (str "cities")) nil) nil)

abbrev accepted : Hook → Str → Str → Result SyncError Log.Log
accepted pre_check name data' =
    accept (λ o. o.note) (λ j. true) (λ d. ok lena) (λ l. ok tt) pre_check none
      (record empty_ref { username = str "lena"; name = name; profile_id = str "QmLena" }) data'

accepts_own_log : accepted none (str "cities") (str "log") ≡ ok lena
unfolding accept dsref_alias_for_log model name_of first_op_author_id last_field Log.first_author
accepts_own_log = refl

refuses_other_name : accepted none (str "towns") (str "log") ≡ err log_mismatch
unfolding accept dsref_alias_for_log model name_of first_op_author_id last_field Log.first_author
refuses_other_name = refl

refuses_empty : accepted none (str "cities") [] ≡ err no_data
unfolding accept
refuses_empty = refl

asks_first : accepted (some (λ ref lg. err (str "no"))) (str "cities") [] ≡ err (refused (str "no"))
unfolding accept
asks_first = refl

abbrev visitor : Subject
visitor = record { id = str "QmOmar"; peername = str "omar" }

abbrev own_pushes : Rule
own_pushes = record {
  title = str "owners push";
  subject = match_all;
  resources = (str "dataset" ∷ match_subject ∷ match_all ∷ []) ∷ [];
  actions = (str "remote" ∷ str "push" ∷ []) ∷ [];
  effect = effect_allow;
}

abbrev lenas : Book
lenas = record {
  store = record { id = str "QmLena"; logs = cons lena nil };
  author_id = str "QmLena";
  author_name = str "lena";
  disk = none;
  events = [];
}

abbrev cities : Ref
cities = record empty_ref { username = str "lena"; name = str "cities"; profile_id = str "QmLena" }

abbrev denied_text : Access.Error → Str
denied_text e = str "denied"

size_checks :
    (check_size (pos 0) [] ≡ err (str "not accepting any datasets"))
    × (check_size (pos 5) (2 ∷ 3 ∷ []) ≡ err (str "dataset size too large"))
    × (check_size (pos 6) (2 ∷ 3 ∷ []) ≡ ok tt)
    × (check_size (negsuc 0) (2 ∷ 3 ∷ []) ≡ ok tt)
unfolding check_size total_size
size_checks = (refl, refl, refl, refl)

abbrev meta : List (Str × Str)
meta =
    (str "peername", str "lena")
    ∷ (str "name", str "cities")
    ∷ (str "pid", str "QmOmar")
    ∷ (str "subject_username", str "omar")
    ∷ []

reads_meta :
    subj_and_ref_from_meta ok (λ s. s) meta
    ≡ ok (
      visitor,
      record empty_ref { username = str "lena"; name = str "cities"; profile_id = str "QmOmar" },
    )
unfolding subj_and_ref_from_meta
reads_meta = refl

refuses_push :
    ds_push_pre_check ok (λ s. s) denied_text (some (own_pushes ∷ [])) (negsuc 0) none [] meta
    ≡ err (str "denied")
unfolding ds_push_pre_check subj_and_ref_from_meta check_size total_size enforce
    resource_str_from_ref parse_resource parse_action check_stars split rule_allows
    resources_contain resource_contains resource_loop actions_contain action_contains action_loop
    join
refuses_push = refl
