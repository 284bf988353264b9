-- ===== src/Sync/Checks.antt =====
-- remote/remote.go: the checks of a remote before it takes or removes a log or a dataset. A policy, if
-- there is one, is asked first, then the configured hook. The subject of a log's author and the
-- decoding of ids are parameters; `message` is the text of an error.
use qri.Base.{
  ℕ, List, [], ◌∷◌, not, ◌&&◌, Str, str, ◌-◌, Result, ok, err, panic, ◌>>=◌, ◌>>◌, reject, is_empty,
  leb, if◌then◌else◌, ◌+◌, Option, none, some,
}
use Prim.Native.Nat.{◌%◌}
use qri.Base.Int.{ℤ, pos, negsuc, eq_ℤ}
use qri.Base.Assoc.{lookup}
use qri.Access.Defs as Access
use qri.Access.Defs.{AccessPolicy, Subject, enforce, resource_str_from_ref}
use qri.Oplog.Log
use qri.Dsref.Ref.{Ref, empty_ref}

-- A hook of the remote, which is told the profile id of the subject.
abbrev pub RemoteHook : Type 0
RemoteHook = Option (Str → Ref → Result Str (Unit {0}))

abbrev pub run_hook : RemoteHook → Str → Ref → Result Str (Unit {0})
run_hook none pid ref = ok tt
run_hook (some h) pid ref = h pid ref

-- `logHook`: without a hook the author is not looked at.
unfoldable pub log_hook :
    Result Str Subject → RemoteHook → Ref → Option Log.Log → Result Str (Unit {0})
log_hook author none ref lg = ok tt
log_hook author (some h) ref lg = author >>= λ subject. h subject.id ref

abbrev pub text_of : Option Str → Str
text_of none = []
text_of (some s) = s

abbrev pub meta_of : Str → List (Str × Str) → Str
meta_of k m = text_of (lookup k m)

-- The sum of the sizes as an unsigned 64-bit number.
unfoldable pub total_size : List ℕ → ℕ
total_size [] = 0
total_size (n ∷ ns) = (n + total_size ns) % 18446744073709551616

abbrev pub to_uint64 : ℤ → ℕ
to_uint64 (pos n) = n % 18446744073709551616
to_uint64 (negsuc n) = 18446744073709551615 - n % 18446744073709551616

unfoldable pub check_size : ℤ → List ℕ → Result Str (Unit {0})
check_size accept_size_max sizes =
    if eq_ℤ accept_size_max (pos 0)
    then err (str "not accepting any datasets")
    else reject
        (not (eq_ℤ accept_size_max (negsuc 0))
          && leb (to_uint64 accept_size_max) (total_size sizes))
        (str "dataset size too large")

module _ (message : Access.Error → Str) where
  abbrev pub with_message : Result Access.Error (Unit {0}) → Result Str (Unit {0})
  with_message (ok u) = ok tt
  with_message (err e) = err (message e)
  with_message panic = panic

  -- `if r.policy != nil { ... r.policy.Enforce(...) }`
  abbrev pub check_policy : Option AccessPolicy → Subject → Str → Ref → Result Str (Unit {0})
  check_policy none subject action ref = ok tt
  check_policy (some pol) subject action ref =
      with_message (enforce pol subject (resource_str_from_ref ref.username ref.name) action)

  -- `logPreCheckHook`
  unfoldable pub log_pre_check :
      Option AccessPolicy
      → Result Str Subject
      → (action : Str) → RemoteHook
      → Ref
      → Option Log.Log
      → Result Str (Unit {0})
  log_pre_check policy author action h ref lg = do
    subject ← author
    check_policy policy subject action ref
    run_hook h subject.id ref

module _ (decode : Str → Result Str Str) (pretty : Str → Str) where
  abbrev pub meta_ref : List (Str × Str) → Ref
  meta_ref m = record empty_ref {
    username =
        if is_empty (meta_of (str "username") m)
        then meta_of (str "peername") m
        else meta_of (str "username") m;
    profile_id = meta_of (str "profileID") m;
    name = meta_of (str "name") m;
    path = meta_of (str "path") m;
  }

  -- `subjAndRefFromMeta`, where the id decodes; its error otherwise.
  unfoldable pub subj_and_ref_from_meta : List (Str × Str) → Result Str (Subject × Ref)
  subj_and_ref_from_meta m = decode (meta_of (str "pid") m) >>= λ pid.
      let ref = meta_ref m in
      ok (
        record { id = pretty pid; peername = meta_of (str "subject_username") m },
        record ref { profile_id = if is_empty ref.profile_id then pretty pid else ref.profile_id },
      )

  unfoldable pub ds_push_final_check : RemoteHook → List (Str × Str) → Result Str (Unit {0})
  ds_push_final_check none m = ok tt
  ds_push_final_check (some h) m = subj_and_ref_from_meta m >>= λ s. h s.0.id s.1

  -- `dsGetDagInfo`
  unfoldable pub ds_get_dag_info : RemoteHook → List (Str × Str) → Result Str (Unit {0})
  ds_get_dag_info h m = subj_and_ref_from_meta m >>= λ s. run_hook h s.0.id s.1

  module _ (message : Access.Error → Str) where
    unfoldable pub ds_push_pre_check :
        Option AccessPolicy
        → (accept_size_max : ℤ) → RemoteHook
        → (sizes : List ℕ) → List (Str × Str)
        → Result Str (Unit {0})
    ds_push_pre_check policy accept_size_max h sizes m = subj_and_ref_from_meta m >>= λ s.
        check_policy message policy s.0 (str "remote:push") s.1 >>= λ u.
        check_size accept_size_max sizes >>= λ u. run_hook h s.0.id s.1

    unfoldable pub ds_remove_pre_check :
        Option AccessPolicy → RemoteHook → List (Str × Str) → Result Str (Unit {0})
    ds_remove_pre_check policy h m = subj_and_ref_from_meta m >>= λ s.
        check_policy message policy s.0 (str "remote:remove") s.1 >>= λ u. run_hook h s.0.id s.1
