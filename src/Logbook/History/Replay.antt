-- ===== src/Logbook/History/Replay.antt =====
-- The listing of versions against the set of referenced paths: two replays of one history.
use qri.Base.{
  ℕ, ◌≡◌, refl, ◌≢◌, inl, inr, List, [], ◌∷◌, ◌++◌, Bool, true, false, not, ◌&&◌, Str, str_eq, map,
  take, drop, ◌-◌, Result, ok, err, panic, ◌>>=◌, length, is_empty, ltb, ◌==◌, arith, Bool-cases,
  ok_injective, ap, sym, ◌∙◌, subst, >>=-eq-ok, All, length-map, map-take, All-take, All-drop,
  All-map, All-append, reverse, reverse-cons, reverse-reverse, take-append-drop, map-append,
}
use qri.Base.Int.{ℤ, pos, negsuc}
use qri.Oplog.Op.{Op, op_init, op_amend, op_remove}
use qri.Dsref.Ref.{Ref, VersionInfo, empty_info}
use qri.Logbook.Model.{Error, commit_model, push_model, run_model}
use qri.Logbook.History.Paging.{infos-all}
use qri.Logbook.History.{
  scan_ops, scan_op, scan_commit, scan_commit_init, scan_push, Scan, set_last, cut_last, each_last,
  last_or, drop_deleted, branch_to_version_infos, path_op, path_ops, version_info_from_op,
  commit_op_run_id, set_published,
}

abbrev pub path_of : VersionInfo → Str
path_of v = v.path

abbrev NoRun : VersionInfo → Type 0
NoRun v = v.run_id ≡ []

map-set_last :
    (v : VersionInfo) (xs : List VersionInfo) {ys : List VersionInfo}
    → set_last (λ _. v) xs ≡ ok ys
    → set_last (λ _. v.path) (map path_of xs) ≡ ok (map path_of ys)
unfolding set_last
map-set_last v [] e = absurd (cc)
map-set_last v (x ∷ []) e = ap (λ t. ok (map path_of t)) (ok_injective {E = Error} e)
map-set_last v (x ∷ y ∷ xs) {ys} e =
    let (zs, rest, whole) = >>=-eq-ok (set_last (λ _. v) (y ∷ xs)) (λ zs. ok (x ∷ zs)) e in
    rw (map-set_last v (y ∷ xs) rest)
      (ap (λ t. ok (map path_of t)) (ok_injective {E = Error} whole))

map-cut_last :
    (n : ℤ) (xs : List VersionInfo) {ys : List VersionInfo}
    → cut_last n xs ≡ ok ys
    → cut_last n (map path_of xs) ≡ ok (map path_of ys)
unfolding cut_last
map-cut_last (pos n) xs {ys} e = elim (Bool-cases (ltb (length xs) n)) [
  | inl t ↦ absurd (ground arith)
  | inr f ↦
      rw (length-map path_of xs, f, ← map-take path_of (length xs - n) xs)
        (ap (λ t. ok (map path_of t)) (ok_injective {E = Error} (rw f at e)))
]
map-cut_last (negsuc n) xs e = cc

map-set_published :
    (b : Bool) (xs : List VersionInfo) → map path_of (map (set_published b) xs) ≡ map path_of xs
map-set_published b [] = refl
map-set_published b (x ∷ xs) = ap (λ t. x.path ∷ t) (map-set_published b xs)

published-paths :
    (b : Bool) (k : ℕ) (xs : List VersionInfo)
    → map path_of (take k xs ++ map (set_published b) (drop k xs)) ≡ map path_of xs
published-paths b k xs =
    map-append path_of (take k xs) (map (set_published b) (drop k xs))
    ∙ ap (λ t. map path_of (take k xs) ++ t) (map-set_published b (drop k xs))
    ∙ sym (map-append path_of (take k xs) (drop k xs))
    ∙ ap (map path_of) (take-append-drop k xs)

-- What is known of a list that a slice operation returned: its paths, and that no item has a run.
abbrev Follows : Result Error (List Str) → List VersionInfo → Type 0
Follows r ys = (r ≡ ok (map path_of ys)) × All NoRun ys

cut_last_kept :
    (n : ℤ) (xs : List VersionInfo) {ys : List VersionInfo}
    → All NoRun xs
    → cut_last n xs ≡ ok ys
    → All NoRun ys
unfolding cut_last
cut_last_kept (pos n) xs w e = elim (Bool-cases (ltb (length xs) n)) [
  | inl t ↦ absurd (ground arith)
  | inr f ↦
      subst (All NoRun) (ok_injective {E = Error} (rw f at e)) (All-take NoRun (length xs - n) xs w)
]
cut_last_kept (negsuc n) xs w e = absurd (cc)

set_last_kept :
    (v : VersionInfo) (xs : List VersionInfo) {ys : List VersionInfo}
    → NoRun v
    → All NoRun xs
    → set_last (λ _. v) xs ≡ ok ys
    → All NoRun ys
unfolding set_last
set_last_kept v [] h w e = absurd (cc)
set_last_kept v (x ∷ []) h w e = subst (All NoRun) (ok_injective {E = Error} e) (h, tt)
set_last_kept v (x ∷ y ∷ xs) h w e =
    let (zs, rest, whole) = >>=-eq-ok (set_last (λ _. v) (y ∷ xs)) (λ zs. ok (x ∷ zs)) e in
    subst (All NoRun) (ok_injective {E = Error} whole) (w.0, set_last_kept v (y ∷ xs) h w.1 rest)

module _ (xs : List VersionInfo) (w : All NoRun xs) where
  each_last-Follows :
      (b : Bool) (n : ℤ) {ys : List VersionInfo}
      → each_last (set_published b) n xs ≡ ok ys
      → Follows (ok (map path_of xs)) ys
  unfolding each_last
  each_last-Follows b (pos n) {ys} e = elim (Bool-cases (ltb (length xs) n)) [
    | inl t ↦ absurd (ground arith)
    | inr f ↦ subst (Follows (ok (map path_of xs))) (ok_injective {E = Error} (rw f at e)) (
      ap ok (sym (published-paths b (length xs - n) xs)),
      All-append NoRun (take (length xs - n) xs) _ (All-take NoRun (length xs - n) xs w) (
          All-map NoRun (set_published b) (λ x h. h) (drop (length xs - n) xs)
            (All-drop NoRun (length xs - n) xs w)),
    )
  ]
  each_last-Follows b (negsuc n) e =
      subst (Follows (ok (map path_of xs))) (ok_injective {E = Error} e) (refl, w)

  cut_last-Follows :
      (n : ℤ) {ys : List VersionInfo}
      → cut_last n xs ≡ ok ys
      → Follows (cut_last n (map path_of xs)) ys
  cut_last-Follows n {ys} e = (map-cut_last n xs e, cut_last_kept n xs w e)

  set_last-Follows :
      (v : VersionInfo) {ys : List VersionInfo}
      → NoRun v
      → set_last (λ _. v) xs ≡ ok ys
      → Follows (set_last (λ _. v.path) (map path_of xs)) ys
  set_last-Follows v h e = (map-set_last v xs e, set_last_kept v xs h w e)

last_run : (d : VersionInfo) (xs : List VersionInfo) → NoRun d → All NoRun xs → NoRun (last_or d xs)
last_run d [] h w = h
last_run d (x ∷ xs) h w = last_run x xs w.0 w.1

no_merge : (run r : Str) (b : Bool) → r ≡ [] → (not (is_empty run) && b && str_eq run r) ≡ false
no_merge [] r b h = refl
no_merge (c ∷ run) r b h = rw h (ground arith)

set_refs_inv :
    (t : Scan) (m : Result Error (List VersionInfo)) (s' : Scan)
    → (m >>= λ refs. ok (record t { refs = refs })) ≡ ok s'
    → (m ≡ ok s'.refs) × (s'.delete_at_end ≡ t.delete_at_end)
set_refs_inv t (ok refs) s' e = (
  ap (λ u. ok u.refs) (ok_injective {E = Error} e),
  ap (λ u. u.delete_at_end) (sym (ok_injective {E = Error} e)),
)
set_refs_inv t (err r) s' e = absurd (cc)
set_refs_inv t panic s' e = absurd (cc)

module _ (ref : Ref) (op : Op) (s : Scan) (w : All NoRun s.refs) where
  scan_commit_init_lem :
      scan_commit_init ref op s
      ≡ ok (record s { refs = s.refs ++ version_info_from_op ref op ∷ [] })
  unfolding scan_commit_init
  scan_commit_init_lem =
      rw
        (no_merge (commit_op_run_id op) (last_or empty_info s.refs).run_id (not (is_empty s.refs))
          (last_run empty_info s.refs refl w))
        refl

  appended-Follows :
      Follows (ok (map path_of s.refs ++ op.ref ∷ [])) (s.refs ++ version_info_from_op ref op ∷ [])
  unfolding version_info_from_op
  appended-Follows =
      (ap ok (sym (map-append path_of s.refs (_ ∷ []))), All-append NoRun s.refs _ w (refl, tt))

  unchanged-Follows :
      (s' : Scan)
      → ◌≡◌ {A = Result Error Scan} (ok s) (ok s')
      → Follows (ok (map path_of s.refs)) s'.refs × (s'.delete_at_end ≡ s.delete_at_end)
  unchanged-Follows s' e =
      subst (λ t. Follows (ok (map path_of s.refs)) t.refs × (t.delete_at_end ≡ s.delete_at_end))
        (ok_injective {E = Error} e) ((refl, w), refl)

  scan_commit-Follows :
      (s' : Scan)
      → s.delete_at_end ≡ pos 0
      → op.model ≡ commit_model
      → scan_commit true ref op s ≡ ok s'
      → Follows (path_op op (map path_of s.refs)) s'.refs × (s'.delete_at_end ≡ pos 0)
  unfolding scan_commit path_op version_info_from_op
  scan_commit-Follows s' z m e =
      let c : (op.model == commit_model) ≡ true = ground arith in
      elim (Bool-cases (op.op_type == op_init)) [
        | inl t ↦
            let e' = ok_injective {E = Error} (sym scan_commit_init_lem ∙ (rw t at e)) in
            rw (c, t)
              (subst
                (λ u.
                  Follows (ok (map path_of s.refs ++ op.ref ∷ [])) u.refs
                  × (u.delete_at_end ≡ pos 0))
                e' (appended-Follows, z))
        | inr f ↦ elim (Bool-cases (op.op_type == op_amend)) [
          | inl t ↦
              let n : (op.op_type == op_remove) ≡ false = ground arith in
              let (m', d) =
                set_refs_inv (record s { delete_at_end = pos 0 })
                  (set_last (λ _. version_info_from_op ref op) s.refs) s' (rw (f, t) at e) in
              rw (c, f, n, t) (set_last-Follows s.refs w (version_info_from_op ref op) refl m', d)
          | inr g ↦ elim (Bool-cases (op.op_type == op_remove)) [
            | inl t ↦
                let (m', d) = set_refs_inv s (cut_last op.size s.refs) s' (rw (f, g, t) at e) in
                rw (c, f, t) (cut_last-Follows s.refs w op.size m', d ∙ z)
            | inr h ↦
                let (same, d) = unchanged-Follows s' (rw (f, g, h) at e) in
                rw (c, f, h, g) (same, d ∙ z)
          ]
        ]
      ]

  scan_push-Follows :
      (s' : Scan)
      → s.delete_at_end ≡ pos 0
      → scan_push op s ≡ ok s'
      → Follows (ok (map path_of s.refs)) s'.refs × (s'.delete_at_end ≡ pos 0)
  unfolding scan_push
  scan_push-Follows s' z e = elim (Bool-cases (op.op_type == op_init)) [
    | inl t ↦
        let (m, d) =
          set_refs_inv s (each_last (set_published true) op.size s.refs) s' (rw t at e) in
        (each_last-Follows s.refs w true op.size m, d ∙ z)
    | inr f ↦ elim (Bool-cases (op.op_type == op_remove)) [
      | inl t ↦
          let (m, d) =
            set_refs_inv s (each_last (set_published false) op.size s.refs) s' (rw (f, t) at e) in
          (each_last-Follows s.refs w false op.size m, d ∙ z)
      | inr g ↦ let (same, d) = unchanged-Follows s' (rw (f, g) at e) in (same, d ∙ z)
    ]
  ]

  path_op_other : (ps : List Str) → (op.model == commit_model) ≡ false → path_op op ps ≡ ok ps
  unfolding path_op
  path_op_other ps h = rw h refl

  -- One operation that is no run: the paths of the items move as the paths of `path_op` do.
  scan_op-Follows :
      (s' : Scan)
      → op.model ≢ run_model
      → s.delete_at_end ≡ pos 0
      → scan_op true ref op s ≡ ok s'
      → Follows (path_op op (map path_of s.refs)) s'.refs × (s'.delete_at_end ≡ pos 0)
  unfolding scan_op
  scan_op-Follows s' nr z e = elim (Bool-cases (op.model == commit_model)) [
    | inl t ↦ scan_commit-Follows s' z (ground arith) (rw t at e)
    | inr f ↦
        let r : (op.model == run_model) ≡ false = ground arith in
        rw (path_op_other (map path_of s.refs) f) (elim (Bool-cases (op.model == push_model)) [
          | inl t ↦ scan_push-Follows s' z (rw (f, r, t) at e)
          | inr g ↦ let (same, d) = unchanged-Follows s' (rw (f, r, g) at e) in (same, d ∙ z)
        ])
  ]

scan_ops-Follows :
    (ref : Ref) (ops : List Op) (s s' : Scan)
    → All NoRun s.refs
    → All (λ op. op.model ≢ run_model) ops
    → s.delete_at_end ≡ pos 0
    → scan_ops true ref ops s ≡ ok s'
    → Follows (path_ops ops (map path_of s.refs)) s'.refs × (s'.delete_at_end ≡ pos 0)
unfolding scan_ops path_ops
scan_ops-Follows ref [] s s' w nr z e =
    subst (λ t. Follows (ok (map path_of s.refs)) t.refs × (t.delete_at_end ≡ pos 0))
      (ok_injective {E = Error} e) ((refl, w), z)
scan_ops-Follows ref (op ∷ ops) s s' w nr z e =
    let (t, one, rest) = >>=-eq-ok (scan_op true ref op s) (λ t. scan_ops true ref ops t) e in
    let (follows, z') = scan_op-Follows ref op s w t nr.0 z one in
    rw follows.0 (scan_ops-Follows ref ops t s' follows.1 nr.1 z' rest)

map-reverse : (xs : List VersionInfo) → map path_of (reverse xs) ≡ reverse (map path_of xs)
map-reverse [] = refl
map-reverse (x ∷ xs) =
    ap (map path_of) (reverse-cons x xs)
    ∙ map-append path_of (reverse xs) (x ∷ [])
    ∙ ap (λ t. t ++ x.path ∷ []) (map-reverse xs)
    ∙ sym (reverse-cons x.path (map path_of xs))

drop_deleted_none : (s : Scan) → s.delete_at_end ≡ pos 0 → drop_deleted s ≡ ok s.refs
unfolding drop_deleted
drop_deleted_none s z = ground arith

listed :
    (s : Scan) {infos : List VersionInfo}
    → s.delete_at_end ≡ pos 0
    → (drop_deleted s >>= λ refs. ok (reverse refs)) ≡ ok infos
    → map path_of s.refs ≡ reverse (map path_of infos)
listed s {infos} z e =
    let r : reverse s.refs ≡ infos = ok_injective {E = Error} (rw (drop_deleted_none s z) at e) in
    ap (map path_of) (sym (reverse-reverse s.refs) ∙ ap reverse r) ∙ map-reverse infos

-- Where a history has no runs and is listed whole, with all deletions collapsed, the paths of the
-- listing, latest first, are exactly the paths that the history refers to, last first.
pub paths-branch_to_version_infos :
    (ops : List Op) (ref : Ref) {infos : List VersionInfo}
    → All (λ op. op.model ≢ run_model) ops
    → branch_to_version_infos ops ref (pos 0) (negsuc 0) true ≡ ok infos
    → path_ops ops [] ≡ ok (reverse (map path_of infos))
paths-branch_to_version_infos ops ref {infos} nr e =
    let (s, scanned, rest) =
      >>=-eq-ok (scan_ops true ref ops (record { refs = []; delete_at_end = pos 0 }))
        (λ s. drop_deleted s >>= λ refs. ok (reverse refs)) (sym (infos-all ops ref true) ∙ e) in
    let (follows, z) =
      scan_ops-Follows ref ops (record { refs = []; delete_at_end = pos 0 }) s tt nr refl scanned in
    follows.0 ∙ ap ok (listed s z rest)
