-- ===== src/Stats/Bound.antt =====
-- The loop that purges the cache ends, and what it leaves is small enough unless nothing more could be
-- removed.
use qri.Base.{
  ℕ, zero, ◌≡◌, refl, ◌≢◌, ◌⊎◌, inl, inr, List, [], ◌∷◌, Bool, true, false, not, Str, str_eq,
  str_eq_iff, str_eq_refl, length, is_empty, if◌then◌else◌, arith, suc, ◌≤◌, ◌<◌, Bool-cases, ap,
  sym, ◌∙◌, subst, Option, some, All,
}
use qri.Base.{if-cases, str_neq}
use qri.Base.Assoc.{lookup, insert, delete, lookup-insert, lookup-delete}
use qri.Base.Reorder.{Reordered, All-Reordered, Reordered-sym}
use qri.Base.Int.{ℤ, ltb_ℤ}
use qri.Stats.Cache.{
  Props, CacheInfo, cache_size, may_drop, lowest, fits, nothing_left, not_removed, Purge, drop_file,
  purge, add_props, add_and_purge_expired,
}

-- No file has the empty key.
abbrev pub Named : List (Str × Props) → Type 0
Named = All (λ e. is_empty e.0 ≡ false)

-- No file may be dropped for the sake of the key.
abbrev pub Kept : Str → List (Str × Props) → Type 0
Kept key = All (λ e. may_drop key e.0 e.1 ≡ false)

Named-insert :
    (k : Str) (p : Props) (m : List (Str × Props))
    → is_empty k ≡ false
    → Named m
    → Named (insert k p m)
Named-insert k p [] h w = (h, tt)
Named-insert k p ((j, q) ∷ m) h w = elim (Bool-cases (str_eq j k)) [
  | inl e ↦ rw e (h, w.1)
  | inr d ↦ rw d (w.0, Named-insert k p m h w.1)
]

All-delete :
    (P : Str × Props → Type 0) (k : Str) (m : List (Str × Props)) → All P m → All P (delete k m)
All-delete P k [] w = tt
All-delete P k ((j, q) ∷ m) w = elim (Bool-cases (str_eq j k)) [
  | inl e ↦ rw e (All-delete P k m w.1)
  | inr d ↦ rw d (w.0, All-delete P k m w.1)
]

length-delete_le : (k : Str) (m : List (Str × Props)) → length (delete k m) ≤ length m
length-delete_le k [] = omega arith
length-delete_le k ((j, q) ∷ m) = elim (Bool-cases (str_eq j k)) [
  | inl e ↦ rw e (omega (arith, length-delete_le k m))
  | inr d ↦ rw d (omega (arith, length-delete_le k m))
]

-- Either a file is dropped or there was none of that key.
length-delete :
    (k : Str) (m : List (Str × Props)) → (length (delete k m) < length m) ⊎ All (λ e. e.0 ≢ k) m
length-delete k [] = inr tt
length-delete k ((j, q) ∷ m) = elim (Bool-cases (str_eq j k)) [
  | inl e ↦ inl (rw e (omega (arith, length-delete_le k m)))
  | inr d ↦ elim (length-delete k m) [
    | inl h ↦ inl (rw d (omega (arith, h)))
    | inr w ↦ inr ((λ e. cc (d, (str_eq_iff j k).1 e)), w)
  ]
]

lowest_step :
    (key found k : Str) (p : Props) (m : List (Str × Props)) (b : Bool)
    → may_drop key k p ≡ b
    → lowest key found ((k, p) ∷ m) ≡ lowest key (if b then k else found) m
unfolding lowest
lowest_step key found k p m b e = ap (λ c. lowest key (if c then k else found) m) e

-- If no key is found, every file was to be kept.
lowest-Kept :
    (key found : Str) (m : List (Str × Props))
    → Named m
    → is_empty (lowest key found m) ≡ true
    → (is_empty found ≡ true) × Kept key m
unfolding lowest
lowest-Kept key found [] n e = (e, tt)
lowest-Kept key found ((k, p) ∷ m) n e = elim (Bool-cases (may_drop key k p)) [
  | inl t ↦
      let (a, b) =
        lowest-Kept key k m n.1 (ap is_empty (sym (lowest_step key found k p m true t)) ∙ e) in
      cc (a, n.0)
  | inr f ↦
      let (a, b) =
        lowest-Kept key found m n.1 (ap is_empty (sym (lowest_step key found k p m false f)) ∙ e) in
      (a, (f, b))
]

may_drop_other : (key k : Str) (p : Props) → may_drop key k p ≡ true → k ≢ key
may_drop_other key k p t h = ground (arith, t, h, str_eq_refl key)

-- A key that is found is that of a file, and not the new one.
abbrev Found : Str → Str → List (Str × Props) → Type 0
Found key k m = (k ≢ key) × ¬ (All (λ e. e.0 ≢ k) m)

Found-cons :
    (key k : Str) (e : Str × Props) (m : List (Str × Props)) → Found key k m → Found key k (e ∷ m)
Found-cons key k e m w = (w.0, λ v. w.1 v.1)

Found-eq : (key k l : Str) (m : List (Str × Props)) → k ≡ l → Found key l m → Found key k m
Found-eq key k l m e w = subst (λ x. Found key x m) (sym e) w

lowest-Found :
    (key found : Str) (m : List (Str × Props))
    → (lowest key found m ≡ found) ⊎ Found key (lowest key found m) m
unfolding lowest
lowest-Found key found [] = inl refl
lowest-Found key found ((k, p) ∷ m) = elim (Bool-cases (may_drop key k p)) [
  | inl t ↦
      let s = lowest_step key found k p m true t in
      inr (
        Found-eq key _ _ ((k, p) ∷ m) s (elim (lowest-Found key k m) [
          | inl e ↦ Found-eq key _ _ ((k, p) ∷ m) e (may_drop_other key k p t, λ v. v.0 refl)
          | inr w ↦ Found-cons key _ (k, p) m w
        ]))
  | inr f ↦
      let s = lowest_step key found k p m false f in
      elim (lowest-Found key found m) [
        | inl e ↦ inl (s ∙ e)
        | inr w ↦ inr (Found-eq key _ _ ((k, p) ∷ m) s (Found-cons key _ (k, p) m w))
      ]
]

not-true : (b : Bool) → not b ≡ true → b ≡ false
not-true true h = cc
not-true false h = refl

module _ (visit : List (Str × Props) → List (Str × Props)) (removes : Str → Bool)
    (max_size : ℤ) where
  -- The files fit, or none may be dropped, or a file could not be removed.
  abbrev pub Settled : Str → Purge → Type 0
  Settled key r =
      ((r.ending ≡ fits) × (ltb_ℤ max_size (cache_size r.info.stat_file_props) ≡ false))
      ⊎ ((r.ending ≡ nothing_left) × Kept key r.info.stat_file_props)
      ⊎ (r.ending ≡ not_removed)

  abbrev pub Purged : Str → Option Props → Purge → Type 0
  Purged key props r = Settled key r × (lookup key r.info.stat_file_props ≡ props)

  module _ (visits : (m : List (Str × Props)) → Reordered (visit m) m) where
    drop-shorter :
        (key : Str) (m : List (Str × Props))
        → is_empty (lowest key [] (visit m)) ≡ false
        → (length (delete (lowest key [] (visit m)) m) < length m) × (lowest key [] (visit m) ≢ key)
    drop-shorter key m n = elim (lowest-Found key [] (visit m)) [
      | inl e ↦ absurd (cc (n, ap is_empty e))
      | inr w ↦ elim (length-delete (lowest key [] (visit m)) m) [
        | inl h ↦ (h, w.0)
        | inr v ↦ absurd (w.1 (All-Reordered _ (visits m) v))
      ]
    ]

    purge_lem :
        (f : ℕ) (key : Str) (info : CacheInfo) (props : Option Props)
        → length info.stat_file_props < f
        → Named info.stat_file_props
        → lookup key info.stat_file_props ≡ props
        → Purged key props (purge visit removes max_size f key info)
    unfolding purge drop_file
    purge_lem zero key info props h n l = absurd (omega arith)
    purge_lem (suc f) key info props h n l =
        let k = lowest key [] (visit info.stat_file_props) in
        if-cases (Purged key props) _ _ _ (λ t. (inl (refl, not-true _ t), l))
          (λ t.
            if-cases (Purged key props) (is_empty k) _ _
              (λ e. (
                inr (
                    inl (
                      refl,
                      All-Reordered _ (Reordered-sym (visits info.stat_file_props))
                          (lowest-Kept key [] (visit info.stat_file_props)
                            (All-Reordered _ (visits info.stat_file_props) n) e).1,
                    )),
                l,
              ))
              (λ d.
                if-cases (Purged key props) (not (removes k)) _ _ (λ r. (inr (inr refl), l))
                  (λ r.
                    let (short, other) = drop-shorter key info.stat_file_props d in
                    purge_lem f key (drop_file visit removes max_size k info) props
                      (omega (arith, short)) (All-delete _ k info.stat_file_props n)
                      (lookup-delete k key info.stat_file_props (str_neq k key other) ∙ l))))

    -- If visiting a map only reorders its entries and no file has the empty key, adding a file ends, with
    -- the properties of the new file recorded, and then the files fit into the cache, or there is none
    -- that the loop may drop, or one could not be removed.
    pub add_and_purge_settles :
        (key : Str) (stat_props target_props : Props) (info : CacheInfo)
        → is_empty key ≡ false
        → Named info.stat_file_props
        → Purged key
            (some stat_props)
            (add_and_purge_expired visit removes max_size key stat_props target_props info)
    unfolding add_and_purge_expired add_props
    add_and_purge_settles key stat_props target_props info e n =
        let added = add_props visit removes max_size key stat_props target_props info in
        purge_lem (suc (length added.stat_file_props)) key added (some stat_props) (omega arith)
          (Named-insert key stat_props info.stat_file_props e n)
          (lookup-insert key stat_props info.stat_file_props)
