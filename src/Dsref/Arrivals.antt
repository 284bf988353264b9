-- ===== src/Dsref/Arrivals.antt =====
-- The parallel resolver answers, whatever order the answers arrive in.
use qri.Base.{
  ℕ, ◌≡◌, refl, ◌⊎◌, inl, inr, List, [], ◌∷◌, false, map, ◌-◌, ok, err, panic, length, is_empty,
  arith, sym, ◌∙◌, some, All, length-map,
}
use qri.Base.Reorder.{Reordered, length-Reordered, All-Reordered, Some-Reordered}
use qri.Base.{Some}
use qri.Dsref.Ref.{Ref}
use qri.Dsref.Resolve.{
  not_found, context_done, other_error, Answer, Resolver, run, answered, await, parallel,
}

-- The error that lets a resolver try the next one.
abbrev pub Missed : Answer → Type 0
Missed a = a.1 ≡ err not_found

-- What the caller gets from an answer.
abbrev pub returned : Ref → Answer → Answer
returned ref (copy, ok source) = (copy, ok source)
returned ref (copy, out) = (ref, out)

-- Nothing was found, or the caller got an answer that says more.
abbrev pub Decided : Ref → List Answer → Answer → Type 0
Decided ref sent out =
    (All Missed sent × (out ≡ (ref, err not_found)))
    ⊎ Some (λ a. ¬ (Missed a) × (out ≡ returned ref a)) sent

Decided-Reordered :
    (ref : Ref) {sent bs : List Answer} (out : Answer)
    → Reordered sent bs
    → Decided ref bs out
    → Decided ref sent out
Decided-Reordered ref out p (inl w) = inl (All-Reordered Missed p w.0, w.1)
Decided-Reordered ref out p (inr w) = inr (Some-Reordered _ p w)

-- One answer, and then what the others decide.
Decided-missed :
    (ref copy : Ref) (sent : List Answer) (out : Answer)
    → Decided ref sent out
    → Decided ref ((copy, err not_found) ∷ sent) out
Decided-missed ref copy sent out (inl w) = inl ((refl, w.0), w.1)
Decided-missed ref copy sent out (inr w) = inr (inr w)

await_lem :
    (n : ℕ) (ref : Ref) (sent : List Answer)
    → length sent ≡ n
    → is_empty sent ≡ false
    → (out : Answer) × (await n ref (map answered sent) ≡ some out) × Decided ref sent out
unfolding await
await_lem n ref [] l h = cc
await_lem n ref ((copy, ok source) ∷ sent) l h =
    ((copy, ok source), refl, inr (inl ((λ m. cc), refl)))
await_lem n ref ((copy, panic) ∷ sent) l h = ((ref, panic), refl, inr (inl ((λ m. cc), refl)))
await_lem n ref ((copy, err context_done) ∷ sent) l h =
    ((ref, err context_done), refl, inr (inl ((λ m. cc), refl)))
await_lem n ref ((copy, err (other_error e)) ∷ sent) l h =
    ((ref, err (other_error e)), refl, inr (inl ((λ m. cc), refl)))
await_lem n ref ((copy, err not_found) ∷ []) l h =
    ((ref, err not_found), ground arith, inl ((refl, tt), refl))
await_lem n ref ((copy, err not_found) ∷ a ∷ sent) l h =
    let (out, e, w) = await_lem (n - 1) ref (a ∷ sent) (omega arith) refl in
    (out, ground (arith, e), Decided-missed ref copy (a ∷ sent) out w)

some_arrived :
    (rs : List Resolver) (arrived : List Answer)
    → is_empty rs ≡ false
    → length rs ≡ length arrived
    → is_empty arrived ≡ false
some_arrived [] arrived h l = cc
some_arrived (r ∷ rs) [] h l = absurd (omega arith)
some_arrived (r ∷ rs) (a ∷ arrived) h l = refl

-- With at least one resolver, once the answers of all of them have arrived, in whatever order, and the
-- context was not done before, the parallel resolver has returned: that nothing was found, if every
-- resolver says so, and otherwise what one of the others answers.
pub parallel_answers :
    (rs : List Resolver) (ref : Ref) (arrived : List Answer)
    → is_empty rs ≡ false
    → Reordered (map (run ref) rs) arrived
    → (out : Answer) × (parallel rs ref (map answered arrived) ≡ some out)
      × Decided ref (map (run ref) rs) out
unfolding parallel
parallel_answers rs ref arrived h p =
    let sent = length-Reordered p in
    let (out, e, w) =
      await_lem (length rs) ref arrived (sym sent ∙ length-map (run ref) rs)
        (some_arrived rs arrived h (sym (length-map (run ref) rs) ∙ sent)) in
    (out, e, Decided-Reordered ref out p w)
