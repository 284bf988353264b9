-- ===== src/Transform/Run/Sessions.antt =====
-- The events of one session, apart from those of others, and runs of events one after the other.
use qri.Base.{
  ◌≡◌, refl, inl, inr, List, [], ◌∷◌, ◌++◌, Bool, true, false, Str, str_eq, Result, ok, err, panic,
  ◌>>=◌, if◌then◌else◌, Bool-cases, ap, sym, ◌∙◌,
}
use qri.Transform.Run.{
  RunEvent, transform_start, transform_stop, step_start, step_stop, step_skip, StepState, State,
  RunError, step_from_payload, stop_step, stop_run, on_last_step, is_output, add_own_event,
  add_transform_event, kept, collect,
}

-- The events of one session.
abbrev pub own : Str → List RunEvent → List RunEvent
own id [] = []
own id (e ∷ es) = let rest = own id es in if str_eq id e.session_id then e ∷ rest else rest

abbrev KeepsId : State → Result RunError State → Type 0
KeepsId rs m = (kept rs m).id ≡ rs.id

if-KeepsId :
    (rs : State) (b : Bool) (m k : Result RunError State)
    → KeepsId rs m
    → KeepsId rs k
    → KeepsId rs (if b then m else k)
if-KeepsId rs true m k w v = w
if-KeepsId rs false m k w v = v

bind-KeepsId :
    {A : Type 0} (rs : State) (m : Result RunError A) (g : A → State)
    → ((a : A) → (g a).id ≡ rs.id)
    → KeepsId rs (m >>= λ a. ok (g a))
bind-KeepsId rs (ok a) g w = w a
bind-KeepsId rs (err e) g w = refl
bind-KeepsId rs panic g w = refl

add_own_event-KeepsId : (rs : State) (e : RunEvent) → KeepsId rs (add_own_event rs e)
unfolding add_own_event stop_run
add_own_event-KeepsId rs e = if-KeepsId rs (str_eq e.event_type transform_start) _ _ refl (
    if-KeepsId rs (str_eq e.event_type transform_stop) _ _ refl (
      if-KeepsId rs (str_eq e.event_type step_start) _ _
        (bind-KeepsId rs (step_from_payload e.payload) _ (λ s. refl))
        (if-KeepsId rs (str_eq e.event_type step_stop) _ _
          (bind-KeepsId rs (on_last_step (stop_step e) rs.steps) _ (λ s. refl))
          (if-KeepsId rs (str_eq e.event_type step_skip) _ _
            (bind-KeepsId rs (step_from_payload e.payload) _ (λ s. refl))
            (if-KeepsId rs (is_output e.event_type) _ _
              (bind-KeepsId rs
                (on_last_step (λ s. record s { output = s.output ++ e ∷ [] }) rs.steps) _
                (λ s. refl))
              refl)))))

pub add_own :
    (rs : State) (e : RunEvent)
    → str_eq rs.id e.session_id ≡ true
    → add_transform_event rs e ≡ add_own_event rs e
unfolding add_transform_event
add_own rs e t = rw t refl

pub add_other :
    (rs : State) (e : RunEvent)
    → str_eq rs.id e.session_id ≡ false
    → add_transform_event rs e ≡ ok rs
unfolding add_transform_event
add_other rs e f = rw f refl

-- Events of other sessions change nothing.
pub collect-own : (es : List RunEvent) (rs : State) → collect rs es ≡ collect rs (own rs.id es)
unfolding collect
collect-own [] rs = refl
collect-own (e ∷ es) rs = elim (Bool-cases (str_eq rs.id e.session_id)) [
  | inl t ↦
      let next = kept rs (add_own_event rs e) in
      rw t (
        ap (λ r. collect (kept rs r) es) (add_own rs e t)
        ∙ collect-own es next
        ∙ ap (λ id. collect next (own id es)) (add_own_event-KeepsId rs e)
        ∙ ap (λ r. collect (kept rs r) (own rs.id es)) (sym (add_own rs e t)))
  | inr f ↦ rw (f, add_other rs e f) (collect-own es rs)
]

pub collect-append :
    (es fs : List RunEvent) (rs : State) → collect rs (es ++ fs) ≡ collect (collect rs es) fs
unfolding collect
collect-append [] fs rs = refl
collect-append (e ∷ es) fs rs = collect-append es fs (kept rs (add_transform_event rs e))

pub on_last_step-append :
    (f : StepState → StepState) (done : List StepState) (s : StepState)
    → on_last_step f (done ++ s ∷ []) ≡ ok (done ++ f s ∷ [])
unfolding on_last_step
on_last_step-append f [] s = refl
on_last_step-append f (d ∷ []) s = refl
on_last_step-append f (d ∷ c ∷ done) s =
    ap (λ m. m >>= λ steps'. ok (d ∷ steps')) (on_last_step-append f (c ∷ done) s)
