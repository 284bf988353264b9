-- ===== src/Transform/Run.antt =====
-- transform/run/run.go: the state of a run, which collects the events of the run. A time is its
-- nanoseconds since 1970, a difference of times is unbounded. A payload is one of the two structs
-- that the run looks for, or anything else.
pub mod Sessions
pub mod Blocks
pub mod Replay
mod Tests
use qri.Base.{
  List, [], ◌∷◌, ◌++◌, Bool, ◌||◌, Str, str, str_eq, Result, ok, err, panic, ◌>>=◌, if◌then◌else◌,
  Option, none, some,
}
use qri.Base.Int.{ℤ, pos, ◌-ℤ◌}
use qri.Event.Bus.{Event}

pub data Payload : Type 0 where
  lifecycle : (status : Str) → Payload
  step_lifecycle : (name category status : Str) → Payload
  other_payload : Str → Payload

abbrev pub RunEvent : Type 0
RunEvent = Event Payload

-- event/transform.go
abbrev pub transform_start : Str
transform_start = str "tf:Start"

abbrev pub transform_stop : Str
transform_stop = str "tf:Stop"

abbrev pub step_start : Str
step_start = str "tf:StepStart"

abbrev pub step_stop : Str
step_stop = str "tf:StepStop"

abbrev pub step_skip : Str
step_skip = str "tf:StepSkip"

abbrev pub transform_print : Str
transform_print = str "tf:Print"

abbrev pub transform_error : Str
transform_error = str "tf:Error"

abbrev pub dataset_preview : Str
dataset_preview = str "tf:DatasetPreview"

abbrev pub rs_running : Str
rs_running = str "running"

abbrev pub rs_failed : Str
rs_failed = str "failed"

abbrev pub rs_skipped : Str
rs_skipped = str "skipped"

pub record StepState : Type 0 where
  pub name : Str
  pub category : Str
  pub status : Str
  pub start_time : Option ℤ
  pub stop_time : Option ℤ
  pub duration : ℤ
  pub output : List RunEvent

pub record State : Type 0 where
  pub id : Str
  pub number : ℤ
  pub status : Str
  pub message : Str
  pub start_time : Option ℤ
  pub stop_time : Option ℤ
  pub duration : ℤ
  pub steps : List StepState

pub data RunError : Type 0 where
  step_expected not_a_step : RunError
  unexpected_type : Str → RunError

unfoldable pub new_state : Str → State
new_state id = record {
  id = id;
  number = pos 0;
  status = [];
  message = [];
  start_time = none;
  stop_time = none;
  duration = pos 0;
  steps = [];
}

-- `NewStepStateFromEvent`
unfoldable pub step_from_payload : Payload → Result RunError StepState
step_from_payload (step_lifecycle name category status) = ok (record {
  name = name;
  category = category;
  status = status;
  start_time = none;
  stop_time = none;
  duration = pos 0;
  output = [];
})
step_from_payload (lifecycle status) = err not_a_step
step_from_payload (other_payload p) = err not_a_step

-- `stop.Sub(*start)` where there was a start, else the duration stays.
abbrev pub lasted : Option ℤ → ℤ → ℤ → ℤ
lasted none stop duration = duration
lasted (some start) stop duration = stop -ℤ start

unfoldable pub stop_step : RunEvent → StepState → StepState
stop_step e s = record s {
  stop_time = some e.timestamp;
  status = elim e.payload [
    | step_lifecycle name category status ↦ status
    | lifecycle status ↦ rs_failed
    | other_payload p ↦ rs_failed
  ];
  duration = lasted s.start_time e.timestamp s.duration;
}

unfoldable pub stop_run : RunEvent → State → State
stop_run e rs = record rs {
  stop_time = some e.timestamp;
  status = elim e.payload [
    | lifecycle status ↦ status
    | step_lifecycle name category status ↦ rs.status
    | other_payload p ↦ rs.status
  ];
  duration = lasted rs.start_time e.timestamp rs.duration;
}

-- `lastStep`, and what is written through the pointer that it returns.
unfoldable pub on_last_step :
    (StepState → StepState) → List StepState → Result RunError (List StepState)
on_last_step f [] = err step_expected
on_last_step f (s ∷ []) = ok (f s ∷ [])
on_last_step f (s ∷ t ∷ steps) = do steps' ← on_last_step f (t ∷ steps); ok (s ∷ steps')

abbrev pub is_output : Str → Bool
is_output typ =
    str_eq typ transform_print || str_eq typ transform_error || str_eq typ dataset_preview

-- The switch of `AddTransformEvent`. A case that returns an error has changed nothing.
unfoldable pub add_own_event : State → RunEvent → Result RunError State
add_own_event rs e =
    if str_eq e.event_type transform_start
    then ok (record rs { status = rs_running; start_time = some e.timestamp })
    else if str_eq e.event_type transform_stop
    then ok (stop_run e rs)
    else if str_eq e.event_type step_start
    then (step_from_payload e.payload >>= λ s. ok (record rs {
      steps = rs.steps ++ record s { status = rs_running; start_time = some e.timestamp } ∷ [];
    }))
    else if str_eq e.event_type step_stop
    then (on_last_step (stop_step e) rs.steps >>= λ steps. ok (record rs { steps = steps }))
    else if str_eq e.event_type step_skip
    then (step_from_payload e.payload >>= λ s.
        ok (record rs { steps = rs.steps ++ record s { status = rs_skipped } ∷ [] }))
    else if is_output e.event_type
    then (on_last_step (λ s. record s { output = s.output ++ e ∷ [] }) rs.steps >>= λ steps.
        ok (record rs { steps = steps }))
    else err (unexpected_type e.event_type)

-- `AddTransformEvent`
unfoldable pub add_transform_event : State → RunEvent → Result RunError State
add_transform_event rs e = if str_eq rs.id e.session_id then add_own_event rs e else ok rs

-- The events of a run, one after the other. An event that is refused changes nothing, and the
-- handler that collects a run's events goes on after it (lib/datasets.go, `Save`).
abbrev pub kept : State → Result RunError State → State
kept rs (ok rs') = rs'
kept rs (err e) = rs
kept rs panic = rs

unfoldable pub collect : State → List RunEvent → State
collect rs [] = rs
collect rs (e ∷ es) = collect (kept rs (add_transform_event rs e)) es
