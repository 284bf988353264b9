-- ===== src/Transform/Run/Blocks.antt =====
-- What happens to one step of a run, as the events that tell it and as the record of the step.
use qri.Base.{
  ◌≡◌, refl, List, [], ◌∷◌, ◌++◌, Str, map, str_eq_refl, ap, sym, ◌∙◌, none, some, append_assoc,
  append-nil,
}
use qri.Base.Int.{ℤ, pos, ◌-ℤ◌}
use qri.Transform.Run.{
  Payload, lifecycle, step_lifecycle, other_payload, RunEvent, step_start, step_stop, step_skip,
  transform_print, transform_error, dataset_preview, rs_running, rs_failed, rs_skipped, StepState,
  State, step_from_payload, stop_step, add_own_event, add_transform_event, kept, collect,
}
use qri.Transform.Run.Sessions.{add_own, collect-append, on_last_step-append}

pub data OutputKind : Type 0 where
  printed failed previewed : OutputKind

abbrev pub type_of : OutputKind → Str
type_of printed = transform_print
type_of failed = transform_error
type_of previewed = dataset_preview

-- What a step puts out: its kind, its time and its payload.
pub record Output : Type 0 where
  pub kind : OutputKind
  pub time : ℤ
  pub payload : Payload

-- What happens to one step. A step that ran stops with any payload.
pub data Block : Type 0 where
  skipped : (time : ℤ) (name category status : Str) → Block
  ran :
      (start : ℤ) (name category status : Str) (outputs : List Output) (stop : ℤ) (end : Payload)
      → Block

abbrev pub end_status : Payload → Str
end_status (step_lifecycle name category status) = status
end_status (lifecycle status) = rs_failed
end_status (other_payload p) = rs_failed

module _ (id : Str) where
  abbrev pub event : Str → ℤ → Payload → RunEvent
  event typ time payload = record {
    event_type = typ;
    timestamp = time;
    session_id = id;
    payload = payload;
  }

  abbrev pub output_event : Output → RunEvent
  output_event o = event (type_of o.kind) o.time o.payload

  abbrev pub block_events : Block → List RunEvent
  block_events (skipped time name category status) =
      event step_skip time (step_lifecycle name category status) ∷ []
  block_events (ran start name category status outputs stop end) =
      event step_start start (step_lifecycle name category status)
      ∷ (map output_event outputs ++ event step_stop stop end ∷ [])

  abbrev pub blocks_events : List Block → List RunEvent
  blocks_events [] = []
  blocks_events (b ∷ bs) = block_events b ++ blocks_events bs

  -- The record of a step.
  abbrev pub block_step : Block → StepState
  block_step (skipped time name category status) = record {
    name = name;
    category = category;
    status = rs_skipped;
    start_time = none;
    stop_time = none;
    duration = pos 0;
    output = [];
  }
  block_step (ran start name category status outputs stop end) = record {
    name = name;
    category = category;
    status = end_status end;
    start_time = some start;
    stop_time = some stop;
    duration = stop -ℤ start;
    output = map output_event outputs;
  }

-- A state with its steps, whose id is that of the events.
abbrev pub with_steps : State → List StepState → State
with_steps rs steps = record rs { steps = steps }

collect-output :
    (rs : State) (done : List StepState) (s : StepState) (os : List Output)
    → collect (with_steps rs (done ++ s ∷ [])) (map (output_event rs.id) os)
      ≡ with_steps rs (done ++ record s { output = s.output ++ map (output_event rs.id) os } ∷ [])
unfolding collect add_own_event
collect-output rs done s [] =
    ap (λ o. with_steps rs (done ++ record s { output = o } ∷ [])) (sym (append-nil s.output))
collect-output rs done s (o ∷ os) =
    let e = output_event rs.id o in
    let s' : StepState = record s { output = s.output ++ e ∷ [] } in
    ap (λ r. collect r (map (output_event rs.id) os)) (one o.kind o.time o.payload)
    ∙ collect-output rs done s' os
    ∙ ap (λ t. with_steps rs (done ++ record s { output = t } ∷ []))
        (append_assoc s.output (e ∷ []) (map (output_event rs.id) os))
  where
    put :
        (k : OutputKind) (t : ℤ) (p : Payload)
        → kept
            (with_steps rs (done ++ s ∷ []))
            (add_own_event (with_steps rs (done ++ s ∷ [])) (event rs.id (type_of k) t p))
          ≡ with_steps rs
              (done ++ record s { output = s.output ++ event rs.id (type_of k) t p ∷ [] } ∷ [])
    put printed t p = rw (on_last_step-append _ done s) refl
    put failed t p = rw (on_last_step-append _ done s) refl
    put previewed t p = rw (on_last_step-append _ done s) refl

    one :
        (k : OutputKind) (t : ℤ) (p : Payload)
        → kept
            (with_steps rs (done ++ s ∷ []))
            (add_transform_event (with_steps rs (done ++ s ∷ [])) (event rs.id (type_of k) t p))
          ≡ with_steps rs
              (done ++ record s { output = s.output ++ event rs.id (type_of k) t p ∷ [] } ∷ [])
    one k t p =
        ap (kept (with_steps rs (done ++ s ∷ []))) (
          add_own (with_steps rs (done ++ s ∷ [])) (event rs.id (type_of k) t p)
            (str_eq_refl rs.id))
        ∙ put k t p

step_started :
    (rs : State) (t : ℤ) (name category status : Str)
    → kept rs
        (add_transform_event rs (event rs.id step_start t (step_lifecycle name category status)))
      ≡ with_steps rs (
          rs.steps
          ++ record {
            name = name;
            category = category;
            status = rs_running;
            start_time = some t;
            stop_time = none;
            duration = pos 0;
            output = [];
          }
            ∷ [])
unfolding add_own_event step_from_payload
step_started rs t name category status = ap (kept rs) (
    add_own rs (event rs.id step_start t (step_lifecycle name category status)) (str_eq_refl rs.id))

step_skipped :
    (rs : State) (t : ℤ) (name category status : Str)
    → kept rs
        (add_transform_event rs (event rs.id step_skip t (step_lifecycle name category status)))
      ≡ with_steps rs (rs.steps ++ block_step rs.id (skipped t name category status) ∷ [])
unfolding add_own_event step_from_payload
step_skipped rs t name category status =
    ap (kept rs) (
      add_own rs (event rs.id step_skip t (step_lifecycle name category status))
        (str_eq_refl rs.id))

step_stopped :
    (rs : State) (done : List StepState) (s : StepState) (t : ℤ) (p : Payload)
    → kept
        (with_steps rs (done ++ s ∷ []))
        (add_transform_event (with_steps rs (done ++ s ∷ [])) (event rs.id step_stop t p))
      ≡ with_steps rs (done ++ stop_step (event rs.id step_stop t p) s ∷ [])
unfolding add_own_event
step_stopped rs done s t p =
    ap (kept (with_steps rs (done ++ s ∷ [])))
      (add_own (with_steps rs (done ++ s ∷ [])) (event rs.id step_stop t p) (str_eq_refl rs.id))
    ∙ rw (on_last_step-append (stop_step (event rs.id step_stop t p)) done s) refl

collect-block :
    (rs : State) (b : Block)
    → collect rs (block_events rs.id b) ≡ with_steps rs (rs.steps ++ block_step rs.id b ∷ [])
unfolding collect stop_step
collect-block rs (skipped t name category status) = step_skipped rs t name category status
collect-block rs (ran start name category status outputs stop end) =
    let begun : StepState = record {
      name = name;
      category = category;
      status = rs_running;
      start_time = some start;
      stop_time = none;
      duration = pos 0;
      output = [];
    } in
    let outs = map (output_event rs.id) outputs in
    ap (λ r. collect r (outs ++ event rs.id step_stop stop end ∷ []))
      (step_started rs start name category status)
    ∙ collect-append outs (event rs.id step_stop stop end ∷ [])
        (with_steps rs (rs.steps ++ begun ∷ []))
    ∙ ap (λ r. collect r (event rs.id step_stop stop end ∷ []))
        (collect-output rs rs.steps begun outputs)
    ∙ step_stopped rs rs.steps (record begun { output = outs }) stop end
    ∙ ended end
  where
    ended :
        (p : Payload)
        → with_steps rs (
            rs.steps
            ++ stop_step (event rs.id step_stop stop p) (record {
              name = name;
              category = category;
              status = rs_running;
              start_time = some start;
              stop_time = none;
              duration = pos 0;
              output = map (output_event rs.id) outputs;
            })
              ∷ [])
          ≡ with_steps rs
              (rs.steps ++ block_step rs.id (ran start name category status outputs stop p) ∷ [])
    ended (step_lifecycle n c s) = refl
    ended (lifecycle s) = refl
    ended (other_payload q) = refl

pub collect-blocks :
    (bs : List Block) (rs : State)
    → collect rs (blocks_events rs.id bs) ≡ with_steps rs (rs.steps ++ map (block_step rs.id) bs)
unfolding collect
collect-blocks [] rs = ap (with_steps rs) (sym (append-nil rs.steps))
collect-blocks (b ∷ bs) rs =
    collect-append (block_events rs.id b) (blocks_events rs.id bs) rs
    ∙ ap (λ r. collect r (blocks_events rs.id bs)) (collect-block rs b)
    ∙ collect-blocks bs (with_steps rs (rs.steps ++ block_step rs.id b ∷ []))
    ∙ ap (with_steps rs)
        (append_assoc rs.steps (block_step rs.id b ∷ []) (map (block_step rs.id) bs))
