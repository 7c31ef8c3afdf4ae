-- ===== src/Telemetry.antt =====
-- otel.go: what the program tells OpenTelemetry, as a list of emissions in their order. The values of
-- the two histograms are readings of another clock than the engine's and are left out. The telemetry
-- of the runner is not nil.
pub mod Run
pub mod Execution
pub mod Erase
pub mod Balance
pub mod Gauge
use flicker.Prelude.{ℕ, Bool, List, [], ◌∷◌, ◌++◌, Option, none, some, Text, codes}
use flicker.Errors.{Error, Result, ok, err}
use flicker.Records.{Status, WorkflowRecord}
use flicker.World.{World}
use flicker.Semconv.{Conventions}

-- `attribute.KeyValue`.
pub data Attribute : Type 0 where
  text : Text → Text → Attribute
  int : Text → ℕ → Attribute
  bool : Text → Bool → Attribute

-- The fields of `telemetry` that hold an instrument.
pub data Instrument : Type 0 where
  workflow_submitted workflow_completed workflow_duration workflow_active workflow_suspended
        step_executed step_duration :
      Instrument

pub record Description : Type 0 where
  pub name : Text
  pub description : Text
  pub unit : Text

-- The change of a counter.
pub data Delta : Type 0 where
  up down : ℕ → Delta

pub data Emission : Type 0 where
  starts_span : (name : Text) → List Attribute → Emission
  -- `RecordError` and `SetStatus`.
  records_error : Error → Emission
  ends_span : Emission
  adds : Instrument → Delta → List Attribute → Emission
  observes : Instrument → List Attribute → Emission

abbrev pub Traced : Type 0 → Type 0
Traced A = World → (A × World) × List Emission

abbrev pub emit_before :
    {A : Type 0} → List Emission → (A × World) × List Emission → (A × World) × List Emission
emit_before es (x, es') = (x, es ++ es')

-- The rest after a call that emits nothing itself.
abbrev pub continue_traced :
    {A B : Type 0} → Result A × World → (A → Traced (Result B)) → (Result B × World) × List Emission
continue_traced (ok a, w) f = f a w
continue_traced (err e, w) f = ((err e, w), [])

abbrev pub status_text : Status → Text
status_text Status.unset = []
status_text Status.pending = codes "pending"
status_text Status.running = codes "running"
status_text Status.completed = codes "completed"
status_text Status.failed = codes "failed"
status_text Status.cancelled = codes "cancelled"
status_text Status.suspended = codes "suspended"

module _ (conv : Conventions) where
  -- The instruments that `newTelemetry` makes.
  abbrev pub describe : Instrument → Description
  describe workflow_submitted = record {
    name = conv.metric_workflow_submitted;
    description = codes "Number of workflows submitted";
    unit = codes "{workflow}";
  }
  describe workflow_completed = record {
    name = conv.metric_workflow_completed;
    description = codes "Number of workflows reaching terminal state";
    unit = codes "{workflow}";
  }
  describe workflow_duration = record {
    name = conv.metric_workflow_duration;
    description = codes "Duration of a single workflow execution attempt";
    unit = codes "s";
  }
  describe workflow_active = record {
    name = conv.metric_workflow_active;
    description = codes "Number of currently executing workflows";
    unit = codes "{workflow}";
  }
  describe workflow_suspended = record {
    name = conv.metric_workflow_suspended;
    description = codes "Number of currently suspended workflows";
    unit = codes "{workflow}";
  }
  describe step_executed = record {
    name = conv.metric_step_executed;
    description = codes "Number of steps executed";
    unit = codes "{step}";
  }
  describe step_duration = record {
    name = conv.metric_step_duration;
    description = codes "Duration of step execution (cache misses only)";
    unit = codes "s";
  }

  abbrev pub start_workflow_span : WorkflowRecord → Emission
  start_workflow_span r = starts_span conv.span_workflow_execute (
      text conv.workflow_id r.id
      ∷ text conv.workflow_type r.type
      ∷ text conv.workflow_version r.version
      ∷ int conv.workflow_attempt r.attempts
      ∷ [])

  abbrev pub start_step_span : Text → Bool → Emission
  start_step_span step_name cache_hit =
      starts_span conv.span_step
        (text conv.step_name step_name ∷ bool conv.step_cache_hit cache_hit ∷ [])

  abbrev pub start_branch_span : Text → Emission
  start_branch_span branch_name =
      starts_span conv.span_parallel_branch (text conv.step_name branch_name ∷ [])

  abbrev wf_type_attrs : Text → Text → List Attribute
  wf_type_attrs type version =
      text conv.workflow_type type ∷ text conv.workflow_version version ∷ []

  abbrev pub record_submitted : Text → Text → Emission
  record_submitted type version = adds workflow_submitted (up 1) (wf_type_attrs type version)

  abbrev pub record_completed : Text → Text → Status → Emission
  record_completed type version status = adds workflow_completed (up 1) (
      text conv.workflow_type type
      ∷ text conv.workflow_version version
      ∷ text conv.workflow_status (status_text status)
      ∷ [])

  abbrev pub record_duration : Text → Text → Emission
  record_duration type version = observes workflow_duration (wf_type_attrs type version)

  abbrev pub adjust_active : Delta → Text → Text → Emission
  adjust_active delta type version = adds workflow_active delta (wf_type_attrs type version)

  abbrev pub record_step_executed : Text → Bool → Emission
  record_step_executed step_name cache_hit =
      adds step_executed (up 1)
        (text conv.step_name step_name ∷ bool conv.step_cache_hit cache_hit ∷ [])

  abbrev pub record_step_duration : Text → Emission
  record_step_duration step_name = observes step_duration (text conv.step_name step_name ∷ [])

abbrev pub end_span_with_error : Option Error → List Emission
end_span_with_error none = ends_span ∷ []
end_span_with_error (some e) = records_error e ∷ ends_span ∷ []

abbrev pub adjust_suspended : Delta → Emission
adjust_suspended delta = adds workflow_suspended delta []
