-- ===== src/Semconv.antt =====
-- semconv/semconv.go: the names of attributes, spans and metrics.
use flicker.Prelude.{List, [], ◌∷◌, ◌++◌, Text, codes}

pub record Conventions : Type 0 where
  pub workflow_id : Text
  pub workflow_type : Text
  pub workflow_version : Text
  pub workflow_status : Text
  pub workflow_attempt : Text
  pub step_name : Text
  pub step_cache_hit : Text
  pub span_workflow_execute : Text
  pub span_step : Text
  pub span_parallel_branch : Text
  pub metric_workflow_submitted : Text
  pub metric_workflow_completed : Text
  pub metric_workflow_duration : Text
  pub metric_workflow_active : Text
  pub metric_workflow_suspended : Text
  pub metric_step_executed : Text
  pub metric_step_duration : Text

-- `Option`, and what the loop of `New` makes of the prefix.
pub data PrefixOption : Type 0 where
  with_prefix : Text → PrefixOption

unfoldable pub prefix_from : Text → List PrefixOption → Text
prefix_from prefix [] = prefix
prefix_from prefix (with_prefix p ∷ opts) = prefix_from p opts

abbrev pub conventions_with : Text → Conventions
conventions_with p = record {
  workflow_id = p ++ codes ".workflow.id";
  workflow_type = p ++ codes ".workflow.type";
  workflow_version = p ++ codes ".workflow.version";
  workflow_status = p ++ codes ".workflow.status";
  workflow_attempt = p ++ codes ".workflow.attempt";
  step_name = p ++ codes ".step.name";
  step_cache_hit = p ++ codes ".step.cache_hit";
  span_workflow_execute = p ++ codes ".workflow.execute";
  span_step = p ++ codes ".workflow.step";
  span_parallel_branch = p ++ codes ".workflow.branch";
  metric_workflow_submitted = p ++ codes ".workflow.submitted";
  metric_workflow_completed = p ++ codes ".workflow.completed";
  metric_workflow_duration = p ++ codes ".workflow.duration";
  metric_workflow_active = p ++ codes ".workflow.active";
  metric_workflow_suspended = p ++ codes ".workflow.suspended";
  metric_step_executed = p ++ codes ".step.executed";
  metric_step_duration = p ++ codes ".step.duration";
}

unfoldable pub new_conventions : List PrefixOption → Conventions
unfolding prefix_from
new_conventions opts = conventions_with (prefix_from (codes "flicker") opts)

abbrev pub default_conventions : Conventions
default_conventions = new_conventions []
