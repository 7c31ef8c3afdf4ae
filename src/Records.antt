-- ===== src/Records.antt =====
-- The data of flicker.go and store.go.
use flicker.Prelude.{ℕ, ◌*◌, Bool, true, false, Option, Text}
use flicker.Time.{Time}

-- `unset` is the empty string.
pub data Status : Type 0 where
  unset pending running completed failed cancelled suspended : Status

pub data Signal : Type 0 where
  signal_none cancel_requested : Signal

abbrev pub is_unset : Status → Bool
is_unset Status.unset = true
is_unset _ = false

abbrev pub is_pending : Status → Bool
is_pending Status.pending = true
is_pending _ = false

abbrev pub is_suspended : Status → Bool
is_suspended Status.suspended = true
is_suspended _ = false

abbrev pub is_completed : Status → Bool
is_completed Status.completed = true
is_completed _ = false

abbrev pub is_cancel_requested : Signal → Bool
is_cancel_requested signal_none = false
is_cancel_requested cancel_requested = true

-- Byte slices and raw JSON that may be nil are options.
pub record WorkflowRecord : Type 0 where
  pub id : Text
  pub type : Text
  pub version : Text
  pub status : Status
  pub signal : Signal
  pub payload : Text
  pub result : Option Text
  pub error : Text
  pub retry_after : Time
  pub attempts : ℕ
  pub occ_version : ℕ
  pub created_at : Time
  pub updated_at : Time

pub record StepResult : Type 0 where
  pub type : Text
  pub version : Text
  pub workflow_id : Text
  pub step_name : Text
  pub result : Option Text
  pub error : Text
  pub created_at : Time

pub record Subscription : Type 0 where
  pub workflow_id : Text
  pub type : Text
  pub version : Text
  pub step_name : Text
  pub correlation_key : Text
  pub deadline : Time
  pub created_at : Time

-- `RetryPolicy`; durations are nanoseconds, and those of a policy are not negative.
pub record RetryPolicy : Type 0 where
  pub max_attempts : ℕ
  pub base_delay : ℕ
  pub max_delay : ℕ

abbrev pub default_retry_policy : RetryPolicy
default_retry_policy = record {
  max_attempts = 3;
  base_delay = 1000000000;
  max_delay = 30 * 1000000000;
}
