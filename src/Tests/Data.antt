-- ===== src/Tests/Data.antt =====
-- An order workflow with one row, a driver that never fails and a clock that stands at noon of the
-- first day.
use flicker.Prelude.{ℕ, ◌*◌, [], ◌∷◌, Option, none, some, arith, Text, codes}
use flicker.Time.{Time, second}
use flicker.Time.Order.{IsFourDigit}
use flicker.Time.Calendar.{date_of}
use flicker.Records.{Status, WorkflowRecord, pending, suspended, signal_none}
use flicker.World.{WorkflowRow, SubscriptionRow, Tables, World}
use flicker.Context.{WorkflowContext}
use flicker.Steps.{Json}

abbrev pub noon : Time
noon = 43200 * second

abbrev pub order_id : Text
order_id = codes "o1"

abbrev pub order_type : Text
order_type = codes "order:v1"

abbrev pub v1 : Text
v1 = codes "v1"

abbrev pub order_row : Status → Text → WorkflowRow
order_row s retry_after = record {
  id = order_id;
  type = order_type;
  version = v1;
  status = s;
  signal = signal_none;
  payload = codes "{}";
  result = none;
  error = [];
  retry_after = retry_after;
  attempts = 0;
  occ_version = 1;
  created_at = codes "0001-01-01T12:00:00Z";
  updated_at = codes "0001-01-01T12:00:00Z";
}

abbrev pub other_row : WorkflowRow
other_row = record (order_row pending []) { id = codes "o2" }

abbrev pub world_of : Tables → World
world_of t = record {
  tables = t;
  clock = λ n. noon;
  readings = 0;
  driver = λ n. none;
  calls = 0;
  ids = λ n. codes "id";
  generated = 0;
  seen_steps = [];
  leases = [];
}

abbrev pub start : World
start = world_of (record {
  workflows = order_row pending [] ∷ other_row ∷ [];
  step_results = [];
  subscriptions = [];
})

abbrev pub order_context : WorkflowContext
order_context = record {
  id = order_id;
  type = order_type;
  version = v1;
  step_cache = [];
  prefix = [];
  sleep_counter = 0;
  time_counter = 0;
  id_counter = 0;
}

abbrev pub order_record : ℕ → WorkflowRecord
order_record attempts = record {
  id = order_id;
  type = order_type;
  version = v1;
  status = pending;
  signal = signal_none;
  payload = codes "{}";
  result = none;
  error = [];
  retry_after = 0;
  attempts = attempts;
  occ_version = 1;
  created_at = noon;
  updated_at = noon;
}

-- Texts that are their own JSON.
abbrev pub raw_json : Json Text
raw_json = record { marshal = λ s. some s; unmarshal = λ s. some s }

-- Times as unary JSON: as many bytes as the number.
abbrev pub time_json : Json Time
time_json = record { marshal = λ t. some (t ∷ []); unmarshal = read }
  where
    read : Text → Option Time
    read [] = none
    read (t ∷ rest) = some t

abbrev pub subscription : SubscriptionRow
subscription = record {
  correlation_key = codes "pay";
  workflow_id = order_id;
  type = order_type;
  version = v1;
  step_name = codes "paid";
  deadline = codes "0001-01-02T12:00:00Z";
  created_at = codes "0001-01-01T12:00:00Z";
}

abbrev pub waiting : World
waiting = world_of (record {
  workflows = order_row suspended (codes "0001-01-02T12:00:00Z") ∷ other_row ∷ [];
  step_results = [];
  subscriptions = subscription ∷ [];
})

pub noon-IsFourDigit : IsFourDigit noon
unfolding date_of
noon-IsFourDigit = omega arith
