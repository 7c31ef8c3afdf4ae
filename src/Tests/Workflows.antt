-- ===== src/Tests/Workflows.antt =====
-- The example workflows, executed again over recorded results.
use flicker.Prelude.{◌≡◌, refl, [], ◌∷◌, none, some, arith, Text, codes, text_eq, find?}
use flicker.Time.{Time, format_time}
use flicker.Time.RoundTrip.{parse_time-format_time}
use flicker.Errors.{plain, err}
use flicker.Records.{StepResult, pending}
use flicker.World.{StepRow, World, raise}
use flicker.Context.{WorkflowContext}
use flicker.Steps.{Json, returned}
use flicker.Steps.Durable.{row_of, Holds}
use flicker.Steps.Resumed.{IsResumed}
use flicker.Runner.{context_of}
use flicker.Workflows.Order as Order
use flicker.Workflows.Order.Replay.{behind_reservation, reserved_once}
use flicker.Tests.Data.{
  noon, order_id, order_type, order_row, order_record, start, time_json, v1, noon-IsFourDigit,
}

abbrev user : Order.User
user = record { id = codes "u1"; name = codes "Ann"; email = [] }

abbrev reservation : Order.Reservation
reservation = record { id = codes "r1"; expires_at = noon }

abbrev payment : Order.PaymentResult
payment = record { status = codes "approved"; reference = codes "p1" }

abbrev result : Order.OrderResult
result = record {
  order_id = order_id;
  status = codes "confirmed";
  payment_ref = codes "p1";
  reservation_id = codes "r1";
}

-- A type of one value.
abbrev single : {T : Type 0} → T → Json T
single t = record { marshal = λ a. some []; unmarshal = λ s. some t }

-- The other side never answers.
abbrev dependencies : Order.Dependencies
dependencies = record {
  get = λ url. raise (plain (codes "timeout"));
  post = λ url. raise (plain (codes "timeout"));
  base_url = codes "http://shop";
  save_order = λ r w. (returned (err (plain (codes "gone"))), w);
  UserJson = single user;
  ReservationJson = single reservation;
  TimeJson = time_json;
  PaymentJson = single payment;
  ResultJson = single result;
}

abbrev request : Order.Request
request = record { order_id = order_id; customer_id = codes "u1" }

abbrev recorded : Text → Text → StepRow
recorded name value = record {
  type = order_type;
  version = v1;
  workflow_id = order_id;
  step_name = name;
  result = some value;
  error = [];
  created_at = format_time noon;
}

-- All steps are recorded; the sleep ends at `until`.
abbrev over : Time → World
over until = record start {
  tables = record start.tables {
    step_results =
        recorded (codes "fetch_user") []
        ∷ recorded (codes "reserve_inventory") []
        ∷ recorded (codes "_sleep.until:1") (until ∷ [])
        ∷ recorded (codes "check_payment") []
        ∷ recorded (codes "save_result") []
        ∷ recorded (codes "_time.now:1") (until ∷ [])
        ∷ [];
  };
}

abbrev wc : WorkflowContext
wc = context_of (order_record 0) []

nothing_prefetched : (s : StepResult) → none ≡ some s → ⊥
nothing_prefetched s h = absurd (ground (arith, h))

over-IsResumed : (until : Time) → IsResumed wc (over until)
unfolding find? text_eq
over-IsResumed until = record {
  same_results = λ name s hit. absurd (nothing_prefetched s hit);
  row = order_row pending [];
  present = refl;
  calm = refl;
  answers = λ n. refl;
}

single-Holds :
    {T : Type 0} (t : T) (name : Text) (until : Time)
    → row_of wc name (over until) ≡ some (recorded name [])
    → Holds (single t) wc name t (over until)
single-Holds t name until found = record {
  row = recorded name [];
  found = found;
  no_error = refl;
  decodes = refl;
  time = noon;
  stamped = parse_time-format_time noon (omega arith) noon-IsFourDigit;
}

time-Holds :
    (name : Text) (until : Time)
    → row_of wc name (over until) ≡ some (recorded name (until ∷ []))
    → Holds time_json wc name until (over until)
time-Holds name until found = record {
  row = recorded name (until ∷ []);
  found = found;
  no_error = refl;
  decodes = refl;
  time = noon;
  stamped = parse_time-format_time noon (omega arith) noon-IsFourDigit;
}

reserved_once_example :
    (Order.execute dependencies wc request (over noon)
      ≡ Order.wait_and_settle dependencies wc request reservation
          (behind_reservation dependencies (order_record 0) [] request (over noon)))
    × (Order.execute (record dependencies { post = λ url. raise (plain []) }) wc request (over noon)
        ≡ Order.execute dependencies wc request (over noon))
unfolding find? text_eq
reserved_once_example =
    reserved_once dependencies (λ url. raise (plain [])) (order_record 0) [] request user
      reservation (over noon) refl (over-IsResumed noon)
      (single-Holds user (codes "fetch_user") noon refl)
      (single-Holds reservation (codes "reserve_inventory") noon refl)
