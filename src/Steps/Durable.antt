-- ===== src/Steps/Durable.antt =====
-- What `Run` leaves in the table of step results: the result of a step that returned, and nothing of
-- a step that failed.
use flicker.Prelude.{
  ℕ, ◌≡◌, refl, sym, subst, ◌<◌, ◌∙◌, [], Option, none, some, Option-cases, inl, inr, arith, Text,
  text_eq, find?,
}
use flicker.Time.{Time, format_time}
use flicker.Time.Order.{IsFourDigit}
use flicker.Time.Parse.{parse_time}
use flicker.Time.RoundTrip.{parse_time-format_time}
use flicker.Errors.{Error, ok, err}
use flicker.Records.{StepResult, Signal, signal_none, cancel_requested}
use flicker.World.{StepRow, World, continue, continue-eq-ok}
use flicker.Sqlite.Scan.{scan_step_result}
use flicker.Sqlite.Steps.{has_key, replace_row, get_step_result}
use flicker.Sqlite.Replace.{find?-replace_row}
use flicker.Context.{WorkflowContext, track_step}
use flicker.Steps.{
  Json, Outcome, read_through, replay, unmarshal_result, execute_step, replay_or_execute,
  check_signal, unless_cancelled, run_resolved,
}

-- The row under a step's primary key.
abbrev pub row_of : WorkflowContext → Text → World → Option StepRow
row_of wc name w = find? (has_key wc.type wc.version wc.id name) w.tables.step_results

track_step-tables :
    (name : Text) (w v : World)
    → track_step name w ≡ (ok tt, v)
    → (v.tables ≡ w.tables) × (v.clock ≡ w.clock)
unfolding track_step
track_step-tables name w v h = ground arith

check_signal-tables :
    (wc : WorkflowContext) (name : Text) (s : Signal) (w v : World)
    → check_signal wc name w ≡ (ok s, v)
    → (v.tables ≡ w.tables) × (v.clock ≡ w.clock)
unfolding check_signal
check_signal-tables wc name s w v h = ground arith

-- A result scans if its time does, and keeps the columns that `Run` reads.
pub scan_step_result-fields :
    (r : StepRow) (s : StepResult)
    → scan_step_result r ≡ ok s
    → (s.error ≡ r.error)
      × (s.result ≡ r.result)
      × ((t : Time) × (parse_time r.created_at ≡ some t))
unfolding scan_step_result
scan_step_result-fields r s h = elim (Option-cases (parse_time r.created_at)) [
  | inl e ↦ absurd (ground arith)
  | inr (t, e) ↦ (ground arith, ground arith, (t, e))
]

get_step_result-tables :
    (a b c d : Text) (w : World)
    → ((get_step_result a b c d w).1.tables ≡ w.tables)
      × ((get_step_result a b c d w).1.clock ≡ w.clock)
unfolding get_step_result
get_step_result-tables a b c d w = ground arith

get_step_result-row :
    (a b c d : Text) (w : World) (s : StepResult)
    → (get_step_result a b c d w).0 ≡ ok s
    → (r : StepRow) × (find? (has_key a b c d) w.tables.step_results ≡ some r)
      × (scan_step_result r ≡ ok s)
unfolding get_step_result
get_step_result-row a b c d w s h =
    elim (Option-cases (find? (has_key a b c d) w.tables.step_results)) [
      | inl e ↦ absurd (ground arith)
      | inr (r, e) ↦ (r, e, ground arith)
    ]

-- What the second lookup finds, where the prefetched cache has nothing.
read_through-miss :
    (wc : WorkflowContext) (name : Text) (s : StepResult) (w v : World)
    → find? (λ r. text_eq r.step_name name) wc.step_cache ≡ none
    → read_through wc name w ≡ (ok (some s), v)
    → (get_step_result wc.type wc.version wc.id name w).0 ≡ ok s
unfolding read_through
read_through-miss wc name s w v miss h = ground arith

read_through-tables :
    (wc : WorkflowContext) (name : Text) (w : World)
    → ((read_through wc name w).1.tables ≡ w.tables) × ((read_through wc name w).1.clock ≡ w.clock)
unfolding read_through
read_through-tables wc name w =
    ground (arith, get_step_result-tables wc.type wc.version wc.id name w)

module _ {T : Type 0} (json : Json T) where
  -- What `execute_step` saves is what `json.Marshal` makes of the value that it returns.
  execute_step-saves :
      (wc : WorkflowContext) (name : Text) (fn : World → Outcome T × World) (w v : World) (a : T)
      → execute_step json wc name fn w ≡ (ok a, v)
      → (t : Time) × (v.clock ≡ (fn w).1.clock)
        × (t ≡ v.clock (fn w).1.readings)
        × (v.tables.step_results
            ≡ replace_row
                (record {
                  type = wc.type;
                  version = wc.version;
                  workflow_id = wc.id;
                  step_name = name;
                  result = json.marshal a;
                  error = [];
                  created_at = format_time t;
                })
                (fn w).1.tables.step_results)
  unfolding execute_step
  execute_step-saves wc name fn w v a h =
      ((fn w).1.clock (fn w).1.readings, ground arith, ground arith, ground arith)

  replay-eq-ok :
      (name : Text) (s : StepResult) (a : T)
      → replay json name s ≡ ok a
      → (s.error ≡ []) × (unmarshal_result json s.result ≡ some a)
  unfolding replay
  replay-eq-ok name s a h = ground arith

  execute_step-marshals :
      (wc : WorkflowContext) (name : Text) (fn : World → Outcome T × World) (w v : World) (a : T)
      → execute_step json wc name fn w ≡ (ok a, v)
      → (raw : Text) × (json.marshal a ≡ some raw)
  unfolding execute_step
  execute_step-marshals wc name fn w v a h = elim (Option-cases (json.marshal a)) [
    | inl e ↦ absurd (ground arith)
    | inr some_raw ↦ some_raw
  ]

  -- The table holds a result of the step that decodes to `a`.
  pub record Holds (wc : WorkflowContext) (name : Text) (a : T) (w : World) : Type 0 where
    pub row : StepRow
    pub found : row_of wc name w ≡ some row
    pub no_error : row.error ≡ []
    pub decodes : unmarshal_result json row.result ≡ some a
    pub time : Time
    pub stamped : parse_time row.created_at ≡ some time

  execute_step-Holds :
      (wc : WorkflowContext) (name : Text) (fn : World → Outcome T × World) (w v : World) (a : T)
      → ((raw : Text) → json.marshal a ≡ some raw → json.unmarshal raw ≡ some a)
      → ((n : ℕ) → (0 < v.clock n) × IsFourDigit (v.clock n))
      → execute_step json wc name fn w ≡ (ok a, v)
      → Holds wc name a v
  execute_step-Holds wc name fn w v a round_trip stamps h =
      let (raw, marshals) = execute_step-marshals wc name fn w v a h in
      let (t, same_clock, read, saved) = execute_step-saves wc name fn w v a h in
      record {
        row = record {
          type = wc.type;
          version = wc.version;
          workflow_id = wc.id;
          step_name = name;
          result = json.marshal a;
          error = [];
          created_at = format_time t;
        };
        found = rw saved (find?-replace_row _ (fn w).1.tables.step_results);
        no_error = refl;
        decodes = rw marshals (round_trip raw marshals);
        time = t;
        stamped =
            rw read
              (parse_time-format_time _ (stamps (fn w).1.readings).0 (stamps (fn w).1.readings).1);
      }

  replay-Holds :
      (wc : WorkflowContext) (name : Text) (w v : World) (s : StepResult) (a : T)
      → find? (λ r. text_eq r.step_name name) wc.step_cache ≡ none
      → read_through wc name w ≡ (ok (some s), v)
      → replay json name s ≡ ok a
      → Holds wc name a v
  replay-Holds wc name w v s a miss read h =
      let hit = read_through-miss wc name s w v miss read in
      let (r, found, scans) = get_step_result-row wc.type wc.version wc.id name w s hit in
      let (same_error, same_result, (t, parses)) = scan_step_result-fields r s scans in
      let (no_error, decodes) = replay-eq-ok name s a h in
      let same_tables : v.tables ≡ w.tables = cc (read_through-tables wc name w).0 in
      record {
        row = r;
        found = rw same_tables found;
        no_error = sym same_error ∙ no_error;
        decodes = rw same_result at decodes;
        time = t;
        stamped = parses;
      }

  read_and_run-Holds :
      (wc : WorkflowContext) (name : Text) (fn : World → Outcome T × World) (w v : World) (a : T)
      → find? (λ r. text_eq r.step_name name) wc.step_cache ≡ none
      → ((raw : Text) → json.marshal a ≡ some raw → json.unmarshal raw ≡ some a)
      → ((n : ℕ) → (0 < v.clock n) × IsFourDigit (v.clock n))
      → continue (read_through wc name w) (replay_or_execute json wc name fn) ≡ (ok a, v)
      → Holds wc name a v
  read_and_run-Holds wc name fn w v a miss round_trip stamps h =
      let (cached, u, read, rest) =
        continue-eq-ok (read_through wc name w) (replay_or_execute json wc name fn) h in
      go cached u read rest
    where
      go :
          (cached : Option StepResult) (u : World)
          → read_through wc name w ≡ (ok cached, u)
          → replay_or_execute json wc name fn cached u ≡ (ok a, v)
          → Holds wc name a v
      go none u read rest = execute_step-Holds wc name fn u v a round_trip stamps rest
      go (some s) u read rest =
          let same : u ≡ v = cc rest in
          subst (Holds wc name a) same (replay-Holds wc name w u s a miss read (cc rest))

  unless_cancelled-Holds :
      (wc : WorkflowContext) (name : Text) (fn : World → Outcome T × World) (w v : World) (a : T)
      → find? (λ r. text_eq r.step_name name) wc.step_cache ≡ none
      → ((raw : Text) → json.marshal a ≡ some raw → json.unmarshal raw ≡ some a)
      → ((n : ℕ) → (0 < v.clock n) × IsFourDigit (v.clock n))
      → (signal : Signal) → unless_cancelled json wc name fn signal w ≡ (ok a, v)
      → Holds wc name a v
  unfolding unless_cancelled
  unless_cancelled-Holds wc name fn w v a miss round_trip stamps cancel_requested h = absurd (cc)
  unless_cancelled-Holds wc name fn w v a miss round_trip stamps signal_none h =
      read_and_run-Holds wc name fn w v a miss round_trip stamps h

  -- A step that returns a value has its result in the table, where the prefetched cache did not hold
  -- the step, encoding/json reads back what it wrote, and the clock stays within years 1 to 9999.
  pub run_resolved-Holds :
      (wc : WorkflowContext) (name : Text) (fn : World → Outcome T × World) (w v : World) (a : T)
      → find? (λ r. text_eq r.step_name name) wc.step_cache ≡ none
      → ((raw : Text) → json.marshal a ≡ some raw → json.unmarshal raw ≡ some a)
      → ((n : ℕ) → (0 < v.clock n) × IsFourDigit (v.clock n))
      → run_resolved json wc name fn w ≡ (ok a, v)
      → Holds wc name a v
  unfolding run_resolved
  run_resolved-Holds wc name fn w v a miss round_trip stamps h =
      let (_, w₁, tracked, h₁) = continue-eq-ok (track_step name w) _ h in
      let (signal, w₂, checked, h₂) = continue-eq-ok (check_signal wc name w₁) _ h₁ in
      unless_cancelled-Holds wc name fn w₂ v a miss round_trip stamps signal h₂

  -- A step that ends in an error, a panic included, has saved nothing: the tables are those that its
  -- function left.
  execute_step-tables_of_err :
      (wc : WorkflowContext) (name : Text) (fn : World → Outcome T × World) (w v : World)
      (e : Error)
      → execute_step json wc name fn w ≡ (err e, v)
      → v.tables ≡ (fn w).1.tables
  unfolding execute_step
  execute_step-tables_of_err wc name fn w v e h = ground arith
