-- ===== src/Steps/Replay.antt =====
-- How `Run` reads the result of a step back: from the results that the runner prefetched, or from the
-- store.
use flicker.Prelude.{
  ℕ, ◌≡◌, sym, ◌∙◌, ap, ◌<◌, suc, false, List, ◌∷◌, Option, none, some, Option-cases, inl, inr,
  arith, Text, text_eq, is_empty, find?,
}
use flicker.Time.{Time}
use flicker.Time.Order.{IsFourDigit}
use flicker.Time.Parse.{parse_time}
use flicker.Errors.{ok, err}
use flicker.Records.{StepResult, signal_none}
use flicker.World.{StepRow, WorkflowRow, World}
use flicker.Sqlite.Scan.{scan_step_result}
use flicker.Sqlite.Workflows.{has_id}
use flicker.Sqlite.Steps.{get_step_result}
use flicker.Leases.{contains}
use flicker.Context.{WorkflowContext, resolve_step_name, track_step}
use flicker.Steps.{
  Json, Outcome, cached_step_error, read_through, replay, check_signal, unless_cancelled,
  run_resolved, run,
}
use flicker.Steps.Durable.{row_of, Holds, run_resolved-Holds, scan_step_result-fields}

-- What the runner prefetched for the step.
abbrev pub prefetched : WorkflowContext → Text → Option StepResult
prefetched wc name = find? (λ s. text_eq s.step_name name) wc.step_cache

-- The workflow may execute the step `name`: the step is new to this execution, what was prefetched
-- for it, if anything, is its row in the table, the workflow's row has no cancellation, and the
-- queries succeed.
pub record IsReady (wc : WorkflowContext) (name : Text) (w : World) : Type 0 where
  pub same_result :
      (s : StepResult)
      → prefetched wc name ≡ some s
      → (r : StepRow) × (row_of wc name w ≡ some r) × (scan_step_result r ≡ ok s)
  pub unseen : contains name w.seen_steps ≡ false
  pub row : WorkflowRow
  pub present : find? (has_id wc.id) w.tables.workflows ≡ some row
  pub calm : row.signal ≡ signal_none
  pub first : w.driver w.calls ≡ none
  pub second : w.driver (suc w.calls) ≡ none

-- The driver's calls: the signal, and the result if it was not prefetched.
abbrev queries : Option StepResult → ℕ → ℕ
queries none n = suc (suc n)
queries (some s) n = suc n

-- The world after a step that was read back.
abbrev pub after_replay : WorkflowContext → Text → World → World
after_replay wc name w = record w {
  seen_steps = name ∷ w.seen_steps;
  calls = queries (prefetched wc name) w.calls;
}

some_injective : (a b : StepRow) → some a ≡ some b → a ≡ b
some_injective a b h = ground arith

-- A prefetched result has the error and the result of the row in the table.
prefetched-row :
    (wc : WorkflowContext) (name : Text) (w : World) (row : StepRow) (s : StepResult)
    → IsReady wc name w
    → row_of wc name w ≡ some row
    → prefetched wc name ≡ some s
    → (s.error ≡ row.error) × (s.result ≡ row.result)
prefetched-row wc name w row s ready found hit =
    let (r, found', scans) = ready.same_result s hit in
    let same : r ≡ row = some_injective r row (sym found' ∙ found) in
    let (same_error, same_result, _) = scan_step_result-fields r s scans in
    (same_error ∙ ap (λ x. x.error) same, same_result ∙ ap (λ x. x.result) same)

module _ {T : Type 0} (json : Json T) where
  -- A step whose result the table holds returns that result again and changes no table: its function
  -- is not called, whatever it is.
  pub run_resolved_of_Holds :
      (wc : WorkflowContext) (name : Text) (fn : World → Outcome T × World) (w : World) (a : T)
      → Holds json wc name a w
      → IsReady wc name w
      → run_resolved json wc name fn w ≡ (ok a, after_replay wc name w)
  unfolding run_resolved track_step check_signal unless_cancelled read_through get_step_result
      scan_step_result replay
  run_resolved_of_Holds wc name fn w a held ready = elim (Option-cases (prefetched wc name)) [
    | inl miss ↦ ground (
      arith, miss, held.found, held.no_error, held.decodes, held.stamped, ready.unseen,
      ready.present, ready.calm, ready.first, ready.second,
    )
    | inr (s, hit) ↦
        let (same_error, same_result) = prefetched-row wc name w held.row s ready held.found hit in
        ground (
          arith, hit, same_error, same_result, held.no_error, held.decodes, ready.unseen,
          ready.present, ready.calm, ready.first, ready.second,
        )
  ]

  -- A result with an error, such as the marker of a timed out event, is replayed as that error.
  pub run_resolved_of_error :
      (wc : WorkflowContext) (name : Text) (fn : World → Outcome T × World) (w : World)
      (row : StepRow) (t : Time)
      → row_of wc name w ≡ some row
      → is_empty row.error ≡ false
      → parse_time row.created_at ≡ some t
      → IsReady wc name w
      → run_resolved json wc name fn w ≡ (err (cached_step_error row.error), after_replay wc name w)
  unfolding run_resolved track_step check_signal unless_cancelled read_through get_step_result
      scan_step_result replay
  run_resolved_of_error wc name fn w row t found fails stamped ready =
      elim (Option-cases (prefetched wc name)) [
        | inl miss ↦
            ground (arith, miss, ready.unseen, ready.present, ready.calm, ready.first, ready.second)
        | inr (s, hit) ↦
            let (same_error, same_result) = prefetched-row wc name w row s ready found hit in
            ground (
              arith, hit, same_error, ready.unseen, ready.present, ready.calm, ready.first,
              ready.second,
            )
      ]

  -- A step runs once. If it ran and returned `a` in one execution, then in any later execution over
  -- the same step results it returns `a` without calling its function and without writing to a table,
  -- whether the runner prefetched the result or `Run` has to ask the store. The conditions: the first
  -- execution had not prefetched the step, encoding/json reads back what it wrote, the clock stays
  -- within years 1 to 9999, and in the later execution the step is new, what was prefetched for it, if
  -- anything, is its row in the table, the workflow has no cancellation requested and the queries
  -- succeed.
  pub run_executes_once :
      (wc : WorkflowContext) (name : Text) (fn again : World → Outcome T × World)
      (cache : List StepResult) (w v u : World) (a : T)
      → prefetched wc (resolve_step_name wc name) ≡ none
      → ((raw : Text) → json.marshal a ≡ some raw → json.unmarshal raw ≡ some a)
      → ((n : ℕ) → (0 < v.clock n) × IsFourDigit (v.clock n))
      → run json wc name fn w ≡ (ok a, v)
      → u.tables.step_results ≡ v.tables.step_results
      → IsReady (record wc { step_cache = cache }) (resolve_step_name wc name) u
      → run json (record wc { step_cache = cache }) name again u
        ≡ (ok a, after_replay (record wc { step_cache = cache }) (resolve_step_name wc name) u)
  unfolding run
  run_executes_once wc name fn again cache w v u a miss round_trip stamps returned same ready =
      let held =
        run_resolved-Holds json wc (resolve_step_name wc name) fn w v a miss round_trip stamps
          returned in
      run_resolved_of_Holds (record wc { step_cache = cache }) (resolve_step_name wc name) again u a
        (record {
          row = held.row;
          found = rw same held.found;
          no_error = held.no_error;
          decodes = held.decodes;
          time = held.time;
          stamped = held.stamped;
        })
        ready
