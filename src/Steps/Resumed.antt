-- ===== src/Steps/Resumed.antt =====
-- A whole execution over recorded results: what one replayed step leaves for the next.
use flicker.Prelude.{ℕ, suc, ◌≡◌, false, none, some, Text, find?}
use flicker.Errors.{ok}
use flicker.Records.{StepResult, signal_none}
use flicker.World.{StepRow, WorkflowRow, World}
use flicker.Sqlite.Scan.{scan_step_result}
use flicker.Sqlite.Workflows.{has_id}
use flicker.Leases.{contains}
use flicker.Context.{WorkflowContext, resolve_step_name}
use flicker.Steps.{Json, Outcome, run}
use flicker.Steps.Durable.{row_of, Holds}
use flicker.Steps.Replay.{prefetched, IsReady, after_replay, run_resolved_of_Holds}

-- Every prefetched result is its row in the table, the workflow's row has no cancellation, and the
-- driver does not fail.
pub record IsResumed (wc : WorkflowContext) (w : World) : Type 0 where
  pub same_results :
      (name : Text) (s : StepResult)
      → prefetched wc name ≡ some s
      → (r : StepRow) × (row_of wc name w ≡ some r) × (scan_step_result r ≡ ok s)
  pub row : WorkflowRow
  pub present : find? (has_id wc.id) w.tables.workflows ≡ some row
  pub calm : row.signal ≡ signal_none
  pub answers : (n : ℕ) → w.driver n ≡ none

pub after_replay-IsResumed :
    (wc : WorkflowContext) (name : Text) (w : World)
    → IsResumed wc w
    → IsResumed wc (after_replay wc name w)
after_replay-IsResumed wc name w h = record {
  same_results = h.same_results;
  row = h.row;
  present = h.present;
  calm = h.calm;
  answers = h.answers;
}

module _ {T : Type 0} (json : Json T) (wc : WorkflowContext) where
  pub after_replay-Holds :
      (name other : Text) (a : T) (w : World)
      → Holds json wc name a w
      → Holds json wc name a (after_replay wc other w)
  after_replay-Holds name other a w h = record {
    row = h.row;
    found = h.found;
    no_error = h.no_error;
    decodes = h.decodes;
    time = h.time;
    stamped = h.stamped;
  }

  pub resumed-IsReady :
      (name : Text) (w : World)
      → IsResumed wc w
      → contains name w.seen_steps ≡ false
      → IsReady wc name w
  resumed-IsReady name w h unseen = record {
    same_result = h.same_results name;
    unseen = unseen;
    row = h.row;
    present = h.present;
    calm = h.calm;
    first = h.answers w.calls;
    second = h.answers (suc w.calls);
  }

  pub run_recorded :
      (name : Text) (fn : World → Outcome T × World) (w : World) (a : T)
      → IsResumed wc w
      → contains (resolve_step_name wc name) w.seen_steps ≡ false
      → Holds json wc (resolve_step_name wc name) a w
      → run json wc name fn w ≡ (ok a, after_replay wc (resolve_step_name wc name) w)
  unfolding run
  run_recorded name fn w a h unseen held =
      run_resolved_of_Holds json wc (resolve_step_name wc name) fn w a held
        (resumed-IsReady (resolve_step_name wc name) w h unseen)
