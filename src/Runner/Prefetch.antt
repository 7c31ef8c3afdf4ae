-- ===== src/Runner/Prefetch.antt =====
-- What `LocalRunner.Run` prefetches with `ListStepResults` against the table that it comes from.
use flicker.Prelude.{
  ◌≡◌, refl, sym, ap, ◌∙◌, subst, Bool, true, List, [], ◌∷◌, some, Bool-cases, inl, inr, arith,
  Text, text_eq_iff, find?, find?-holds, filter, All,
}
use flicker.Errors.{ok}
use flicker.Records.{WorkflowRecord, StepResult}
use flicker.World.{StepRow, World}
use flicker.Sqlite.Scan.{scan_step_result, scan_all}
use flicker.Sqlite.Steps.{in_workflow, has_key, list_step_results}
use flicker.Sqlite.Workflows.{order_by}
use flicker.Sqlite.Rows.{All-order_by, All-filter_and, All-map}
use flicker.Steps.Durable.{row_of}
use flicker.Steps.Replay.{prefetched}
use flicker.Sqlite.Keys.{key_of, KeysDistinct, All-found}
use flicker.Runner.{context_of, push_all}

-- The row of the table that a result was read from.
abbrev IsRead : WorkflowRecord → List StepRow → StepResult → Type 0
IsRead r rows s =
    (row : StepRow) × (find? (has_key r.type r.version r.id s.step_name) rows ≡ some row)
    × (scan_step_result row ≡ ok s)

found_in_workflow :
    (r : WorkflowRecord) (rows : List StepRow) (x : StepRow)
    → (find? (key_of x) rows ≡ some x) × (in_workflow r.type r.version r.id x ≡ true)
    → find? (has_key r.type r.version r.id x.step_name) rows ≡ some x
found_in_workflow r rows x (found, member) =
    let st : x.type ≡ r.type = ground (arith, text_eq_iff x.type r.type) in
    let sv : x.version ≡ r.version = ground (arith, text_eq_iff x.version r.version) in
    let si : x.workflow_id ≡ r.id = ground (arith, text_eq_iff x.workflow_id r.id) in
    let same : has_key r.type r.version r.id x.step_name ≡ key_of x = rw (st, sv, si) refl in
    ap (λ k. find? k rows) same ∙ found

scan_step_result-step_name :
    (x : StepRow) (s : StepResult) → scan_step_result x ≡ ok s → s.step_name ≡ x.step_name
unfolding scan_step_result
scan_step_result-step_name x s h = ground arith

scan_all-cons :
    (x : StepRow) (xs : List StepRow) (s : StepResult) (steps : List StepResult)
    → scan_all scan_step_result (x ∷ xs) ≡ ok (s ∷ steps)
    → (scan_step_result x ≡ ok s) × (scan_all scan_step_result xs ≡ ok steps)
unfolding scan_all
scan_all-cons x xs s steps h = (ground arith, ground arith)

All-scan_all :
    (r : WorkflowRecord) (rows xs : List StepRow) (steps : List StepResult)
    → All (λ x. find? (has_key r.type r.version r.id x.step_name) rows ≡ some x) xs
    → scan_all scan_step_result xs ≡ ok steps
    → All (IsRead r rows) steps
unfolding scan_all
All-scan_all r rows xs [] h scans = tt
All-scan_all r rows [] (s ∷ steps) h scans = absurd (ground arith)
All-scan_all r rows (x ∷ xs) (s ∷ steps) h scans =
    let (head, tail) = scan_all-cons x xs s steps scans in
    let name : s.step_name ≡ x.step_name = scan_step_result-step_name x s head in
    (
      (x, ap (λ n. find? (has_key r.type r.version r.id n) rows) name ∙ h.0, head),
      All-scan_all r rows xs steps h.1 tail,
    )

All-push_all :
    {A : Type 0} (P : A → Type 0) (xs acc : List A) → All P xs → All P acc → All P (push_all xs acc)
All-push_all P [] acc h k = k
All-push_all P (x ∷ xs) acc h k = All-push_all P xs (x ∷ acc) h.1 (h.0, k)

All-find? :
    {A : Type 0} (P : A → Type 0) (p : A → Bool) (xs : List A) (x : A)
    → All P xs
    → find? p xs ≡ some x
    → P x
unfolding find?
All-find? P p [] x h found = absurd (ground arith)
All-find? P p (y ∷ ys) x h found = elim (Bool-cases (p y)) [
  | inl pass ↦ subst P (ground arith) h.0
  | inr drop ↦ All-find? P p ys x h.1 (ground arith)
]

list_step_results-eq-ok :
    (r : WorkflowRecord) (steps : List StepResult) (w v : World)
    → list_step_results r.type r.version r.id w ≡ (ok steps, v)
    → scan_all scan_step_result (
        order_by
          (λ x. x.created_at)
          (filter (in_workflow r.type r.version r.id) w.tables.step_results))
      ≡ ok steps
unfolding list_step_results
list_step_results-eq-ok r steps w v h = ground arith

-- Whatever the runner prefetched for a step is what the store would return for it: the result of the
-- row under the step's key, where the table has a primary key.
pub prefetched-row_of :
    (r : WorkflowRecord) (name : Text) (steps : List StepResult) (s : StepResult) (w v : World)
    → KeysDistinct w.tables.step_results
    → list_step_results r.type r.version r.id w ≡ (ok steps, v)
    → prefetched (context_of r steps) name ≡ some s
    → (row : StepRow) × (row_of (context_of r steps) name w ≡ some row)
      × (scan_step_result row ≡ ok s)
prefetched-row_of r name steps s w v d listed hit =
    let rows = w.tables.step_results in
    let members = All-filter_and _ (in_workflow r.type r.version r.id) rows (All-found rows d) in
    let ordered =
      All-order_by _ (λ x. x.created_at) _ (All-map _ _ (found_in_workflow r rows) _ members) in
    let read = All-scan_all r rows _ steps ordered (list_step_results-eq-ok r steps w v listed) in
    let (row, found, scans) =
      All-find? (IsRead r rows) _ (push_all steps []) s (All-push_all _ steps [] read tt) hit in
    let same : s.step_name ≡ name =
      (text_eq_iff s.step_name name).0 (find?-holds _ (push_all steps []) s hit) in
    (row, sym (ap (λ n. find? (has_key r.type r.version r.id n) rows) same) ∙ found, scans)
