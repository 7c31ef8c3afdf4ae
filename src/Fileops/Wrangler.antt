-- ===== src/Fileops/Wrangler.antt =====
-- `Execute` of examples/fileops/workflow.go. The closures of the three branches write variables of
-- `Execute`; here a branch gives its value beside its error, and `gather-parallel` relates the three to
-- `Parallel`.
pub mod Gather
pub mod Labels
use flicker.Prelude.{
  ℕ, ◌+◌, ◌*◌, Bool, true, false, List, [], ◌∷◌, ◌++◌, Option, none, some, Text, codes, length,
  if◌then◌else◌,
}
use flicker.Time.{Time, second, decimal}
use flicker.Errors.{Error, plain, permanent, is_event_timeout, Result, ok, err}
use flicker.World.{World, Exec, pure, raise, ◌>>=◌, ◌>>◌}
use flicker.Context.{WorkflowContext, scope}
use flicker.Steps.{Json, Outcome, returned, panic_to_error, run}
use flicker.Waits.{returning, provider_get, sleep_until, time_now, id_new, wait_for_event}
use flicker.Parallel.{Branch, join_errors}
use flicker.Registry.{WorkflowDef}
use flicker.Fileops.{
  CycleRequest, FileEntry, Map, CycleReport, Manifest, Host, seed, scan, detect_types,
  compute_checksums, measure_each, write_manifest, archive, prune,
}

pub record CleanupSignal : Type 0 where
  pub reason : Text

pub record Formats : Type 0 where
  pub TimeJson : Json Time
  pub TextJson : Json Text
  pub CountJson : Json ℕ
  pub FilesJson : Json (List FileEntry)
  pub LabelsJson : Json (Map Text)
  pub SizesJson : Json (Map ℕ)
  pub BoolJson : Json Bool
  pub SignalJson : Json CleanupSignal

-- The variables `types`, `checksums` and `sizes`.
pub record Findings : Type 0 where
  pub types : Map Text
  pub checksums : Map Text
  pub sizes : Map ℕ

abbrev error_of {ℓ} : {A : Type ℓ} → Result A → Option Error
error_of (ok a) = none
error_of (err e) = some e

-- Without an error all three are set.
abbrev findings_or :
    Option Error → Result (Map Text) → Result (Map Text) → Result (Map ℕ) → Result Findings
findings_or none (ok types) (ok checksums) (ok sizes) =
    ok (record { types = types; checksums = checksums; sizes = sizes })
findings_or (some e) _ _ _ = err e
findings_or none _ _ _ = err (plain [])

-- A step of a branch, under the `panicToError` of the branch.
abbrev pub branch_step : {T : Type 0} → Json T → WorkflowContext → Text → Text → Exec T → Exec T
branch_step json wc branch name m =
    panic_to_error (returning (run json (scope wc branch) name (returning m)))

module _ (host : Host) (f : Formats) where
  unfoldable pub gather : WorkflowContext → List FileEntry → Exec Findings
  unfolding run panic_to_error scope join_errors detect_types compute_checksums measure_each
  gather wc files w =
      let (types, w₁) =
        branch_step f.LabelsJson wc (codes "classify") (codes "detect-types")
          (detect_types host files) w in
      let (checksums, w₂) =
        branch_step f.LabelsJson wc (codes "checksum") (codes "compute-checksums")
          (compute_checksums host files) w₁ in
      let (sizes, w₃) =
        branch_step f.SizesJson wc (codes "measure") (codes "measure-sizes")
          (measure_each host files []) w₂ in
      (
        findings_or (join_errors (error_of types ∷ error_of checksums ∷ error_of sizes ∷ [])) types
            checksums sizes,
        w₃,
      )

  -- `time.Now().UnixNano()` is not the engine's clock.
  abbrev archive_name : Exec Text
  archive_name = do n ← host.unix_nano; pure (codes "batch-" ++ decimal n)

  -- A timeout is no error here.
  abbrev pub awaited : Result CleanupSignal → Result (Option CleanupSignal)
  awaited (ok signal) = ok (some signal)
  awaited (err e) = if is_event_timeout e then ok none else err e

  unfoldable pub await_cleanup : WorkflowContext → ℕ → Exec (Option CleanupSignal)
  unfolding wait_for_event decimal
  await_cleanup wc cycle_num w =
      let (r, w') =
        wait_for_event f.SignalJson wc (codes "await-cleanup")
          (codes "cleanup:" ++ decimal cycle_num) (15 * second) w in
      (awaited r, w')

  abbrev or_false : Result Bool → Bool
  or_false (ok b) = b
  or_false (err e) = false

  -- Any error of the step is dropped.
  unfoldable pub clean_up : WorkflowContext → Text → Option CleanupSignal → Exec Bool
  unfolding run prune
  clean_up wc dir none w = (ok false, w)
  clean_up wc dir (some signal) w =
      let (r, w') = run f.BoolJson wc (codes "cleanup-archives") (returning (prune host dir)) w in
      (ok (or_false r), w')

  -- Behind the sleep.
  unfoldable pub archive_cycle :
      WorkflowContext
      → CycleRequest
      → Time
      → Text
      → List FileEntry
      → Findings
      → Text
      → Text
      → Exec CycleReport
  unfolding run archive time_now await_cleanup clean_up
  archive_cycle wc req start cycle_id files found archive_name manifest_path = do
    archived ←
        run f.CountJson wc (codes "archive-files")
          (returning (archive host req.work_dir (host.join req.archive_dir archive_name) files))
    let (wc', again) = time_now f.TimeJson wc
    again
    signal ← await_cleanup wc' req.cycle_num
    cleaned_up ← clean_up wc' req.archive_dir signal
    pure (record {
      cycle_id = cycle_id;
      cycle_num = req.cycle_num;
      started_at = start;
      files_processed = length files;
      files_archived = archived;
      checksums = found.checksums;
      types = found.types;
      sizes = found.sizes;
      manifest_path = manifest_path;
      cleaned_up = cleaned_up;
    })

  -- From the branches to the sleep.
  unfoldable pub process_files :
      WorkflowContext → CycleRequest → Time → Text → List FileEntry → Exec CycleReport
  unfolding gather provider_get write_manifest run sleep_until archive_cycle
  process_files wc req start cycle_id [] =
      raise (permanent (plain (codes "no files found in " ++ req.work_dir)))
  process_files wc req start cycle_id (e ∷ es) = do
    found ← gather wc (e ∷ es)
    name ← provider_get f.TextJson wc (codes "archive-name") 1 (returning archive_name)
    path ← run f.TextJson wc (codes "write-manifest") (
        returning (
          write_manifest host req.work_dir (record {
            cycle_id = cycle_id;
            timestamp = start;
            files = e ∷ es;
            checksums = found.checksums;
            types = found.types;
            sizes = found.sizes;
          })))
    let (wc', sleep) = sleep_until f.TimeJson wc (start + 5 * second)
    sleep
    archive_cycle wc' req start cycle_id (e ∷ es) found name path

  unfoldable pub execute : WorkflowContext → CycleRequest → Exec CycleReport
  unfolding time_now id_new run seed scan process_files
  execute wc req =
      let (wc₁, read_time) = time_now f.TimeJson wc in
      let (wc₂, new_id) = id_new f.TextJson wc₁ in
      do
        start ← read_time
        cycle_id ← new_id
        run f.CountJson wc₂ (codes "seed-files") (seed host req.work_dir cycle_id)
        files ← run f.FilesJson wc₂ (codes "scan-directory") (returning (scan host req.work_dir))
        process_files wc₂ req start cycle_id files

  -- `FileWranglerDef`.
  abbrev pub definition : WorkflowDef CycleRequest CycleReport
  definition = record {
    name = codes "file-wrangler";
    version = codes "v1";
    execute = λ wc req. returning (execute wc req);
  }
