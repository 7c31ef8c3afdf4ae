-- ===== src/Fileops/Wrangler/Gather.antt =====
-- The three branches of examples/fileops/workflow.go as `Parallel` runs them.
use flicker.Prelude.{ℕ, ◌≡◌, refl, ap, List, [], ◌∷◌, Option, none, some, arith, Text, codes}
use flicker.Errors.{Error, Result, ok, err}
use flicker.World.{World, Exec}
use flicker.Context.{WorkflowContext, scope}
use flicker.Steps.{Json, Outcome, returned, panic_to_error, run}
use flicker.Waits.{returning}
use flicker.Parallel as Parallel
use flicker.Parallel.{Branch, join_from, join_error, join_errors, run_branches, parallel, result_of}
use flicker.Parallel.Join.{join_errors_quiet}
use flicker.Fileops.{FileEntry, Map, Host, detect_types, compute_checksums, measure_each}
use flicker.Fileops.Wrangler.{Formats, error_of, findings_or, gather}

abbrev forget {ℓ} : {A : Type ℓ} → Result A → Result (Unit {0})
forget (ok a) = ok tt
forget (err e) = err e

abbrev forgotten : {A : Type 0} → Result A × World → Outcome (Unit {0}) × World
forgotten (r, w) = (returned (forget r), w)

-- The branch of one step, as the argument of `Parallel`.
abbrev branch_of : {T : Type 0} → Json T → Text → Text → Exec T → Branch
branch_of json branch name m = record {
  name = branch;
  run = λ wc w. forgotten (run json wc name (returning m) w);
}

abbrev branches : Host → Formats → List FileEntry → List Branch
branches host f files =
    branch_of f.LabelsJson (codes "classify") (codes "detect-types") (detect_types host files)
    ∷ branch_of f.LabelsJson (codes "checksum") (codes "compute-checksums")
        (compute_checksums host files)
    ∷ branch_of f.SizesJson (codes "measure") (codes "measure-sizes") (measure_each host files [])
    ∷ []

abbrev errors {ℓ} : {A B C : Type ℓ} → Result A → Result B → Result C → List (Option Error)
errors t c s = error_of t ∷ error_of c ∷ error_of s ∷ []

abbrev forgotten_errors {ℓ} :
    {A B C : Type ℓ} → Result A → Result B → Result C → List (Option Error)
forgotten_errors t c s =
    Parallel.error_of (forget t) ∷ Parallel.error_of (forget c) ∷ Parallel.error_of (forget s) ∷ []

error_of-forget {ℓ} : {A : Type ℓ} (r : Result A) → Parallel.error_of (forget r) ≡ error_of r
error_of-forget (ok a) = refl
error_of-forget (err e) = refl

failed {ℓ} : {A : Type ℓ} (r : Result A) → error_of r ≡ none → (a : A) × (r ≡ ok a)
failed (ok a) h = (a, refl)
failed (err e) h = ground (arith, h)

joined_at :
    (o : Option Error) (t c : Result (Map Text)) (s : Result (Map ℕ))
    → join_errors (errors t c s) ≡ o
    → forget (findings_or o t c s) ≡ result_of o
joined_at (some e) t c s h = refl
joined_at none t c s h =
    let (p, (q, (r, _))) = join_errors_quiet (errors t c s) h in
    rw ((failed t p).1, (failed c q).1, (failed s r).1)

joined :
    (t c : Result (Map Text)) (s : Result (Map ℕ))
    → forget (findings_or (join_errors (errors t c s)) t c s)
      ≡ result_of (join_errors (forgotten_errors t c s))
joined t c s =
    rw (error_of-forget t, error_of-forget c, error_of-forget s)
      (joined_at (join_errors (errors t c s)) t c s refl)

-- The three branches of the workflow, without the variables that they write, are those that
-- `Parallel` runs: both return nil or the same error, in the same world.
gather-parallel :
    (host : Host) (f : Formats) (wc : WorkflowContext) (files : List FileEntry) (w : World)
    → (forget (gather host f wc files w).0, (gather host f wc files w).1)
      ≡ parallel wc (branches host f files) w
unfolding gather parallel run_branches panic_to_error
gather-parallel host f wc files w =
    let (types, w₁) =
      run f.LabelsJson (scope wc (codes "classify")) (codes "detect-types")
        (returning (detect_types host files)) w in
    let (checksums, w₂) =
      run f.LabelsJson (scope wc (codes "checksum")) (codes "compute-checksums")
        (returning (compute_checksums host files)) w₁ in
    let (sizes, w₃) =
      run f.SizesJson (scope wc (codes "measure")) (codes "measure-sizes")
        (returning (measure_each host files [])) w₂ in
    ap (λ r. (r, w₃)) (joined types checksums sizes)
