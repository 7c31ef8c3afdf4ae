-- ===== src/Engine/Loops/Batches.antt =====
-- What the scheduler dispatches.
use flicker.Prelude.{ℕ, suc, ◌≤◌, ◌≡◌, ◌≢◌, refl, List, [], ◌∷◌, arith, length, All}
use flicker.Time.{Time}
use flicker.Errors.{Result, ok, err}
use flicker.Records.{WorkflowRecord}
use flicker.World.{World}
use flicker.Sqlite.Scan.{bind, scan_workflow, scan_all}
use flicker.Sqlite.Workflows.{list_schedulable, select_schedulable}
use flicker.Sqlite.Promotion.{select_schedulable_lem}
use flicker.Engine.{poll, listed}
use flicker.Engine.Loops.{Received, done, tick, nudge, batch, scheduler_start}

abbrev size_of : {A : Type 0} → Result (List A) → ℕ
size_of (ok as') = length as'
size_of (err e) = 0

size_of-bind :
    {A : Type 0} (x : Result A) (rest : Result (List A))
    → size_of (bind x λ a. bind rest λ as'. ok (a ∷ as')) ≤ suc (size_of rest)
size_of-bind (ok a) (ok as') = omega arith
size_of-bind (ok a) (err e) = omega arith
size_of-bind (err e) rest = omega arith

size_of-scan_all :
    {A B : Type 0} (scan : A → Result B) (rows : List A)
    → size_of (scan_all scan rows) ≤ length rows
unfolding scan_all
size_of-scan_all scan [] = omega arith
size_of-scan_all scan (r ∷ rs) =
    omega (arith, size_of-bind (scan r) (scan_all scan rs), size_of-scan_all scan rs)

length-listed : (r : Result (List WorkflowRecord)) → length (listed r) ≡ size_of r
length-listed (ok rs) = refl
length-listed (err e) = refl

list_schedulable-limit : (limit : ℕ) (w : World) → size_of (list_schedulable limit w).0 ≤ limit
unfolding list_schedulable
list_schedulable-limit limit w =
    let t : Time = w.clock w.readings in
    let rows = select_schedulable limit t w.tables.workflows in
    let few : length rows ≤ limit =
      omega (arith, (select_schedulable_lem limit t w.tables.workflows).1) in
    ground (arith, few, size_of-scan_all scan_workflow rows)

batch-All :
    (P : List WorkflowRecord → Type 0) (rs : List WorkflowRecord) (bs : List (List WorkflowRecord))
    → (rs ≢ [] → P rs)
    → All P bs
    → All P (batch rs bs)
batch-All P [] bs h k = k
batch-All P (r ∷ rs) bs h k = (h (λ e. cc), k)

positive {ℓ} : {A : Type ℓ} (xs : List A) → xs ≢ [] → 1 ≤ length xs
positive [] h = absurd (h refl)
positive (x ∷ xs) h = omega arith

poll-Bounded :
    (limit : ℕ) (w : World)
    → (poll limit w).0 ≢ []
    → (1 ≤ length (poll limit w).0) × (length (poll limit w).0 ≤ limit)
unfolding poll
poll-Bounded limit w some_found = (
  positive (listed (list_schedulable limit w).0) some_found,
  omega (arith, length-listed (list_schedulable limit w).0, list_schedulable-limit limit w),
)

-- `dispatch` never gets an empty batch, and never one above the limit of a poll.
batches_bounded :
    (limit : ℕ) (events : List Received) (w : World)
    → All (λ b. (1 ≤ length b) × (length b ≤ limit)) (scheduler_start limit events w).0
unfolding scheduler_start
batches_bounded limit [] w = tt
batches_bounded limit (done ∷ events) w = tt
batches_bounded limit (tick ∷ events) w =
    batch-All _ (poll limit w).0 _ (poll-Bounded limit w)
      (batches_bounded limit events (poll limit w).1)
batches_bounded limit (nudge ∷ events) w =
    batch-All _ (poll limit w).0 _ (poll-Bounded limit w)
      (batches_bounded limit events (poll limit w).1)
