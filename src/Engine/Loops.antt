-- ===== src/Engine/Loops.antt =====
-- The loops of `PollingScheduler.Start` and `PollingTimePromoter.Start`: what their `select` receives is
-- an argument. Nothing is received behind the end of the context.
pub mod Batches
use flicker.Prelude.{
  ℕ, suc, Bool, true, false, List, [], ◌∷◌, Option, none, some, ◌==◌, if◌then◌else◌,
}
use flicker.Time.{second}
use flicker.Records.{WorkflowRecord}
use flicker.World.{World}
use flicker.Engine.{promotion_cycle, poll}

pub data Received : Type 0 where
  done tick nudge : Received

-- The interval of the scheduler's ticker.
unfoldable pub poll_interval : ℕ → ℕ
poll_interval interval = if interval == 0 then second else interval

-- `dispatch` is called for records only.
abbrev pub batch : List WorkflowRecord → List (List WorkflowRecord) → List (List WorkflowRecord)
batch [] batches = batches
batch (r ∷ rs) batches = (r ∷ rs) ∷ batches

-- The batches that `dispatch` gets, one per poll that finds any.
unfoldable pub scheduler_start : ℕ → List Received → World → List (List WorkflowRecord) × World
unfolding poll
scheduler_start limit [] w = ([], w)
scheduler_start limit (done ∷ events) w = ([], w)
scheduler_start limit (tick ∷ events) w =
    let (records, w₁) = poll limit w in
    let (batches, w₂) = scheduler_start limit events w₁ in (batch records batches, w₂)
scheduler_start limit (nudge ∷ events) w =
    let (records, w₁) = poll limit w in
    let (batches, w₂) = scheduler_start limit events w₁ in (batch records batches, w₂)

abbrev counted : Bool → ℕ → ℕ
counted true n = suc n
counted false n = n

-- The promoter has no channel for nudges; the result is the number of its calls of `ready`.
unfoldable pub promoter_start : List Received → World → ℕ × World
unfolding promotion_cycle
promoter_start [] w = (0, w)
promoter_start (done ∷ events) w = (0, w)
promoter_start (nudge ∷ events) w = promoter_start events w
promoter_start (tick ∷ events) w =
    let (ready, w₁) = promotion_cycle w in
    let (calls, w₂) = promoter_start events w₁ in (counted ready calls, w₂)
