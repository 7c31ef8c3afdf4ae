-- ===== src/Engine/Start/Drain.antt =====
-- The end of `Engine.Start`: the wait for the workflows in flight.
use flicker.Prelude.{
  ℕ, zero, suc, ◌≡◌, refl, ap, ◌∙◌, subst, true, false, List, [], ◌∷◌, arith, Text, length,
  if◌then◌else◌,
}
use flicker.Records.{WorkflowRecord}
use flicker.Leases.{contains}
use flicker.Engine.Start.{
  EngineState, skip_run, begin_run, end_run, Transition, begins, ends, Reachable, goes, Returned,
  returns,
}
use flicker.Engine.Start.Exclusive.{Reachable-IsExclusive}

empty_of_length {ℓ} : {A : Type ℓ} (xs : List A) → length xs ≡ 0 → xs ≡ []
empty_of_length [] h = refl
empty_of_length (x ∷ xs) h = absurd (omega (arith, h))

-- `Start` returns only when every submitted task is over: no record waits in the pool, no workflow is in
-- execution and no lease is held.
Returned-idle :
    (s : EngineState) (x : Text)
    → Reachable s
    → Returned s
    → (s.submitted ≡ []) × (s.executing ≡ []) × (contains x s.leases ≡ false)
unfolding contains
Returned-idle s x reached (returns _ over none_left) =
    let h = Reachable-IsExclusive s reached in
    let idle = empty_of_length s.executing (omega (arith, h.counted, none_left)) in
    (
      empty_of_length s.submitted (omega (arith, h.counted, none_left)),
      idle,
      h.leased x ∙ ap (contains x) idle,
    )

-- Further transitions.
pub data Goes : EngineState → EngineState → Type 0 where
  stays : (s : EngineState) → Goes s s
  goes_by : (s t u : EngineState) → Transition s t → Goes t u → Goes s u

abbrev Finishes : EngineState → Type 0
Finishes s = (t : EngineState) × Goes s t × Returned t

Finishes-next : (s t : EngineState) → Transition s t → Finishes t → Finishes s
Finishes-next s t step (u, path, over) = (u, goes_by s t u step path, over)

-- With one workflow in flight more.
module _ (n : ℕ)
    (rest : (t : EngineState) → Reachable t → t.stopped ≡ true → t.in_flight ≡ n → Finishes t) where
  end_one :
      (s : EngineState) (id : Text) (after : List Text)
      → Reachable s
      → s.stopped ≡ true
      → s.in_flight ≡ suc n
      → s.executing ≡ id ∷ after
      → Finishes s
  end_one s id after reached over count busy =
      let step : Transition s (end_run id after s) = ends s [] after id busy in
      Finishes-next s (end_run id after s) step (
        rest (end_run id after s) (goes s (end_run id after s) reached step) over
          (omega (arith, count)))

  run_one :
      (s : EngineState) (r : WorkflowRecord) (after : List WorkflowRecord)
      → Reachable s
      → s.stopped ≡ true
      → s.in_flight ≡ suc n
      → s.submitted ≡ r ∷ after
      → s.executing ≡ []
      → Finishes s
  unfolding contains
  run_one s r after reached over count waiting idle =
      let started : EngineState = record s {
        submitted = after;
        executing = r.id ∷ s.executing;
        leases = r.id ∷ s.leases;
      } in
      let free : contains r.id s.leases ≡ false =
        (Reachable-IsExclusive s reached).leased r.id ∙ ap (contains r.id) idle in
      let begun : begin_run r after s ≡ started =
        ap (λ b. if b then skip_run after s else started) free in
      let step : Transition s started = subst (Transition s) begun (begins s [] after r waiting) in
      Finishes-next s started step
        (end_one started r.id s.executing (goes s started reached step) over count refl)

  take_one :
      (submitted : List WorkflowRecord) (executing : List Text) (s : EngineState)
      → Reachable s
      → s.stopped ≡ true
      → s.in_flight ≡ suc n
      → s.submitted ≡ submitted
      → s.executing ≡ executing
      → Finishes s
  take_one submitted (id ∷ after) s reached over count e busy =
      end_one s id after reached over count busy
  take_one (r ∷ after) [] s reached over count waiting idle =
      run_one s r after reached over count waiting idle
  take_one [] [] s reached over count none_waits idle = absurd (
      omega (
        arith,
        count,
        (Reachable-IsExclusive s reached).counted,
        ap length none_waits,
        ap length idle,
      ))

drain_from :
    (n : ℕ) (s : EngineState) → Reachable s → s.stopped ≡ true → s.in_flight ≡ n → Finishes s
drain_from zero s reached over count = (s, stays s, returns s over count)
drain_from (suc n) s reached over count =
    take_one n (drain_from n) s.submitted s.executing s reached over count refl refl

-- However far `Start` has come, once its scheduler has returned there are further transitions after which
-- `Start` returns: no interleaving of promoters, scheduler and workers leads to a state in which it waits
-- for ever.
pub drain_finishes :
    (s : EngineState) → Reachable s → s.stopped ≡ true → (t : EngineState) × Goes s t × Returned t
drain_finishes s reached over = drain_from s.in_flight s reached over refl
